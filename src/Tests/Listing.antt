-- ===== src/Tests/Listing.antt =====
-- Reading a directory with little room, on the device of `World`.
use adbncfs.Prelude.{
  ℕ, suc, ◌≡◌, refl, ap, ◌∙◌, ◌⊎◌, inl, inr, none, some, List, [], ◌∷◌, ◌++◌, arith, Bool-cases,
  Option-cases, take, drop, Text, codes, text_eq, starts_with, contains,
}
use adbncfs.Prelude.Int.{pos}
use adbncfs.Prelude.Dict.{find, put, find-put}
use adbncfs.Strings.Numbers.{stoul, stoul_hex, stol, to_i64}
use adbncfs.FileCache.{Entry, FileCache, new_entry, set_stat_output, get_stat, put_stat}
use adbncfs.Fs.State.{State, ok, ◌>>=◌}
use adbncfs.Fs.Shell.{read_output, exec_command_via_net_cat, adbnc_shell}
use adbncfs.Fs.Stat.{stat_result, do_stat, stat_output, fetch_stat}
use adbncfs.Fs.Attributes.{Stat, zero_stat, attr_result, adbnc_getattr}
use adbncfs.Fs.Directories.{entry_path, adbnc_readdir}
use adbncfs.Fs.Directories.Wanted.{wanted}
use adbncfs.Fs.Directories.Reading.{
  collect, IsThere, IsListed, adbnc_readdir-wanted, adbnc_readdir-resume,
}
use adbncfs.Tests.World.{answer, env, start}

-- The cache holds, for any path, what the device prints, or nothing.
abbrev Serves : FileCache → Text → Type 0
Serves c p =
    (find c p ≡ none) ⊎ ((e : Entry) × (find c p ≡ some e) × (e.stat_output ≡ some (answer ∷ [])))

abbrev IsServed : State ℕ → Type 0
IsServed s = (s.incoming ≡ []) × ((p : Text) → Serves s.file_cache p)

get_stat-Serves :
    (now : ℕ) (c : FileCache) (p : Text) (out : List Text)
    → Serves c p
    → get_stat now c p ≡ some out
    → out ≡ answer ∷ []
unfolding get_stat
get_stat-Serves now c p out (inl f) g = absurd (ground (arith, f))
get_stat-Serves now c p out (inr (e, f, a)) g = ground (arith, f)

put-Serves :
    (c : FileCache) (q p : Text) (e : Entry)
    → e.stat_output ≡ some (answer ∷ [])
    → Serves c p
    → Serves (put c q e) p
put-Serves c q p e a h = elim (Bool-cases (text_eq q p)) [
  | inl t ↦ inr (e, find-put c q e p ∙ rw t refl, a)
  | inr t ↦
      let other : find (put c q e) p ≡ find c p = find-put c q e p ∙ rw t refl in
      elim h [ inl f ↦ inl (other ∙ f) | inr (e', f, a') ↦ inr (e', other ∙ f, a') ]
]

put_stat-Serves :
    (now : ℕ) (c : FileCache) (q p : Text) → Serves c p → Serves (put_stat now c q (answer ∷ [])) p
unfolding put_stat set_stat_output
put_stat-Serves now c q p h = elim (Option-cases (find c q)) [
  | inl f ↦
      rw (f, put_stat) (put-Serves c q p (set_stat_output (new_entry now) (answer ∷ [])) refl h)
  | inr (e, f) ↦
      rw (f, put_stat)
        (put-Serves c q p (record (set_stat_output e (answer ∷ [])) { timestamp = now }) refl h)
]

abbrev attributes : Stat
attributes = record zero_stat { st_mode = 33252; st_nlink = 1; st_blksize = pos 1 }

attr_result-answer : attr_result (stat_result (answer ∷ [])) ≡ ok (pos 0, attributes)
unfolding attr_result stat_result stoul stoul_hex stol to_i64
attr_result-answer = refl

stat_output-IsServed :
    (p : Text) (s : State ℕ)
    → IsServed s
    → (u : State ℕ) × (stat_output env p s ≡ (ok (answer ∷ []), u)) × IsServed u
unfolding stat_output fetch_stat adbnc_shell exec_command_via_net_cat read_output contains
    starts_with
stat_output-IsServed p s h = elim (Option-cases (get_stat s.world s.file_cache p)) [
  | inl e ↦ (
    record s {
      incoming = [];
      world = suc s.world;
      file_cache = put_stat (suc s.world) s.file_cache p (answer ∷ []);
    },
    rw (e, stat_output) (rw h.0 refl),
    (refl, λ q. put_stat-Serves (suc s.world) s.file_cache p q (h.1 q)),
  )
  | inr (out, e) ↦ (
    s,
    rw (e, stat_output)
        (ap (λ o. (ok o, s)) (get_stat-Serves s.world s.file_cache p out (h.1 p) e)),
    h,
  )
]

IsServed-IsThere : (path name : Text) → IsThere env IsServed path name
unfolding adbnc_getattr do_stat
IsServed-IsThere path name s h =
    let (u, e, k) = stat_output-IsServed (entry_path path name) s h in
    (attributes, u, rw (e, ◌>>=◌) (rw attr_result-answer), k)

abbrev names : List Text
names = codes "." ∷ codes ".." ∷ codes "a" ∷ codes "b" ∷ []

IsServed-IsListed :
    (s : State ℕ)
    → find s.open_dirs (codes "/d") ≡ some names
    → IsServed s
    → IsListed env IsServed (codes "/d") names s
IsServed-IsListed s e h =
    let there : (name : Text) → IsThere env IsServed (codes "/d") name =
      λ name. IsServed-IsThere (codes "/d") name in
    (e, h, (there (codes "."), (there (codes ".."), (there (codes "a"), (there (codes "b"), tt)))))

start-IsListed : IsListed env IsServed (codes "/d") names start
unfolding find text_eq
start-IsListed = IsServed-IsListed start refl (refl, λ p. inl refl)

first_read :
    (u : State ℕ) × (adbnc_readdir env (collect 1) (codes "/d") 0 [] start
      ≡ (ok (pos 0, [] ++ (codes "a", 3) ∷ []), u))
first_read = adbnc_readdir-wanted env IsServed (codes "/d") 1 0 names start start-IsListed

-- With room for one entry, `a` is read first.
adbnc_readdir-wanted_example :
    (u : State ℕ) × (adbnc_readdir env (collect 1) (codes "/d") 0 [] start
      ≡ (ok (pos 0, take 1 (wanted 0 names 0)), u))
adbnc_readdir-wanted_example =
    adbnc_readdir-wanted env IsServed (codes "/d") 1 0 names start start-IsListed

-- The next call is for the rest, `b`.
adbnc_readdir-resume_example :
    (v : State ℕ) × (adbnc_readdir env (collect 5) (codes "/d") 3 [] start
      ≡ (ok (pos 0, take 5 (drop 1 (wanted 0 names 0))), v))
adbnc_readdir-resume_example =
    adbnc_readdir-resume env IsServed (codes "/d") 1 5 0 3 names start start first_read.0 []
      (codes "a") start-IsListed first_read.1 start-IsListed
