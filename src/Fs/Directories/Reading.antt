-- ===== src/Fs/Directories/Reading.antt =====
-- What the calls of `adbnc_readdir` put into buffers that hold a few entries each.
use adbncfs.Prelude.{
  ℕ, zero, suc, ◌+◌, ◌≤◌, ◌≡◌, refl, sym, ap, ◌∙◌, inl, inr, Bool, true, false, ◌||◌, some, List,
  [], ◌∷◌, ◌++◌, append-nil, append_assoc, arith, ltb, ltb→lt, if◌then◌else◌, Bool-cases, length,
  take, drop, length-append, All, Text,
}
use adbncfs.Prelude.Int.{ℤ, pos}
use adbncfs.Prelude.Dict.{find}
use adbncfs.Fs.State.{Env, State, M, Result, ok, fault, ◌>>=◌}
use adbncfs.Fs.Attributes.{Stat, adbnc_getattr}
use adbncfs.Fs.Directories.{entry_path, put_entry, visit, read_entries, read_listing, adbnc_readdir}
use adbncfs.Fs.Directories.Wanted.{Listed, wanted, wanted_resume, take_split}

-- A buffer for `k` entries.
abbrev pub collect : ℕ → List Listed → Text → Stat → ℕ → List Listed × Bool
collect k b name attributes next =
    if ltb (length b) k then (b ++ (name, next) ∷ [], false) else (b, true)

take_all {ℓ} : {A : Type ℓ} (k : ℕ) (b : List A) → length b ≤ k → take k b ≡ b
take_all zero [] h = refl
take_all zero (x ∷ b) h = absurd (omega arith)
take_all (suc k) [] h = refl
take_all (suc k) (x ∷ b) h = ap (λ l. x ∷ l) (take_all k b (omega arith))

take_full {ℓ} : {A : Type ℓ} (k : ℕ) (b w : List A) → length b ≡ k → take k (b ++ w) ≡ b
take_full zero [] w h = refl
take_full zero (x ∷ b) w h = absurd (omega arith)
take_full (suc k) [] w h = absurd (omega arith)
take_full (suc k) (x ∷ b) w h = ap (λ l. x ∷ l) (take_full k b w (omega arith))

ltb_full : (a k : ℕ) → a ≤ k → ltb a k ≡ false → a ≡ k
ltb_full a k h e = ground arith

-- `Inv` is what is known of the state in which the entries are read.
module _ (env : Env) (Inv : State env.World → Type 0) (path : Text) where
  open env use {World}

  -- The attributes of the entry can be read, and what is known of the state stays so.
  abbrev pub IsThere : Text → Type 0
  IsThere name =
      (t : State World)
      → Inv t
      → (a : Stat) × (u : State World) × (adbnc_getattr env (entry_path path name) t
          ≡ (ok (pos 0, a), u))
        × Inv u

  module _ (k offset : ℕ) where
    -- What the loop leaves in the buffer.
    abbrev Reads : List Text → ℕ → List Listed → State World → Type 0
    Reads names i b s =
        (u : State World) × (read_entries env (collect k) path offset names i b s
          ≡ (ok (take k (b ++ wanted offset names i)), u))

    put_entry_lem :
        (name : Text) (a : Stat) (next : ℕ) (b : List Listed)
        (rest : List Listed → M World (List Listed)) (u : State World)
        → put_entry env (collect k) name a next b rest u
          ≡ (if ltb (length b) k then rest (b ++ (name, next) ∷ []) u else (ok b, u))
    unfolding put_entry
    put_entry_lem name a next b rest u = elim (Bool-cases (ltb (length b) k)) [
      | inl e ↦ rw e
      | inr e ↦ rw e
    ]

    visit_lem :
        (name : Text) (next : ℕ) (b : List Listed) (rest : List Listed → M World (List Listed))
        (s u : State World) (a : Stat)
        → adbnc_getattr env (entry_path path name) s ≡ (ok (pos 0, a), u)
        → visit env (collect k) path name next b rest s
          ≡ (if ltb (length b) k then rest (b ++ (name, next) ∷ []) u else (ok b, u))
    unfolding visit
    visit_lem name next b rest s u a e = rw (e, ◌>>=◌) (put_entry_lem name a next b rest u)

    -- One entry that is there, if what follows it is read.
    visit_wanted :
        (name : Text) (next : ℕ) (b : List Listed) (rest : List Listed → M World (List Listed))
        (s : State World) (w : List Listed)
        → (a : Stat) × (u : State World) × (adbnc_getattr env (entry_path path name) s
            ≡ (ok (pos 0, a), u))
          × Inv u
        → length b ≤ k
        → ((c : List Listed) (u : State World)
            → Inv u
            → length c ≤ k
            → (v : State World) × (rest c u ≡ (ok (take k (c ++ w)), v)))
        → (v : State World) × (visit env (collect k) path name next b rest s
            ≡ (ok (take k (b ++ (name, next) ∷ w)), v))
    visit_wanted name next b rest s w (a, u, e, i) n follow = elim (Bool-cases (ltb (length b) k)) [
      | inl room ↦
          let c = b ++ (name, next) ∷ [] in
          let m : length c ≤ k =
            omega (arith, length-append b ((name, next) ∷ []), ltb→lt (length b) k room) in
          let (v, r) = follow c u i m in
          (
            v,
            visit_lem name next b rest s u a e
                ∙ rw room (r ∙ ap (λ l. (ok (take k l), v)) (append_assoc b ((name, next) ∷ []) w)),
          )
      | inr full ↦ (
        u,
        visit_lem name next b rest s u a e
            ∙ rw full (
                ap (λ l. (ok l, u))
                  (sym (take_full k b ((name, next) ∷ w) (ltb_full (length b) k n full)))),
      )
    ]

    read_entries_lem :
        (names : List Text) (i : ℕ) (b : List Listed) (s : State World)
        → All IsThere names
        → Inv s
        → length b ≤ k
        → Reads names i b s
    unfolding read_entries
    read_entries_lem [] i b s h v n =
        (s, rw append-nil (ap (λ l. (ok l, s)) (sym (take_all k b n))))
    read_entries_lem (name ∷ names) i b s h v n = elim (Bool-cases (ltb i 2 || ltb i offset)) [
      | inl e ↦ rw e (read_entries_lem names (suc i) b s h.1 v n)
      | inr e ↦ rw e (
          visit_wanted name (i + 1) b
            (λ b'. read_entries env (collect k) path offset names (suc i) b') s
            (wanted offset names (suc i)) (h.0 s v) n
            (λ b' u v' m. read_entries_lem names (suc i) b' u h.1 v' m))
    ]

module _ (env : Env) (Inv : State env.World → Type 0) (path : Text) where
  open env use {World}

  -- The directory is open, and each of its entries is there in this state and whenever one of them
  -- is read after another.
  abbrev pub IsListed : List Text → State World → Type 0
  IsListed names s = (find s.open_dirs path ≡ some names) × Inv s × All (IsThere env Inv path) names

  -- A call with room for `k` entries puts the first `k` entries from the offset on into the
  -- buffer and returns 0, where the directory is open and the attributes of its entries can be read.
  -- The first two names of the listing are left out, whatever names they are, and no other, so `.` or
  -- `..` is among the entries where other names stand before it.
  pub adbnc_readdir-wanted :
      (k offset : ℕ) (names : List Text) (s : State World)
      → IsListed names s
      → (u : State World) × (adbnc_readdir env (collect k) path offset [] s
          ≡ (ok (pos 0, take k (wanted offset names 0)), u))
  unfolding adbnc_readdir read_listing
  adbnc_readdir-wanted k offset names s (e, v, h) =
      let (u, r) = read_entries_lem env Inv path k offset names 0 [] s h v (omega arith) in
      (u, rw (◌>>=◌, e, r) refl)

  -- The calls of a reader continue each other: where a buffer for `k` entries was filled from
  -- `offset` and the last entry in it carries the offset `o`, a call from `o` goes on with the
  -- entries that follow those `k`, none twice and none left out.
  pub adbnc_readdir-resume :
      (k l offset o : ℕ) (names : List Text) (s t u : State World) (read : List Listed) (n : Text)
      → IsListed names s
      → adbnc_readdir env (collect k) path offset [] s ≡ (ok (pos 0, read ++ (n, o) ∷ []), u)
      → IsListed names t
      → (v : State World) × (adbnc_readdir env (collect l) path o [] t
          ≡ (ok (pos 0, take l (drop k (wanted offset names 0))), v))
  adbnc_readdir-resume k l offset o names s t u read n hs call ht =
      let (u', r) = adbnc_readdir-wanted k offset names s hs in
      let full = take_split k (wanted offset names 0) read (n, o) (sym (ap got (sym call ∙ r))) in
      let (v, q) = adbnc_readdir-wanted l o names t ht in
      (
        v,
        q
            ∙ ap (λ w. (ok (pos 0, take l w), v))
                (wanted_resume offset names 0 read n o (drop k (wanted offset names 0)) full),
      )
    where
      got : Result (ℤ × List Listed) × State World → List Listed
      got (ok (r, b), s) = b
      got (fault f, s) = []
