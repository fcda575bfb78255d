-- ===== src/Session/Cached.antt =====
-- The cache holds only what was printed for the path, whatever is put into it or taken out of it.
use adbncfs.Prelude.{
  ℕ, ◌≡◌, inl, inr, some, List, arith, Bool-cases, Option-cases, Text, text_eq, text_eq_iff,
}
use adbncfs.Prelude.Dict.{find, put, find-put}
use mathlib.Core.Path.{subst}
use adbncfs.FileCache.{
  FileCache, Entry, put_stat, put_read_link, get_stat, get_read_link, set_stat_output,
  set_read_link_output, invalidate,
}
use adbncfs.FileCache.History.{find-invalidate}
use adbncfs.Fs.State.{Env}
use adbncfs.Session.Sound.{PrintedStat, PrintedLink, IsGenuine, AllGenuine}

module _ (env : Env) (command : Text → env.World → List Text × env.World) (first : env.World) where
  open env use {World}

  put-AllGenuine :
      (c : FileCache) (path : Text) (v : Entry)
      → AllGenuine env command first c
      → IsGenuine env command first path v
      → AllGenuine env command first (put c path v)
  put-AllGenuine c path v h g j e f = elim (Bool-cases (text_eq path j)) [
    | inl t ↦
        let same : path ≡ j = (text_eq_iff path j).0 t in
        let value : v ≡ e = ground (arith, find-put c path v j, f, t) in
        subst (λ q. IsGenuine env command first q e) same
          (subst (IsGenuine env command first path) value g)
    | inr n ↦ h j e (ground (arith, find-put c path v j, f, n))
  ]

  pub invalidate-AllGenuine :
      (c : FileCache) (path : Text)
      → AllGenuine env command first c
      → AllGenuine env command first (invalidate c path)
  invalidate-AllGenuine c path h j e f = h j e (ground (arith, find-invalidate c path j, f))

  -- An entry that was there, or a new one, that gets an output.
  pub put_stat-AllGenuine :
      (now : ℕ) (c : FileCache) (path : Text) (output : List Text)
      → AllGenuine env command first c
      → PrintedStat env command first path output
      → AllGenuine env command first (put_stat now c path output)
  unfolding put_stat set_stat_output
  put_stat-AllGenuine now c path output h q = elim (Option-cases (find c path)) [
    | inl e ↦
        rw (e, put_stat)
          (put-AllGenuine c path _ h record {
            stat = λ o f. subst (PrintedStat env command first path) (cc) q;
            link = λ o f. absurd (cc);
          })
    | inr (r, e) ↦
        rw (e, put_stat)
          (put-AllGenuine c path _ h record {
            stat = λ o f. subst (PrintedStat env command first path) (cc) q;
            link = (h path r e).link;
          })
  ]

  pub put_read_link-AllGenuine :
      (now : ℕ) (c : FileCache) (path : Text) (output : List Text)
      → AllGenuine env command first c
      → PrintedLink env command first path output
      → AllGenuine env command first (put_read_link now c path output)
  unfolding put_read_link set_read_link_output
  put_read_link-AllGenuine now c path output h q = elim (Option-cases (find c path)) [
    | inl e ↦
        rw (e, put_read_link)
          (put-AllGenuine c path _ h record {
            link = λ o f. subst (PrintedLink env command first path) (cc) q;
            stat = λ o f. absurd (cc);
          })
    | inr (r, e) ↦
        rw (e, put_read_link)
          (put-AllGenuine c path _ h record {
            link = λ o f. subst (PrintedLink env command first path) (cc) q;
            stat = (h path r e).stat;
          })
  ]

  -- What the cache gives is what it holds.
  pub get_stat-PrintedStat :
      (now : ℕ) (c : FileCache) (path : Text) (output : List Text)
      → AllGenuine env command first c
      → get_stat now c path ≡ some output
      → PrintedStat env command first path output
  unfolding get_stat
  get_stat-PrintedStat now c path output h e = elim (Option-cases (find c path)) [
    | inl f ↦ absurd (ground (arith, e, f))
    | inr (r, f) ↦ (h path r f).stat output (ground (arith, e, f))
  ]

  pub get_read_link-PrintedLink :
      (now : ℕ) (c : FileCache) (path : Text) (output : List Text)
      → AllGenuine env command first c
      → get_read_link now c path ≡ some output
      → PrintedLink env command first path output
  unfolding get_read_link
  get_read_link-PrintedLink now c path output h e = elim (Option-cases (find c path)) [
    | inl f ↦ absurd (ground (arith, e, f))
    | inr (r, f) ↦ (h path r f).link output (ground (arith, e, f))
  ]
