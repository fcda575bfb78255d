-- ===== src/Fs/Directories.antt =====
-- The callbacks on directories: `adbnc_opendir`, `adbnc_readdir` and `adbnc_releasedir`. The mutex
-- makes each of the first and the last one step; `fInReleaseDirCond` is false outside of the last.
pub mod Wanted
pub mod Reading
pub mod Sharing
use adbncfs.Prelude.{
  ℕ, zero, suc, ◌+◌, ◌-◌, ◌*◌, ◌/◌, ◌%◌, ◌^◌, ◌≤◌, ◌<◌, ◌≡◌, refl, sym, ap, ◌∙◌, fun_ext, ◌≢◌, ◌↔◌,
  ◌⊎◌, inl, inr, Bool, true, false, not, ◌&&◌, ◌||◌, Option, none, some, List, [], ◌∷◌, ◌++◌, map,
  append-nil, append_assoc, arith, ltb, leb, ◌==◌, ==_iff, ==_refl, ltb→lt, lt→ltb, leb→le, tests,
  if◌then◌else◌, Bool-cases, Option-cases, length, get_elem?, take, drop, is_empty, length-append,
  length-drop, All, All-append, Text, codes, text_eq, text_eq_iff, text_eq_refl, starts_with,
  contains, is_delim,
}
use adbncfs.Prelude.Int.{ℤ, pos, neg, is_ok}
use adbncfs.Prelude.Dict.{Dict, find, insert, erase}
use adbncfs.Path.{slash}
use adbncfs.Fs.State.{Env, State, M, Result, ok, pure, gets, modify, ◌>>=◌, ◌>>◌, eio, ebadf}
use adbncfs.Fs.Shell.{adbnc_shell}
use adbncfs.Fs.Stat.{quoted}
use adbncfs.Fs.Attributes.{Stat, adbnc_getattr}

-- A listing that is there is kept: `insert` and the test before it do not replace it.
unfoldable pub add_listing : Dict (List Text) → Text → List Text → Dict (List Text)
add_listing dirs path output = elim (find dirs path) [
  | none ↦ insert dirs path output
  | some old ↦ dirs
]

-- `strFullEntryPath`
unfoldable pub entry_path : Text → Text → Text
unfolding text_eq
entry_path path name = (if text_eq path (slash ∷ []) then path else path ++ slash ∷ []) ++ name

module _ (env : Env) where
  open env use {World}

  unfoldable pub keep_listing : Text → List Text → M World ℤ
  unfolding add_listing
  keep_listing path [] = pure (neg eio)
  keep_listing path (line ∷ lines) = do
    modify (λ s. record s { open_dirs = add_listing s.open_dirs path (line ∷ lines) })
    pure (pos 0)

  -- `adbnc_opendir`
  unfoldable pub adbnc_opendir : Text → M World ℤ
  unfolding keep_listing
  adbnc_opendir path = do
    output ← adbnc_shell env (codes "ls -1a " ++ quoted path)
    keep_listing path output

  -- `adbnc_releasedir`
  unfoldable pub adbnc_releasedir : Text → M World ℤ
  adbnc_releasedir path = do
    modify (λ s. record s { open_dirs = erase s.open_dirs path })
    pure (pos 0)

  -- `filler` puts an entry into the buffer, with the offset at which to go on, and tells whether
  -- the buffer is full, in which case the entry is not in it.
  module _ {B : Type 0} (filler : B → Text → Stat → ℕ → B × Bool) where
    -- `if (filler(…)) break;`
    unfoldable pub put_entry : Text → Stat → ℕ → B → (B → M World B) → M World B
    put_entry name attributes next b rest =
        let (b', full) = filler b name attributes next in if full then pure b' else rest b'

    -- An entry that is no longer there is passed over.
    unfoldable pub visit : Text → Text → ℕ → B → (B → M World B) → M World B
    visit path name next b rest = do
      (r, attributes) ← adbnc_getattr env (entry_path path name)
      if is_ok r then put_entry name attributes next b rest else rest b

    -- The entries from index `i` on. The first two are skipped, whatever they are: the source takes
    -- them for `.` and `..`.
    unfoldable pub read_entries : Text → ℕ → List Text → ℕ → B → M World B
    read_entries path offset [] i b = pure b
    read_entries path offset (name ∷ names) i b =
        let rest : B → M World B = λ b'. read_entries path offset names (suc i) b' in
        if ltb i 2 || ltb i offset then rest b else visit path name (i + 1) b rest

    unfoldable pub read_listing : Text → ℕ → Option (List Text) → B → M World (ℤ × B)
    read_listing path offset none b = pure (neg ebadf, b)
    read_listing path offset (some names) b = do
      b' ← read_entries path offset names 0 b
      pure (pos 0, b')

    -- `adbnc_readdir`
    unfoldable pub adbnc_readdir : Text → ℕ → B → M World (ℤ × B)
    adbnc_readdir path offset b = do
      listing ← gets (λ s. find s.open_dirs path)
      read_listing path offset listing b
