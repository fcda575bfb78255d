-- ===== src/Fs/Directories/Sharing.antt =====
-- The listings of open directories, which all readers of a directory share.
use adbncfs.Prelude.{
  ℕ, ◌≡◌, refl, ap, ◌∙◌, inl, inr, Bool, Option, none, some, List, [], ◌∷◌, ◌++◌, arith,
  if◌then◌else◌, Option-cases, Text, codes, text_eq, text_eq_iff, text_eq_refl,
}
use adbncfs.Prelude.Int.{neg}
use adbncfs.Prelude.Dict.{Dict, find, find-erase, find-insert}
use adbncfs.Fs.State.{Env, State, Result, ok, fault, ◌>>=◌, ebadf}
use adbncfs.Fs.Shell.{adbnc_shell, exec_command_via_net_cat}
use adbncfs.Fs.Stat.{quoted}
use adbncfs.Fs.Attributes.{Stat}
use adbncfs.Fs.Directories.{
  add_listing, keep_listing, adbnc_opendir, adbnc_releasedir, read_listing, adbnc_readdir,
}

-- A call that opens or releases a directory; each runs alone, under the mutex.
pub data Call : Type 0 where
  opens : Text → Call
  releases : Text → Call

-- A listing that is kept at all has a line.
abbrev pub kept : List Text → Option (List Text)
kept [] = none
kept (line ∷ lines) = some (line ∷ lines)

-- The listing that is there stays; otherwise the new one is taken.
abbrev pub first_of : Option (List Text) → Option (List Text) → Option (List Text)
first_of none new = new
first_of (some old) new = some old

first_of-none : (old : Option (List Text)) → first_of old none ≡ old
first_of-none none = refl
first_of-none (some old) = refl

abbrev lines_of : Result (List Text) → List Text
lines_of (ok lines) = lines
lines_of (fault f) = []

pub find-add_listing :
    (dirs : Dict (List Text)) (q : Text) (line : Text) (lines : List Text) (p : Text)
    → find (add_listing dirs q (line ∷ lines)) p
      ≡ (if text_eq q p then first_of (find dirs p) (some (line ∷ lines)) else find dirs p)
unfolding add_listing
find-add_listing dirs q line lines p = elim (Option-cases (find dirs q)) [
  | inl e ↦
      rw (e, add_listing) (ground (arith, find-insert dirs q (line ∷ lines) p, e, text_eq_iff q p))
  | inr (old, e) ↦ rw (e, add_listing) (ground (arith, e, text_eq_iff q p))
]

module _ (env : Env) where
  open env use {World}

  -- What the device prints for a directory.
  abbrev pub printed : Text → State World → List Text
  printed q s = lines_of (adbnc_shell env (codes "ls -1a " ++ quoted q) s).0

  -- The state after calls, the last one first.
  unfoldable pub after_calls : State World → List Call → State World
  after_calls s [] = s
  after_calls s (opens q ∷ h) = (adbnc_opendir env q (after_calls s h)).1
  after_calls s (releases q ∷ h) = (adbnc_releasedir env q (after_calls s h)).1

  -- The listing of the first opening since the last release, whoever opened and released.
  abbrev pub listing : State World → Text → List Call → Option (List Text)
  listing s p [] = find s.open_dirs p
  listing s p (opens q ∷ h) =
      let before = listing s p h in
      if text_eq q p then first_of before (kept (printed q (after_calls s h))) else before
  listing s p (releases q ∷ h) = let before = listing s p h in if text_eq q p then none else before

  find-keep_listing :
      (s : State World) (q p : Text) (lines : List Text)
      → find (keep_listing env q lines s).1.open_dirs p
        ≡ (if text_eq q p then first_of (find s.open_dirs p) (kept lines) else find s.open_dirs p)
  unfolding keep_listing
  find-keep_listing s q p [] = ground (arith, first_of-none (find s.open_dirs p))
  find-keep_listing s q p (line ∷ lines) = find-add_listing s.open_dirs q line lines p

  find-adbnc_opendir :
      (s : State World) (q p : Text)
      → find (adbnc_opendir env q s).1.open_dirs p ≡ (
          if text_eq q p
          then first_of (find s.open_dirs p) (kept (printed q s))
          else find s.open_dirs p)
  unfolding adbnc_opendir adbnc_shell exec_command_via_net_cat
  find-adbnc_opendir s q p =
      find-keep_listing (adbnc_shell env (codes "ls -1a " ++ quoted q) s).1 q p (printed q s)

  -- After any calls by any readers, a directory has the listing that its first opening since
  -- its last release got from the device, if that had a line.
  pub find-after_calls :
      (s : State World) (h : List Call) (p : Text)
      → find (after_calls s h).open_dirs p ≡ listing s p h
  unfolding after_calls adbnc_releasedir
  find-after_calls s [] p = refl
  find-after_calls s (opens q ∷ h) p =
      find-adbnc_opendir (after_calls s h) q p
      ∙ ap (λ o. if text_eq q p then first_of o (kept (printed q (after_calls s h))) else o)
          (find-after_calls s h p)
  find-after_calls s (releases q ∷ h) p =
      find-erase (after_calls s h).open_dirs q p
      ∙ ap (λ o. if text_eq q p then none else o) (find-after_calls s h p)

  released_listing :
      (s : State World) (h : List Call) (p : Text)
      → find (after_calls s (releases p ∷ h)).open_dirs p ≡ none
  released_listing s h p = find-after_calls s (releases p ∷ h) p ∙ rw (text_eq_refl p) refl

  -- One release takes a directory from every reader: however often it was opened, the next
  -- `adbnc_readdir` fails with EBADF.
  pub adbnc_readdir-released :
      {B : Type 0} (filler : B → Text → Stat → ℕ → B × Bool) (s : State World) (h : List Call)
      (p : Text) (offset : ℕ) (b : B)
      → adbnc_readdir env filler p offset b (after_calls s (releases p ∷ h))
        ≡ (ok (neg ebadf, b), after_calls s (releases p ∷ h))
  unfolding adbnc_readdir read_listing
  adbnc_readdir-released filler s h p offset b = rw (released_listing s h p, ◌>>=◌) refl
