-- ===== src/FileStatus/History.antt =====
-- The status against the list of the calls that were made on it, the last one first.
use adbncfs.Prelude.{
  ℕ, ◌≡◌, refl, inl, inr, Bool, true, false, ◌&&◌, Option, none, some, List, [], ◌∷◌, arith,
  if◌then◌else◌, Option-cases, Text, text_eq, text_eq_iff,
}
use adbncfs.Prelude.Dict.{find, find-put, find-insert}
use adbncfs.Prelude.Int.{ℤ}
use adbncfs.FileStatus.{
  Entry, FileStatus, new_entry, set_pending, set_renamed, set_truncated, change, pending_open,
  pending_open_renamed, truncated, flush_entry, flush, release_entry, release,
}

-- The entry of a path; a path with no entry is as one with a new entry.
abbrev pub at : FileStatus → Text → Entry
at m path = elim (find m path) [ none ↦ new_entry | some e ↦ e ]

pub at-change :
    (m : FileStatus) (q : Text) (f : Entry → Entry) (path : Text)
    → at (change m q f) path ≡ (if text_eq q path then f (at m path) else at m path)
unfolding change
at-change m q f path = elim (Option-cases (find m q)) [
  | inl e ↦
      rw (e, change) (ground (arith, find-insert m q (f new_entry) path, e, text_eq_iff q path))
  | inr (r, e) ↦ rw (e, change) (ground (arith, find-put m q (f r) path, e, text_eq_iff q path))
]

-- The entry behind `FileStatus::Entry::flush`, whatever is pushed.
flushed_entry : Entry → Entry
unfolding set_pending
flushed_entry e =
    if e.is_pending then set_pending (record e { renamed_from_local = [] }) false false else e

module _ {W : Type 0} (push : Text → Text → W → ℤ × W) (close : ℤ → W → Option ℕ × W) (w : W) where
  flush_entry-flushed_entry :
      (e : Entry) (from to : Text) → (flush_entry push e from to w).1 ≡ flushed_entry e
  unfolding flush_entry flushed_entry
  flush_entry-flushed_entry e from to = ground arith

  at-flush :
      (m : FileStatus) (q from path : Text)
      → at (flush push m q from w).1 path
        ≡ (if text_eq q path then flushed_entry (at m path) else at m path)
  unfolding flush
  at-flush m q from path = elim (Option-cases (find m q)) [
    | inl e ↦ unfold flushed_entry in rw (e, flush) (ground (arith, e, text_eq_iff q path))
    | inr (r, e) ↦
        rw (e, flush)
          (ground (
            arith,
            find-put m q (flush_entry push r from q w).1 path,
            flush_entry-flushed_entry r from q,
            text_eq_iff q path,
          ))
  ]

  release_entry-set_pending :
      (e : Entry) (fh : ℤ) → (release_entry close e fh w).1 ≡ set_pending e false false
  unfolding release_entry
  release_entry-set_pending e fh = ground arith

  at-release :
      (m : FileStatus) (q : Text) (fh : ℤ) (path : Text)
      → at (release close m q fh w).1 path
        ≡ (if text_eq q path then set_pending (at m path) false false else at m path)
  unfolding release
  at-release m q fh path = elim (Option-cases (find m q)) [
    | inl e ↦ unfold set_pending in rw (e, release) (ground (arith, e, text_eq_iff q path))
    | inr (r, e) ↦
        rw (e, release)
          (ground (
            arith,
            find-put m q (release_entry close r fh w).1 path,
            release_entry-set_pending r fh,
            text_eq_iff q path,
          ))
  ]

-- The calls by which the file system changes the status.
pub data Event : Type 0 where
  read : Text → Event
  written : Text → Event
  renamed : Text → Text → Event
  truncated_set : Text → Bool → Event
  flushed : Text → Text → Event
  released : Text → ℤ → Event

-- Whether a read, a write or a rename of the path came after its last flush and release.
abbrev pub opened : Text → List Event → Bool
opened p [] = false
opened p (read q ∷ h) = if text_eq q p then true else opened p h
opened p (written q ∷ h) = if text_eq q p then true else opened p h
opened p (renamed q local ∷ h) = if text_eq q p then true else opened p h
opened p (truncated_set q b ∷ h) = opened p h
opened p (flushed q from ∷ h) = if text_eq q p then false else opened p h
opened p (released q fh ∷ h) = if text_eq q p then false else opened p h

-- Whether the last read, write, flush or release of the path was a write.
abbrev pub dirty : Text → List Event → Bool
dirty p [] = false
dirty p (read q ∷ h) = if text_eq q p then false else dirty p h
dirty p (written q ∷ h) = if text_eq q p then true else dirty p h
dirty p (renamed q local ∷ h) = dirty p h
dirty p (truncated_set q b ∷ h) = dirty p h
dirty p (flushed q from ∷ h) = if text_eq q p then false else dirty p h
dirty p (released q fh ∷ h) = if text_eq q p then false else dirty p h

-- The local copy that a renamed file is pushed from: a flush that found the file open forgets it.
abbrev pub source : Text → List Event → Text
source p [] = []
source p (read q ∷ h) = source p h
source p (written q ∷ h) = source p h
source p (renamed q local ∷ h) = if text_eq q p then local else source p h
source p (truncated_set q b ∷ h) = source p h
source p (flushed q from ∷ h) = if text_eq q p && opened p h then [] else source p h
source p (released q fh ∷ h) = source p h

-- A written file is open.
pub dirty-opened : (p : Text) (h : List Event) → dirty p h ≡ true → opened p h ≡ true
dirty-opened p (read q ∷ h) e = ground (arith, dirty-opened p h)
dirty-opened p (written q ∷ h) e = ground (arith, dirty-opened p h)
dirty-opened p (renamed q local ∷ h) e = ground (arith, dirty-opened p h)
dirty-opened p (truncated_set q b ∷ h) e = dirty-opened p h e
dirty-opened p (flushed q from ∷ h) e = ground (arith, dirty-opened p h)
dirty-opened p (released q fh ∷ h) e = ground (arith, dirty-opened p h)
dirty-opened p [] e = cc

-- The three members of an entry that a flush reads.
abbrev pub view : Entry → Bool × Bool × Text
view e = (e.is_pending, e.for_write, e.renamed_from_local)

module _ {W : Type 0} (push : Text → Text → W → ℤ × W) (close : ℤ → W → Option ℕ × W) (w : W) where
  -- What is pushed or closed changes the world, and none of it the status.
  abbrev pub step : FileStatus → Event → FileStatus
  step m (read p) = pending_open m p true false
  step m (written p) = pending_open m p true true
  step m (renamed p local) = pending_open_renamed m p local
  step m (truncated_set p b) = truncated m p b
  step m (flushed p from) = (flush push m p from w).1
  step m (released p fh) = (release close m p fh w).1

  unfoldable pub run : List Event → FileStatus
  run [] = []
  run (e ∷ h) = step (run h) e

  pub view-run :
      (h : List Event) (p : Text) → view (at (run h) p) ≡ (opened p h, dirty p h, source p h)
  unfolding run pending_open pending_open_renamed truncated flushed_entry
  view-run [] p = unfold find in refl
  view-run (read q ∷ h) p =
      ground (arith, at-change (run h) q (λ e. set_pending e true false) p, view-run h p)
  view-run (written q ∷ h) p =
      ground (arith, at-change (run h) q (λ e. set_pending e true true) p, view-run h p)
  view-run (renamed q local ∷ h) p =
      ground (arith, at-change (run h) q (λ e. set_renamed e local) p, view-run h p)
  view-run (truncated_set q b ∷ h) p =
      ground (arith, at-change (run h) q (λ e. set_truncated e b) p, view-run h p)
  view-run (flushed q from ∷ h) p =
      ground (arith, at-flush push close w (run h) q from p, view-run h p, dirty-opened p h)
  view-run (released q fh ∷ h) p =
      ground (arith, at-release push close w (run h) q fh p, view-run h p)
