-- ===== src/FileStatus/Results.antt =====
-- What `flush` pushes and `release` closes.
use adbncfs.Prelude.{
  ℕ, zero, suc, ◌≡◌, refl, sym, ap, ◌∙◌, ◌≢◌, ◌↔◌, inl, inr, Bool, ◌&&◌, Option, none, some, List,
  ◌∷◌, arith, if◌then◌else◌, Bool-cases, Option-cases, is_empty, Text, text_eq_refl,
}
use adbncfs.Prelude.Dict.{find}
use adbncfs.Prelude.Int.{ℤ, pos, negsuc, int_eq}
use adbncfs.FileStatus.{Entry, FileStatus, flush_entry, flush, close_result, release_entry, release}
use adbncfs.FileStatus.History.{Event, read, dirty, dirty-opened, source, run, at, view, view-run}

-- The result and the world, without the status.
abbrev pub outcome {ℓ κ} : {A : Type κ} {W : Type ℓ} → ℤ × A × W → ℤ × W
outcome r = (r.0, r.2)

-- The result and the world behind the flush of an entry of which only `view` is known.
abbrev pub flush_view {ℓ} :
    {W : Type ℓ} → (Text → Text → W → ℤ × W) → Bool × Bool × Text → Text → Text → W → ℤ × W
flush_view push (pending, write, renamed) from to w =
    if pending && write then push (if is_empty renamed then from else renamed) to w else (pos 0, w)

close_result-ne-zero : (o : Option ℕ) → o ≢ some 0 → close_result o ≢ pos 0
unfolding close_result
close_result-ne-zero none h e = cc
close_result-ne-zero (some zero) h e = h refl
close_result-ne-zero (some (suc n)) h e = cc

some-ne-none : {e : Entry} → some e ≢ none
some-ne-none e = cc

module _ {W : Type 0} (push : Text → Text → W → ℤ × W) (close : ℤ → W → Option ℕ × W) where
  flush_entry-view :
      (e : Entry) (from to : Text) (w : W)
      → outcome (flush_entry push e from to w) ≡ flush_view push (view e) from to w
  unfolding flush_entry
  flush_entry-view e from to w = ground arith

  flush-view :
      (m : FileStatus) (p from : Text) (w : W)
      → outcome (flush push m p from w) ≡ flush_view push (view (at m p)) from p w
  unfolding flush
  flush-view m p from w = elim (Option-cases (find m p)) [
    | inl e ↦ rw (e, flush) (rw (e, at))
    | inr (r, e) ↦ rw (e, flush) (rw (e, at) (flush_entry-view r from p w))
  ]

  -- After any calls, a flush pushes the file to its path on the device exactly if the last read,
  -- write, flush or release of it was a write: from its own local copy, or from the one that it was
  -- renamed from. The result is that of the push; otherwise it is 0 and nothing is pushed.
  pub flush-run :
      (w₀ w : W) (h : List Event) (p from : Text)
      → outcome (flush push (run push close w₀ h) p from w) ≡ (
          if dirty p h
          then push (if is_empty (source p h) then from else source p h) p w
          else (pos 0, w))
  flush-run w₀ w h p from =
      flush-view (run push close w₀ h) p from w
      ∙ ap (λ v. flush_view push v from p w) (view-run push close w₀ h p)
      ∙ ground (arith, dirty-opened p h)

  -- A file that is read is not pushed by the flush that follows, whatever was written to it before.
  pub flush_after_read :
      (w₀ w : W) (h : List Event) (p from : Text)
      → outcome (flush push (run push close w₀ (read p ∷ h)) p from w) ≡ (pos 0, w)
  flush_after_read w₀ w h p from =
      flush-run w₀ w (read p ∷ h) p from ∙ ground (arith, text_eq_refl p)

  release_entry-ne-zero :
      (e : Entry) (fh : ℤ) (w : W)
      → ((close fh w).0 ≢ some 0)
      → (release_entry close e fh w).0 ≢ pos 0
  unfolding release_entry
  release_entry-ne-zero e fh w h = elim (Bool-cases (int_eq fh (negsuc 0))) [
    | inl d ↦ rw d (ground arith)
    | inr d ↦ rw d (close_result-ne-zero (close fh w).0 h)
  ]

  -- If no close fails with errno 0, `release` reports success exactly for a path with no entry, where
  -- it closes nothing and the world stays as it is.
  pub release_zero_iff :
      (m : FileStatus) (p : Text) (fh : ℤ) (w : W)
      → ((close fh w).0 ≢ some 0)
      → ((release close m p fh w).0 ≡ pos 0)
        ↔ ((find m p ≡ none) × ((release close m p fh w).2 ≡ w))
  unfolding release
  release_zero_iff m p fh w h = elim (Option-cases (find m p)) [
    | inl e ↦ (λ r. (e, rw (e, release)), λ z. rw (e, release))
    | inr (r, e) ↦ (
      λ z. absurd (release_entry-ne-zero r fh w h (unfold release in (rw (e, release) at z))),
      λ z. absurd (some-ne-none (sym e ∙ z.0)),
    )
  ]
