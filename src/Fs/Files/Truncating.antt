-- ===== src/Fs/Files/Truncating.antt =====
-- What becomes of a file that `adbnc_truncate` has cut.
use adbncfs.Prelude.{
  ℕ, ◌≡◌, refl, sym, ap, ◌∙◌, inl, inr, Bool, true, false, Option, none, some, arith, Option-cases,
  Text, text_eq_refl,
}
use adbncfs.Prelude.Int.{ℤ, pos}
use adbncfs.Prelude.Dict.{find, put_same}
use adbncfs.Path.{make_local_path}
use adbncfs.FileCache.{invalidate}
use adbncfs.FileStatus.{
  Entry, FileStatus, new_entry, set_truncated, change, truncated, is_truncated, is_pending_open,
  flush_entry,
}
use adbncfs.FileStatus
use adbncfs.FileStatus.History.{at, at-change}
use adbncfs.Fs.State.{Env, State, ok, ◌>>=◌, ◌>>◌}
use adbncfs.Fs.Stat.{do_stat_exists}
use adbncfs.Fs.Transfer.{adbnc_push}
use adbncfs.Fs.Files.{
  FileInfo, carried, status_flush, open_copy, prepare_copy, adbnc_open, flush_copy, adbnc_flush,
  note_truncated, adbnc_truncate,
}

truncated_view :
    (m : FileStatus) (path : Text) (b : Bool)
    → at (truncated m path b) path ≡ set_truncated (at m path) b
unfolding truncated
truncated_view m path b =
    ground (arith, at-change m path (λ e. set_truncated e b) path, text_eq_refl path)

pending_of :
    (o : Option Entry)
    → elim o as (λ x. Bool) [ none ↦ false | some e ↦ e.is_pending ]
      ≡ (elim o as (λ x. Entry) [ none ↦ new_entry | some e ↦ e ]).is_pending
pending_of none = refl
pending_of (some e) = refl

pending_view : (m : FileStatus) (path : Text) → is_pending_open m path ≡ (at m path).is_pending
unfolding is_pending_open
pending_view m path = pending_of (find m path)

truncated_of :
    (o : Option Entry)
    → elim o as (λ x. Bool) [ none ↦ false | some e ↦ e.is_truncated ]
      ≡ (elim o as (λ x. Entry) [ none ↦ new_entry | some e ↦ e ]).is_truncated
truncated_of none = refl
truncated_of (some e) = refl

truncated_flag : (m : FileStatus) (path : Text) → is_truncated m path ≡ (at m path).is_truncated
unfolding is_truncated
truncated_flag m path = truncated_of (find m path)

truncated_pending :
    (m : FileStatus) (path : Text) (b : Bool)
    → is_pending_open (truncated m path b) path ≡ is_pending_open m path
unfolding set_truncated
truncated_pending m path b =
    pending_view (truncated m path b) path
    ∙ ap (λ e. e.is_pending) (truncated_view m path b)
    ∙ sym (pending_view m path)

is_truncated-truncated :
    (m : FileStatus) (path : Text) (b : Bool) → is_truncated (truncated m path b) path ≡ b
unfolding set_truncated
is_truncated-truncated m path b =
    truncated_flag (truncated m path b) path ∙ ap (λ e. e.is_truncated) (truncated_view m path b)

flush_entry_idle :
    {W : Type 0} (push : Text → Text → W → ℤ × W) (e : Entry) (from to : Text) (w : W)
    → e.is_pending ≡ false
    → flush_entry push e from to w ≡ (pos 0, e, w)
unfolding flush_entry
flush_entry_idle push e from to w h = simp (h, flush_entry) refl

-- A flush of a file that is not pending.
flush_idle :
    {W : Type 0} (push : Text → Text → W → ℤ × W) (m : FileStatus) (path from : Text) (w : W)
    → is_pending_open m path ≡ false
    → FileStatus.flush push m path from w ≡ (pos 0, m, w)
unfolding FileStatus.flush is_pending_open
flush_idle push m path from w h = elim (Option-cases (find m path)) [
  | inl e ↦ rw (e, FileStatus.flush) refl
  | inr (r, e) ↦
      let idle : r.is_pending ≡ false =
        sym (ap (λ o. elim o as (λ x. Bool) [ none ↦ false | some x ↦ x.is_pending ]) e) ∙ h in
      rw (e, FileStatus.flush)
        (rw (flush_entry_idle push r from path w idle)
          (ap (λ x. (pos 0, x, w)) (put_same m path r e)))
]

module _ (env : Env) where
  open env use {World, sys_truncate, sys_fsync}

  flush_copy-idle :
      (path : Text) (s : State World)
      → is_pending_open s.file_status path ≡ false
      → flush_copy env path s ≡ (ok (pos 0), s)
  unfolding flush_copy status_flush
  flush_copy-idle path s h =
      rw (h, ◌>>=◌)
        (rw
          (flush_idle (carried (adbnc_push env)) s.file_status path
            (make_local_path s.temp_dir path) (none, s) h)
          refl)

  -- The state once a file was cut.
  abbrev pub cut_state : Text → World → State World → State World
  cut_state path w t = record t {
    file_status = truncated t.file_status path true;
    file_cache = invalidate t.file_cache path;
    world = w;
  }

  adbnc_truncate_cut :
      (path : Text) (size : ℕ) (s t : State World) (w : World)
      → do_stat_exists env path s ≡ (ok (pos 0), t)
      → sys_truncate (make_local_path t.temp_dir path) size t.world ≡ (none, w)
      → adbnc_truncate env path size s ≡ (ok (pos 0), cut_state path w t)
  unfolding adbnc_truncate note_truncated
  adbnc_truncate_cut path size s t w found cut = rw (found, ◌>>=◌) (rw cut refl)

  -- A file that the device knows and that is not pending, cut and then flushed, where the system calls
  -- succeed, is not pushed: both return 0, and after the local copy was cut nothing is done but the
  -- fsync.
  pub adbnc_truncate-flush :
      (path : Text) (size : ℕ) (fi : FileInfo) (s t : State World) (w v : World)
      → do_stat_exists env path s ≡ (ok (pos 0), t)
      → sys_truncate (make_local_path t.temp_dir path) size t.world ≡ (none, w)
      → sys_fsync fi.fh w ≡ (none, v)
      → is_pending_open t.file_status path ≡ false
      → (adbnc_truncate env path size >> adbnc_flush env path fi) s
        ≡ (ok (pos 0), cut_state path v t)
  unfolding adbnc_flush
  adbnc_truncate-flush path size fi s t w v found cut synced idle =
      rw (adbnc_truncate_cut path size s t w found cut, ◌>>=◌)
        (rw synced (
          flush_copy-idle path (cut_state path v t)
            (truncated_pending t.file_status path true ∙ idle)))

  -- A file that the device knows, cut and then opened, where the cut succeeds, is not pulled again: the
  -- local copy is opened as it is, once its mark is cleared.
  pub adbnc_truncate-open :
      (path : Text) (size : ℕ) (fi : FileInfo) (s t : State World) (w : World)
      → do_stat_exists env path s ≡ (ok (pos 0), t)
      → sys_truncate (make_local_path t.temp_dir path) size t.world ≡ (none, w)
      → (adbnc_truncate env path size >> adbnc_open env path fi) s
        ≡ open_copy env path fi (pos 0) (record (cut_state path w t) {
          file_status = truncated (truncated t.file_status path true) path false;
        })
  unfolding adbnc_open prepare_copy
  adbnc_truncate-open path size fi s t w found cut =
      rw (adbnc_truncate_cut path size s t w found cut, ◌>>=◌)
        (rw (is_truncated-truncated t.file_status path true, ◌>>=◌, prepare_copy) refl)
