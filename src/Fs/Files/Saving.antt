-- ===== src/Fs/Files/Saving.antt =====
-- What is written to an open file reaches the device with the flush that follows.
use adbncfs.Prelude.{
  ℕ, ◌≡◌, refl, inl, inr, Bool, true, false, none, some, List, [], arith, Option-cases, Text,
  text_eq_refl, is_empty, if◌then◌else◌,
}
use adbncfs.Prelude.Int.{ℤ}
use adbncfs.Prelude.Dict.{find, put, find-put, find-insert}
use adbncfs.Path.{make_local_path}
use adbncfs.FileCache.{invalidate}
use adbncfs.FileStatus.{
  Entry, FileStatus, new_entry, set_pending, change, pending_open, is_pending_open, flush_entry,
}
use adbncfs.FileStatus
use adbncfs.FileStatus.History.{at}
use adbncfs.Fs.State.{Env, done, State, M, Result, ok, fault, ◌>>=◌, ◌>>◌, pure, continue}
use adbncfs.Fs.Transfer.{adbnc_push}
use adbncfs.Fs.Files.{
  FileInfo, settle, unsettle, carried, status_flush, flush_copy, adbnc_flush, adbnc_write,
  push_copy, adbnc_fsync, set_status, cache_invalidate,
}

find-pending_open :
    (m : FileStatus) (path : Text) (pending write : Bool)
    → find (pending_open m path pending write) path ≡ some (set_pending (at m path) pending write)
unfolding pending_open change
find-pending_open m path pending write = elim (Option-cases (find m path)) [
  | inl e ↦
      rw (e, pending_open, change)
        (ground (
          arith,
          find-insert m path (set_pending new_entry pending write) path,
          e,
          text_eq_refl path,
        ))
  | inr (r, e) ↦
      rw (e, pending_open, change)
        (ground (arith, find-put m path (set_pending r pending write) path, e, text_eq_refl path))
]

-- The entry after its flush.
abbrev pub flushed : Entry → Entry
flushed e = record e { is_pending = false; for_write = false; renamed_from_local = [] }

-- The local copy that a flush pushes: the one that the file was renamed from, if there is one.
abbrev pub copy_of : Entry → Text → Text
copy_of e local = if is_empty e.renamed_from_local then local else e.renamed_from_local

flush-written :
    {W : Type 0} (push : Text → Text → W → ℤ × W) (m : FileStatus) (path from : Text) (w : W)
    (e : Entry)
    → find m path ≡ some (set_pending e true true)
    → FileStatus.flush push m path from w
      ≡ ((push (copy_of e from) path w).0, put m path (flushed e), (push (copy_of e from) path w).1)
unfolding FileStatus.flush flush_entry set_pending
flush-written push m path from w e f = rw (f, FileStatus.flush) refl

written_pending :
    (m : FileStatus) (path : Text) (e : Entry)
    → find m path ≡ some (set_pending e true true)
    → is_pending_open m path ≡ true
unfolding is_pending_open set_pending
written_pending m path e f = rw (f, is_pending_open) refl

-- The result and the state of a push, with this status of the files.
abbrev pub saved : {W : Type 0} → FileStatus → Result ℤ × State W → Result ℤ × State W
saved m (r, t) = (r, record t { file_status = m })

module _ {W : Type 0} (push : Text → Text → M W ℤ) where
  settled :
      (m : FileStatus) (p : Result ℤ × State W)
      → saved m (unsettle (settle p).0 (settle p).1) ≡ saved m p
  settled m (ok r, t) = refl
  settled m (fault f, t) = refl

  -- A file that was written is pushed.
  status_flush-written :
      (path from : Text) (s : State W) (e : Entry)
      → find s.file_status path ≡ some (set_pending e true true)
      → status_flush push path from s
        ≡ saved (put s.file_status path (flushed e)) (push (copy_of e from) path s)
  unfolding status_flush
  status_flush-written path from s e f =
      rw (flush-written (carried push) s.file_status path from (none, s) e f, status_flush)
        (settled (put s.file_status path (flushed e)) (push (copy_of e from) path s))

module _ (env : Env) where
  open env use {World, sys_fsync, sys_pwrite}

  pub flush_copy-written :
      (path : Text) (s : State World) (e : Entry)
      → find s.file_status path ≡ some (set_pending e true true)
      → flush_copy env path s
        ≡ saved (put s.file_status path (flushed e)) (
            adbnc_push env
              (copy_of e (make_local_path s.temp_dir path))
              path
              (record s { file_cache = invalidate s.file_cache path }))
  unfolding flush_copy
  flush_copy-written path s e f =
      rw (written_pending s.file_status path e f, ◌>>=◌)
        (status_flush-written (adbnc_push env) path (make_local_path s.temp_dir path)
          (record s { file_cache = invalidate s.file_cache path }) e f)

  -- The state in which the flush behind a write pushes, given the world at that point.
  abbrev pub written_state : Text → World → State World → State World
  written_state path w s = record s {
    file_cache = invalidate s.file_cache path;
    file_status = pending_open s.file_status path true true;
    world = w;
  }

  -- A write and then a flush, where both system calls succeed, push the file to the device: the
  -- result is that of the push, which runs with the path out of the cache, from the local copy that
  -- the file was renamed from if there is one, and the file is no longer pending.
  pub adbnc_write-flush :
      (path : Text) (bytes : List ℕ) (offset n : ℕ) (fi : FileInfo) (s : State World) (w v : World)
      → sys_pwrite fi.fh bytes offset s.world ≡ (done n, w)
      → sys_fsync fi.fh w ≡ (none, v)
      → (adbnc_write env path bytes offset fi >> adbnc_flush env path fi) s
        ≡ saved
            (put (pending_open s.file_status path true true) path (flushed (at s.file_status path)))
            (adbnc_push env
              (copy_of (at s.file_status path) (make_local_path s.temp_dir path))
              path
              (written_state path v s))
  unfolding adbnc_write adbnc_flush
  adbnc_write-flush path bytes offset n fi s w v written synced =
      let m = pending_open s.file_status path true true in
      rw (written, synced, ◌>>=◌)
        (flush_copy-written path (record s { file_status = m; world = v }) (at s.file_status path)
          (find-pending_open s.file_status path true true))

  -- The status of a path after `fsync`, if the push ends.
  abbrev pub synced_state : Text → Result ℤ × State World → Result ℤ × State World
  synced_state path (ok r, t) = (
    ok r,
    record t {
      file_status = pending_open t.file_status path false false;
      file_cache = invalidate t.file_cache path;
    },
  )
  synced_state path (fault f, t) = (fault f, t)

  after_push :
      (path : Text) (p : Result ℤ × State World)
      → continue p.0
          (λ r.
            (set_status (λ m. pending_open m path false false) >> cache_invalidate path) >> pure r)
          p.1
        ≡ synced_state path p
  after_push path (ok r, t) = refl
  after_push path (fault f, t) = refl

  -- A write and then an fsync, where both system calls succeed, push the local copy under the present
  -- name of the file, also of a file that was renamed and so has its copy under another name.
  pub adbnc_write-fsync :
      (path : Text) (bytes : List ℕ) (offset n : ℕ) (fi : FileInfo) (s : State World) (w v : World)
      → sys_pwrite fi.fh bytes offset s.world ≡ (done n, w)
      → sys_fsync fi.fh w ≡ (none, v)
      → (adbnc_write env path bytes offset fi >> adbnc_fsync env path fi) s
        ≡ synced_state path (
            adbnc_push env
              (make_local_path s.temp_dir path)
              path
              (record s { file_status = pending_open s.file_status path true true; world = v }))
  unfolding adbnc_write adbnc_fsync push_copy
  adbnc_write-fsync path bytes offset n fi s w v written synced =
      let m = pending_open s.file_status path true true in
      let pending =
        written_pending m path (at s.file_status path)
          (find-pending_open s.file_status path true true) in
      rw (written, synced, pending, ◌>>=◌)
        (after_push path (
          adbnc_push env (make_local_path s.temp_dir path) path
            (record s { file_status = m; world = v })))
