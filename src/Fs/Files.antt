-- ===== src/Fs/Files.antt =====
-- The callbacks on files: `adbnc_open`, `adbnc_flush`, `adbnc_fsync`, `adbnc_release`, `adbnc_read`,
-- `adbnc_write`, `adbnc_truncate` and `adbnc_mknod`.
pub mod Opening
pub mod Saving
pub mod Truncating
use adbncfs.Prelude.{
  ℕ, zero, Bool, true, false, Option, none, some, List, [], ◌==◌, if◌then◌else◌, length, Text,
  codes,
}
use adbncfs.Prelude.Int.{ℤ, pos, negsuc, neg, int_eq, is_ok}
use adbncfs.Path.{make_local_path}
use adbncfs.FileCache.{invalidate}
use adbncfs.FileStatus.{FileStatus, pending_open, truncated, is_pending_open, is_truncated}
use adbncfs.FileStatus
use adbncfs.Fs.State.{
  Env, Sys, done, failed, State, M, Result, ok, Fault, fault, pure, gets, modify, on_world, ◌>>=◌,
  ◌>>◌, when_ok, ebadf,
}
use adbncfs.Fs.Shell.{adbnc_shell}
use adbncfs.Fs.Stat.{do_stat_exists}
use adbncfs.Fs.Transfer.{adbnc_pull, adbnc_push}

-- `struct fuse_file_info`, the fields that are used
pub record FileInfo : Type 0 where
  pub fh : ℤ
  pub flags : ℕ

-- `iRes == -1 ? -errno : iRes`
abbrev pub size_result : Sys ℕ → ℤ
size_result (done n) = pos n
size_result (failed errno) = neg errno

-- A world in which an action that may end in a fault is a function on the world: a fault is kept,
-- and stops what comes after it.
abbrev pub Carried : Type 0 → Type 0
Carried W = Option Fault × State W

module _ {W : Type 0} where
  -- `fileCache.invalidate`
  abbrev pub cache_invalidate : Text → M W (Unit {0})
  cache_invalidate path = modify (λ s. record s { file_cache = invalidate s.file_cache path })

  -- A setter of `fileStatus`.
  abbrev pub set_status : (FileStatus → FileStatus) → M W (Unit {0})
  set_status f = modify (λ s. record s { file_status = f s.file_status })

  -- `makeLocalPath`
  abbrev pub local_path : Text → M W Text
  local_path path = gets (λ s. make_local_path s.temp_dir path)

  abbrev pub settle : Result ℤ × State W → ℤ × Carried W
  settle (ok r, s) = (r, (none, s))
  settle (fault f, s) = (pos 0, (some f, s))

  abbrev pub unsettle : {A : Type 0} → A → Carried W → Result A × State W
  unsettle a (none, s) = (ok a, s)
  unsettle a (some f, s) = (fault f, s)

  abbrev pub carried : (Text → Text → M W ℤ) → Text → Text → Carried W → ℤ × Carried W
  carried push from to (none, s) = settle (push from to s)
  carried push from to (some f, s) = (pos 0, (some f, s))

  -- `fileStatus.flush`, given `adbncPush`, which does not touch `fileStatus`.
  unfoldable pub status_flush : (Text → Text → M W ℤ) → Text → Text → M W ℤ
  status_flush push path from s =
      let (r, m, c) = FileStatus.flush (carried push) s.file_status path from (none, s) in
      let (result, s') = unsettle r c in (result, record s' { file_status = m })

module _ (env : Env) where
  open env use {
    World, exists_file, sys_open, sys_close, sys_fsync, sys_pread, sys_pwrite, sys_truncate,
    sys_mknod,
  }

  -- The part of `adbnc_open` before the local open: it wants the local copy, if the file was not
  -- truncated just now. What is tested on the host is the path on the device.
  unfoldable pub fetch_copy : Text → M World ℤ
  fetch_copy path = do
    found ← do_stat_exists env path
    here ← gets (λ s. exists_file path s.world)
    when_ok found
        (if here then pure (pos 0) else (do local ← local_path path; adbnc_pull env path local))

  -- What a local open makes of the result and the file handle.
  abbrev pub opened : FileInfo → Sys ℕ → ℤ × FileInfo
  opened fi (done fd) = (pos 0, record fi { fh = pos fd })
  opened fi (failed errno) = (neg errno, record fi { fh = negsuc 0 })

  unfoldable pub open_copy : Text → FileInfo → ℤ → M World (ℤ × FileInfo)
  open_copy path fi (pos zero) = do
    local ← local_path path
    result ← on_world (sys_open local fi.flags)
    pure (opened fi result)
  open_copy path fi r = pure (r, fi)

  unfoldable pub prepare_copy : Text → Bool → M World ℤ
  unfolding fetch_copy
  prepare_copy path true = do set_status (λ m. truncated m path false); pure (pos 0)
  prepare_copy path false = fetch_copy path

  -- `adbnc_open`
  unfoldable pub adbnc_open : Text → FileInfo → M World (ℤ × FileInfo)
  unfolding open_copy prepare_copy
  adbnc_open path fi = do
    is_new ← gets (λ s. is_truncated s.file_status path)
    r ← prepare_copy path is_new
    open_copy path fi r

  -- A copy that is open may be changed on the device, so the cache forgets it.
  unfoldable pub flush_copy : Text → M World ℤ
  unfolding status_flush
  flush_copy path = do
    local ← local_path path
    pending ← gets (λ s. is_pending_open s.file_status path)
    (if pending then cache_invalidate path else pure tt)
    status_flush (adbnc_push env) path local

  -- `adbnc_flush`. A handle that is closed already is no error.
  unfoldable pub adbnc_flush : Text → FileInfo → M World ℤ
  adbnc_flush path fi = do
    synced ← on_world (sys_fsync fi.fh)
    elim synced [
      | none ↦ flush_copy path
      | some errno ↦ if errno == ebadf then flush_copy path else pure (neg errno)
    ]

  unfoldable pub push_copy : Text → M World ℤ
  push_copy path = do
    local ← local_path path
    r ← adbnc_push env local path
    set_status (λ m. pending_open m path false false)
    cache_invalidate path
    pure r

  -- `adbnc_fsync`
  unfoldable pub adbnc_fsync : Text → FileInfo → M World ℤ
  unfolding push_copy
  adbnc_fsync path fi = do
    synced ← on_world (sys_fsync fi.fh)
    pending ← gets (λ s. is_pending_open s.file_status path)
    elim synced [
      | none ↦ if pending then push_copy path else pure (pos 0)
      | some errno ↦ pure (neg errno)
    ]

  -- `adbnc_release`
  unfoldable pub adbnc_release : Text → FileInfo → M World ℤ
  adbnc_release path fi s =
      let (r, m, w) = FileStatus.release sys_close s.file_status path fi.fh s.world in
      (ok r, record s { file_status = m; world = w })

  abbrev pub read_result : Sys (List ℕ) → ℤ × List ℕ
  read_result (done bytes) = (pos (length bytes), bytes)
  read_result (failed errno) = (neg errno, [])

  -- `adbnc_read`: the result, and the bytes that are put into the buffer.
  unfoldable pub adbnc_read : Text → ℕ → ℕ → FileInfo → M World (ℤ × List ℕ)
  adbnc_read path size offset fi = do
    set_status (λ m. pending_open m path true false)
    if int_eq fi.fh (negsuc 0)
        then pure (neg ebadf, [])
        else (do result ← on_world (sys_pread fi.fh size offset); pure (read_result result))

  -- `adbnc_write`
  unfoldable pub adbnc_write : Text → List ℕ → ℕ → FileInfo → M World ℤ
  adbnc_write path bytes offset fi = do
    set_status (λ m. pending_open m path true true)
    result ← on_world (sys_pwrite fi.fh bytes offset)
    pure (size_result result)

  unfoldable pub note_truncated : Text → Option ℕ → M World ℤ
  note_truncated path none = do
    set_status (λ m. truncated m path true)
    cache_invalidate path
    pure (pos 0)
  note_truncated path (some errno) = pure (neg errno)

  -- `adbnc_truncate`
  unfoldable pub adbnc_truncate : Text → ℕ → M World ℤ
  unfolding note_truncated
  adbnc_truncate path size = do
    found ← do_stat_exists env path
    when_ok found (do
      local ← local_path path
      cut ← on_world (sys_truncate local size)
      note_truncated path cut)

  unfoldable pub push_node : Text → Text → M World ℤ
  push_node path local = do
    r ← adbnc_push env local path
    (if is_ok r then (do adbnc_shell env (codes "sync"); pure tt) else pure tt)
    cache_invalidate path
    pure r

  -- `adbnc_mknod`
  unfoldable pub adbnc_mknod : Text → ℕ → ℕ → M World ℤ
  unfolding push_node
  adbnc_mknod path mode rdev = do
    local ← local_path path
    made ← on_world (sys_mknod local mode rdev)
    elim made [ none ↦ push_node path local | some errno ↦ pure (neg errno) ]
