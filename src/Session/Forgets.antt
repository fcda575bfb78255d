-- ===== src/Session/Forgets.antt =====
-- After a change that goes through the file system, the cache no longer answers for what was changed.
use adbncfs.Prelude.{
  ℕ, zero, suc, ◌≡◌, refl, ◌≢◌, Bool, true, false, ◌||◌, Option, none, some, ◌++◌, arith,
  if◌then◌else◌, Text, codes, text_eq,
}
use adbncfs.Prelude.Int.{ℤ, pos, neg, is_ok}
use adbncfs.FileCache.{get_stat}
use adbncfs.FileStatus.{pending_open, is_pending_open}
use adbncfs.Fs.State.{Env, State, Result, ok, pure, continue, ◌>>=◌, ◌>>◌}
use adbncfs.Fs.Shell.{adbnc_shell, exec_command_via_net_cat}
use adbncfs.Fs.Stat.{quoted, stat_result, stat_output, fetch_stat, do_stat, do_stat_exists}
use adbncfs.Fs.Attributes.{Stat, attr_result, adbnc_getattr}
use adbncfs.Fs.Transfer.{adbnc_push}
use adbncfs.Fs.Files.{
  set_status, FileInfo, local_path, note_truncated, adbnc_truncate, push_node, adbnc_mknod,
  push_copy, adbnc_fsync,
}
use adbncfs.Fs.Names.{adbnc_mkdir, adbnc_rmdir, adbnc_unlink, adbnc_utimens, adbnc_rename}
use adbncfs.Fs.Names.Effects.{adbnc_rename_effects}
use adbncfs.Session.Reaches.{
  IsForgotten, forgets, Reaches, Reaches-bind, Reaches-call, Drops, Reaches-fails, Reaches-when_ok,
  ends_forgotten, Reaches-last,
}

module _ (env : Env) where
  open env use {World, sys_truncate, sys_mknod, sys_fsync}

  -- What `adbnc_getattr` gives that asks the device.
  abbrev pub asked : Text → State World → Result (ℤ × Stat)
  asked path s =
      let (r, t) = adbnc_shell env (codes "stat -t " ++ quoted path) s in
      (continue r (λ output u. (attr_result (stat_result output), u)) t).0

  pub getattr-asked :
      (path : Text) (s : State World)
      → IsForgotten path s
      → (adbnc_getattr env path s).0 ≡ asked path s
  unfolding get_stat adbnc_getattr do_stat stat_output fetch_stat adbnc_shell
      exec_command_via_net_cat
  getattr-asked path s h =
      let g : get_stat (env.time s.world) s.file_cache path ≡ none = rw (h, get_stat) refl in
      rw (g, ◌>>=◌, stat_output) refl

  pub adbnc_mkdir-forgets : (path : Text) → Reaches (Drops path) (adbnc_mkdir env path)
  unfolding adbnc_mkdir adbnc_shell exec_command_via_net_cat
  adbnc_mkdir-forgets path = ends_forgotten path _ (forgets path)

  pub adbnc_rmdir-forgets : (path : Text) → Reaches (Drops path) (adbnc_rmdir env path)
  unfolding adbnc_rmdir adbnc_shell exec_command_via_net_cat
  adbnc_rmdir-forgets path = ends_forgotten path _ (forgets path)

  pub adbnc_unlink-forgets : (path : Text) → Reaches (Drops path) (adbnc_unlink env path)
  unfolding adbnc_unlink adbnc_shell exec_command_via_net_cat
  adbnc_unlink-forgets path = ends_forgotten path _ (forgets path)

  pub adbnc_utimens-forgets : (path : Text) → Reaches (Drops path) (adbnc_utimens env path)
  unfolding adbnc_utimens adbnc_shell exec_command_via_net_cat
  adbnc_utimens-forgets path = ends_forgotten path _ (forgets path)

  pub adbnc_rename-forgets :
      (from to path : Text)
      → (text_eq from path || text_eq to path) ≡ true
      → Reaches (Drops path) (adbnc_rename env from to)
  adbnc_rename-forgets from to path h =
      ends_forgotten path _ λ s.
        let (u, e, f, g) = adbnc_rename_effects env from to path s in rw e (ground (arith, f, h))

  -- Failing calls of the host tell why.
  pub record HasErrno : Type 0 where
    pub truncate : (path : Text) (n : ℕ) (w : World) → (sys_truncate path n w).0 ≢ some 0
    pub mknod : (path : Text) (mode rdev : ℕ) (w : World) → (sys_mknod path mode rdev w).0 ≢ some 0
    pub fsync : (fd : ℤ) (w : World) → (sys_fsync fd w).0 ≢ some 0

  pub neg_errno : (e : ℕ) → some e ≢ some 0 → neg e ≢ pos 0
  neg_errno zero h = absurd (h refl)
  neg_errno (suc e) h = λ z. cc

  note_truncated-forgets :
      (path : Text) (o : Option ℕ) → o ≢ some 0 → Reaches (Drops path) (note_truncated env path o)
  unfolding note_truncated
  note_truncated-forgets path none h = ends_forgotten path _ (λ s. forgets path s)
  note_truncated-forgets path (some errno) h = Reaches-fails path (neg errno) (neg_errno errno h)

  pub adbnc_truncate-forgets :
      (path : Text) (n : ℕ) → HasErrno → Reaches (Drops path) (adbnc_truncate env path n)
  unfolding adbnc_truncate
  adbnc_truncate-forgets path n h = Reaches-bind (do_stat_exists env path) _ λ found.
      Reaches-when_ok path found _ (
        Reaches-bind (local_path path) _ λ local.
          Reaches-call (λ o. o ≢ some 0) (sys_truncate local n) _ (h.truncate local n)
            (λ o v. note_truncated-forgets path o v))

  push_node-forgets : (path local : Text) → Reaches (Drops path) (push_node env path local)
  unfolding push_node
  push_node-forgets path local = Reaches-bind (adbnc_push env local path) _ (λ r.
      Reaches-last path (if is_ok r then (adbnc_shell env (codes "sync") >> pure tt) else pure tt)
        r)

  made_node-forgets :
      (path local : Text) (o : Option ℕ)
      → o ≢ some 0
      → Reaches
          (Drops path)
          (elim o [ none ↦ push_node env path local | some errno ↦ pure (neg errno) ])
  made_node-forgets path local none h = push_node-forgets path local
  made_node-forgets path local (some errno) h = Reaches-fails path (neg errno) (neg_errno errno h)

  pub adbnc_mknod-forgets :
      (path : Text) (mode rdev : ℕ)
      → HasErrno
      → Reaches (Drops path) (adbnc_mknod env path mode rdev)
  unfolding adbnc_mknod
  adbnc_mknod-forgets path mode rdev h = Reaches-bind (local_path path) _ λ local.
      Reaches-call (λ o. o ≢ some 0) (sys_mknod local mode rdev) _ (h.mknod local mode rdev)
        (λ o v. made_node-forgets path local o v)

  push_copy-forgets : (path : Text) → Reaches (Drops path) (push_copy env path)
  unfolding push_copy
  push_copy-forgets path = Reaches-bind (local_path path) _ λ local.
      Reaches-bind (adbnc_push env local path) _
        (λ r. Reaches-last path (set_status (λ m. pending_open m path false false)) r)

  synced_fsync-forgets :
      (path : Text) (pending : Bool) (o : Option ℕ)
      → pending ≡ true
      → o ≢ some 0
      → Reaches (Drops path) (elim o [
        | none ↦ if pending then push_copy env path else pure (pos 0)
        | some errno ↦ pure (neg errno)
      ])
  synced_fsync-forgets path true none p h = push_copy-forgets path
  synced_fsync-forgets path false none p h = absurd (cc)
  synced_fsync-forgets path pending (some errno) p h =
      Reaches-fails path (neg errno) (neg_errno errno h)

  pub adbnc_fsync-forgets :
      (path : Text) (fi : FileInfo) (s t : State World)
      → HasErrno
      → is_pending_open s.file_status path ≡ true
      → adbnc_fsync env path fi s ≡ (ok (pos 0), t)
      → IsForgotten path t
  unfolding adbnc_fsync
  adbnc_fsync-forgets path fi s t h p e =
      (synced_fsync-forgets path (is_pending_open s.file_status path) (sys_fsync fi.fh s.world).0 p
          (h.fsync fi.fh s.world)).at
        _ t (pos 0) e refl
