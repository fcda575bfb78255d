-- ===== src/Session/Files.antt =====
-- The callbacks on files in a session: they end, and what they push and pull does not touch what the
-- device printed.
use adbncfs.Prelude.{
  ℕ, zero, suc, ◌≡◌, refl, inl, inr, Bool, true, false, Option, none, some, List, ◌==◌,
  if◌then◌else◌, Bool-cases, Option-cases, is_empty, Text,
}
use adbncfs.Prelude.Int.{ℤ, pos, neg, negsuc, int_eq}
use adbncfs.Prelude.Dict.{find}
use adbncfs.MountInfo.{MountInfo}
use adbncfs.UserInfo.{UserInfo}
use adbncfs.FileStatus.{
  FileStatus, Entry, flush_entry, release_entry, is_pending_open, pending_open, truncated,
  pending_open_renamed, set_pending,
}
use adbncfs.FileStatus
use adbncfs.Fs.State.{Env, State, pure, gets, on_world, ebadf}
use adbncfs.Fs.Shell.Framing.{IsMarking}
use adbncfs.Fs.Transfer.{adbnc_push}
use adbncfs.Fs.Files.{
  FileInfo, local_path, carried, status_flush, fetch_copy, open_copy, prepare_copy, adbnc_open,
  adbnc_read, adbnc_write, note_truncated, adbnc_truncate, push_node, adbnc_mknod, adbnc_flush,
  flush_copy, adbnc_fsync, push_copy, adbnc_release,
}
use adbncfs.Session.Sound.{Later, closed, IsSound, Holds-world}
use adbncfs.Session.Ensures.{Serves, Serves-bind}
use adbncfs.Session.Faultless.{IsPath}
use adbncfs.Session.Calls.{adbnc_push-Serves, local_path-Serves, call_rules}

module _ (env : Env) (command : Text → env.World → List Text × env.World) (first : env.World)
    (u : Option UserInfo) (m : Option MountInfo) (marks : IsMarking env command) where
  open env use {World, sys_close, sys_fsync, sys_mknod}

  fetch_copy-Serves :
      (path : Text) → IsPath path → Serves env command first u m (fetch_copy env path)
  unfolding fetch_copy
  fetch_copy-Serves path p = search call_rules depth 9

  open_copy-Serves :
      (path : Text) (fi : FileInfo) (r : ℤ) → Serves env command first u m (open_copy env path fi r)
  unfolding open_copy
  open_copy-Serves path fi (pos zero) = search call_rules
  open_copy-Serves path fi (pos (suc n)) = search call_rules
  open_copy-Serves path fi (negsuc n) = search call_rules

  prepare_copy-Serves :
      (path : Text) (is_new : Bool)
      → IsPath path
      → Serves env command first u m (prepare_copy env path is_new)
  unfolding prepare_copy
  prepare_copy-Serves path true p = search call_rules depth 9
  prepare_copy-Serves path false p = fetch_copy-Serves path p

  pub adbnc_open-Serves :
      (path : Text) (fi : FileInfo)
      → IsPath path
      → Serves env command first u m (adbnc_open env path fi)
  unfolding adbnc_open
  adbnc_open-Serves path fi p = search (call_rules, prepare_copy-Serves, open_copy-Serves) depth 9

  -- The push that the flush of an entry makes, if it makes one, ends.
  flush_entry-Ends :
      (e : Entry) (path from : Text) (s : State World)
      → IsPath path
      → IsSound env command first u m s
      → (a : ℤ) × (f : Entry) × (t : State World) × (flush_entry
            (carried (adbnc_push env))
            e
            from
            path
            (none, s)
          ≡ (a, f, (none, t)))
        × IsSound env command first u m t
  unfolding flush_entry
  flush_entry-Ends e path from s p h =
      let source = if is_empty e.renamed_from_local then from else e.renamed_from_local in
      let (a, t, pushed, j, q) =
        (adbnc_push-Serves env command first u m marks source path p).at s h in
      elim (Bool-cases e.is_pending) [
        | inr f ↦ rw (f, flush_entry) (_, _, s, refl, h)
        | inl f ↦ elim (Bool-cases e.for_write) [
          | inr g ↦ rw (f, g, flush_entry) (_, _, s, refl, h)
          | inl g ↦ rw (f, g, pushed, flush_entry) (a, _, t, refl, j)
        ]
      ]

  status_flush-Serves :
      (path from : Text)
      → IsPath path
      → Serves env command first u m (status_flush (adbnc_push env) path from)
  unfolding status_flush FileStatus.flush
  status_flush-Serves path from p = record {
    at = λ s h. elim (Option-cases (find s.file_status path)) [
      | inl e ↦ rw (e, FileStatus.flush) (pos 0, _, refl, h, tt)
      | inr (r, e) ↦
          let (a, f, t, ends, j) = flush_entry-Ends r path from s p h in
          rw (e, ends, FileStatus.flush) (a, _, refl, j, tt)
    ];
  }

  pub adbnc_read-Serves :
      (path : Text) (size offset : ℕ) (fi : FileInfo)
      → Serves env command first u m (adbnc_read env path size offset fi)
  unfolding adbnc_read
  adbnc_read-Serves path size offset fi = search call_rules depth 9

  pub adbnc_write-Serves :
      (path : Text) (bytes : List ℕ) (offset : ℕ) (fi : FileInfo)
      → Serves env command first u m (adbnc_write env path bytes offset fi)
  unfolding adbnc_write
  adbnc_write-Serves path bytes offset fi = search call_rules depth 9

  note_truncated-Serves :
      (path : Text) (o : Option ℕ) → Serves env command first u m (note_truncated env path o)
  unfolding note_truncated
  note_truncated-Serves path none = search call_rules depth 9
  note_truncated-Serves path (some errno) = search call_rules depth 9

  pub adbnc_truncate-Serves :
      (path : Text) (size : ℕ) → Serves env command first u m (adbnc_truncate env path size)
  unfolding adbnc_truncate
  adbnc_truncate-Serves path size = search (call_rules, note_truncated-Serves) depth 9

  push_node-Serves :
      (path local : Text) → IsPath path → Serves env command first u m (push_node env path local)
  unfolding push_node
  push_node-Serves path local p = search call_rules depth 12

  made_node-Serves :
      (path local : Text) (o : Option ℕ)
      → IsPath path
      → Serves env command first u m
          (elim o [ none ↦ push_node env path local | some errno ↦ pure (neg errno) ])
  made_node-Serves path local none p = push_node-Serves path local p
  made_node-Serves path local (some errno) p = search call_rules

  pub adbnc_mknod-Serves :
      (path : Text) (mode rdev : ℕ)
      → IsPath path
      → Serves env command first u m (adbnc_mknod env path mode rdev)
  unfolding adbnc_mknod
  adbnc_mknod-Serves path mode rdev p =
      Serves-bind env command first u m (local_path path) _
        (local_path-Serves env command first u m marks path)
        λ local.
          Serves-bind env command first u m (on_world (sys_mknod local mode rdev)) _
            (search call_rules) (λ o. made_node-Serves path local o p)

  flush_copy-Serves :
      (path : Text) → IsPath path → Serves env command first u m (flush_copy env path)
  unfolding flush_copy
  flush_copy-Serves path p = search (call_rules, status_flush-Serves) depth 12

  synced_flush-Serves :
      (path : Text) (o : Option ℕ)
      → IsPath path
      → Serves env command first u m (elim o [
        | none ↦ flush_copy env path
        | some errno ↦ if errno == ebadf then flush_copy env path else pure (neg errno)
      ])
  synced_flush-Serves path none p = flush_copy-Serves path p
  synced_flush-Serves path (some errno) p = search (call_rules, flush_copy-Serves)

  pub adbnc_flush-Serves :
      (path : Text) (fi : FileInfo)
      → IsPath path
      → Serves env command first u m (adbnc_flush env path fi)
  unfolding adbnc_flush
  adbnc_flush-Serves path fi p =
      Serves-bind env command first u m (on_world (sys_fsync fi.fh)) _ (search call_rules)
        (λ o. synced_flush-Serves path o p)

  push_copy-Serves : (path : Text) → IsPath path → Serves env command first u m (push_copy env path)
  unfolding push_copy
  push_copy-Serves path p = search call_rules depth 12

  synced_fsync-Serves :
      (path : Text) (pending : Bool) (o : Option ℕ)
      → IsPath path
      → Serves env command first u m (elim o [
        | none ↦ if pending then push_copy env path else pure (pos 0)
        | some errno ↦ pure (neg errno)
      ])
  synced_fsync-Serves path pending none p = search (call_rules, push_copy-Serves)
  synced_fsync-Serves path pending (some errno) p = search call_rules

  pub adbnc_fsync-Serves :
      (path : Text) (fi : FileInfo)
      → IsPath path
      → Serves env command first u m (adbnc_fsync env path fi)
  unfolding adbnc_fsync
  adbnc_fsync-Serves path fi p =
      Serves-bind env command first u m (on_world (sys_fsync fi.fh)) _ (search call_rules) λ o.
        Serves-bind env command first u m (gets (λ s. is_pending_open s.file_status path)) _
          (search call_rules) (λ pending. synced_fsync-Serves path pending o p)

  release_entry-Later :
      (e : Entry) (fh : ℤ) (w : World)
      → Later env command first w
      → Later env command first (release_entry sys_close e fh w).2
  unfolding release_entry
  release_entry-Later e fh w l = elim (Bool-cases (int_eq fh (negsuc 0))) [
    | inl f ↦ rw (f, release_entry) l
    | inr f ↦ rw (f, release_entry) (closed fh w l)
  ]

  release-Later :
      (files : FileStatus) (path : Text) (fh : ℤ) (w : World)
      → Later env command first w
      → Later env command first (FileStatus.release sys_close files path fh w).2
  unfolding FileStatus.release
  release-Later files path fh w l = elim (Option-cases (find files path)) [
    | inl e ↦ rw (e, FileStatus.release) l
    | inr (r, e) ↦ rw (e, FileStatus.release) (release_entry-Later r fh w l)
  ]

  pub adbnc_release-Serves :
      (path : Text) (fi : FileInfo) → Serves env command first u m (adbnc_release env path fi)
  unfolding adbnc_release
  adbnc_release-Serves path fi = record {
    at = λ s h.
        let w = (FileStatus.release sys_close s.file_status path fi.fh s.world).2 in
        (
          _,
          _,
          refl,
          Holds-world env command first u m h w
              (release-Later s.file_status path fi.fh s.world h.later),
          tt,
        );
  }
