-- ===== src/Session/Flushed.antt =====
-- A flush pushes a pending file behind the change of the cache, and asks for the attributes of the
-- parent directory in between, which is another path.
use adbncfs.Prelude.{
  ℕ, ◌≡◌, refl, sym, ap, ◌≢◌, inl, inr, Bool, true, false, Option, none, some, List, arith, ◌==◌,
  if◌then◌else◌, Bool-cases, Option-cases, is_empty, Text, text_eq,
}
use mathlib.Core.Path.{subst}
use adbncfs.Prelude.Int.{ℤ, pos, neg}
use adbncfs.Prelude.Dict.{find}
use adbncfs.Path.{parent, make_local_path}
use adbncfs.FileCache.{FileCache, get_stat, put_stat}
use adbncfs.FileCache.History.{find-put_stat}
use adbncfs.FileStatus.{Entry, flush_entry, pending_open, is_pending_open, FileStatus}
use adbncfs.FileStatus
use adbncfs.Fs.State.{ebadf, Env, State, M, Result, ok, fault, pure, ◌>>=◌}
use adbncfs.Fs.Shell.{adbnc_shell, exec_command_via_net_cat}
use adbncfs.Fs.Program.{exec_prog}
use adbncfs.Fs.Stat.{stat_output, fetch_stat, do_stat}
use adbncfs.Fs.Access.{adbnc_access}
use adbncfs.Fs.Transfer.{adbnc_push_pull_cmd, adbnc_push}
use adbncfs.Fs.Files.{FileInfo, settle, unsettle, carried, flush_copy, status_flush, adbnc_flush}
use adbncfs.Fs.Keeps.{Keeps, keeps_rules}
use adbncfs.Session.Reaches.{IsForgotten, forgets}
use adbncfs.Session.Forgets.{HasErrno, neg_errno}

module _ (env : Env) where
  open env use {World, sys_fsync}

  module _ (q path : Text) (apart : text_eq q path ≡ false) where
    put_stat_other :
        (now : ℕ) (c : FileCache) (out : List Text)
        → find c path ≡ none
        → find (put_stat now c q out) path ≡ none
    put_stat_other now c out h = ground (arith, find-put_stat now c q out path, h, apart)

    fetch_stat-Keeps : Keeps (IsForgotten path) (fetch_stat env q)
    unfolding fetch_stat adbnc_shell exec_command_via_net_cat
    fetch_stat-Keeps = record { at = λ s h. put_stat_other _ s.file_cache _ h }

    stat_output-Keeps : Keeps (IsForgotten path) (stat_output env q)
    unfolding stat_output
    stat_output-Keeps = record {
      at = λ s h. elim (Option-cases (get_stat (env.time s.world) s.file_cache q)) [
        | inr (out, e) ↦ rw (e, stat_output) h
        | inl e ↦ rw (e, stat_output) (fetch_stat-Keeps.at s h)
      ];
    }

    access-Keeps : (mask : ℕ) → Keeps (IsForgotten path) (adbnc_access env q mask)
    unfolding adbnc_access do_stat
    access-Keeps mask = search (keeps_rules, stat_output-Keeps)

  exec_prog-Keeps :
      (path : Text) (argv : List Text) (e : Bool) (r : ℤ)
      → Keeps (IsForgotten path) (exec_prog env argv e r)
  unfolding exec_prog
  exec_prog-Keeps path argv e r = record { at = λ s h. h }

  push-Keeps :
      (local path : Text)
      → text_eq (parent path) path ≡ false
      → Keeps (IsForgotten path) (adbnc_push env local path)
  unfolding adbnc_push adbnc_push_pull_cmd
  push-Keeps local path apart = search (keeps_rules, access-Keeps, exec_prog-Keeps) depth 9

  settled_state : (p : Result ℤ × State World) → (unsettle (settle p).0 (settle p).1).1 ≡ p.1
  settled_state (ok r, t) = refl
  settled_state (fault f, t) = refl

  flush_entry-Keeps :
      (e : Entry) (path from : Text) (s : State World)
      → text_eq (parent path) path ≡ false
      → IsForgotten path s
      → (let (r, f, c) = flush_entry (carried (adbnc_push env)) e from path (none, s) in
          IsForgotten path (unsettle r c).1)
  unfolding flush_entry
  flush_entry-Keeps e path from s apart h = elim (Bool-cases e.is_pending) [
    | inr f ↦ rw (f, flush_entry) h
    | inl f ↦ elim (Bool-cases e.for_write) [
      | inr g ↦ rw (f, g, flush_entry) h
      | inl g ↦
          let source = if is_empty e.renamed_from_local then from else e.renamed_from_local in
          let pushed = (push-Keeps source path apart).at s h in
          rw (f, g, flush_entry)
            (subst (IsForgotten path) (sym (settled_state (adbnc_push env source path s))) pushed)
    ]
  ]

  status_flush-Keeps :
      (path from : Text)
      → text_eq (parent path) path ≡ false
      → Keeps (IsForgotten path) (status_flush (adbnc_push env) path from)
  unfolding status_flush FileStatus.flush
  status_flush-Keeps path from apart = record {
    at = λ s h. elim (Option-cases (find s.file_status path)) [
      | inl e ↦ rw (e, FileStatus.flush) h
      | inr (r, e) ↦ rw (e, FileStatus.flush) (flush_entry-Keeps r path from s apart h)
    ];
  }

  flush_copy-forgets :
      (path : Text) (s : State World)
      → text_eq (parent path) path ≡ false
      → is_pending_open s.file_status path ≡ true
      → IsForgotten path (flush_copy env path s).1
  unfolding flush_copy
  flush_copy-forgets path s apart p =
      rw (p, ◌>>=◌)
        ((status_flush-Keeps path (make_local_path s.temp_dir path) apart).at _ (forgets path s))

  flush_if-forgets :
      (b : Bool) (path : Text) (r : ℤ) (s t : State World)
      → text_eq (parent path) path ≡ false
      → is_pending_open s.file_status path ≡ true
      → r ≢ pos 0
      → (if b then flush_copy env path else pure r) s ≡ (ok (pos 0), t)
      → IsForgotten path t
  flush_if-forgets true path r s t apart p h e =
      subst (IsForgotten path) (ap (λ (q : Result ℤ × State World). q.1) e)
        (flush_copy-forgets path s apart p)
  flush_if-forgets false path r s t apart p h e = let wrong : r ≡ pos 0 = cc in absurd (h wrong)

  synced_flush-forgets :
      (path : Text) (o : Option ℕ) (s t : State World)
      → text_eq (parent path) path ≡ false
      → is_pending_open s.file_status path ≡ true
      → o ≢ some 0
      → (let flushed : M World ℤ = elim o [
        | none ↦ flush_copy env path
        | some errno ↦ if errno == ebadf then flush_copy env path else pure (neg errno)
      ] in
          flushed s ≡ (ok (pos 0), t))
      → IsForgotten path t
  synced_flush-forgets path none s t apart p h e =
      flush_if-forgets true path (pos 1) s t apart p (λ z. cc) e
  synced_flush-forgets path (some errno) s t apart p h e =
      flush_if-forgets (errno == ebadf) path (neg errno) s t apart p (neg_errno env errno h) e

  pub adbnc_flush-forgets :
      (path : Text) (fi : FileInfo) (s t : State World)
      → HasErrno env
      → text_eq (parent path) path ≡ false
      → is_pending_open s.file_status path ≡ true
      → adbnc_flush env path fi s ≡ (ok (pos 0), t)
      → IsForgotten path t
  unfolding adbnc_flush
  adbnc_flush-forgets path fi s t h apart p e =
      synced_flush-forgets path (sys_fsync fi.fh s.world).0
        (record s { world = (sys_fsync fi.fh s.world).1 }) t apart p (h.fsync fi.fh s.world) e
