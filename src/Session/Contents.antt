-- ===== src/Session/Contents.antt =====
-- What a push and a pull do to the contents of files, on the host and on the device.
use adbncfs.Prelude.{
  [], ◌∷◌, ℕ, ◌≡◌, refl, sym, ap, ◌∙◌, inl, inr, Bool, true, false, List, ◌++◌, if◌then◌else◌,
  Option, none, some, Option-cases, Text, codes,
}
use mathlib.Core.Path.{subst}
use Prim.Native.Nat.{bit_and}
use adbncfs.Prelude.Int.{ℤ, pos}
use adbncfs.Path.{parent}
use adbncfs.FileCache.{FileCache, get_stat}
use adbncfs.Fs.State.{Env, State, Result, ok}
use adbncfs.Fs.Shell.{request, adbnc_shell, exec_command_via_net_cat}
use adbncfs.Fs.Program.{exec_prog}
use adbncfs.Fs.Stat.{quoted, fetch_stat, stat_output, do_stat, do_stat_exists}
use adbncfs.Fs.Access.{adbnc_access, w_ok, r_ok}
use adbncfs.Fs.Transfer.{push_pull_argv, adbnc_push_pull_cmd, adbnc_push, adbnc_pull}
use adbncfs.Main.Inversion.{then_inv}
use adbncfs.Fs.Keeps.{Keeps, keeps_rules}

-- The question for the attributes of a path, as it is written to netcat.
abbrev pub stat_request : Text → Text
stat_request path = request (codes "busybox " ++ (codes "stat -t " ++ quoted path))

-- `adb push` and `adb pull`, as the manual of adb gives their arguments.
abbrev pub adb_push : Text → Text → List Text
adb_push local remote = codes "adb" ∷ codes "push" ∷ local ∷ remote ∷ []

abbrev pub adb_pull : Text → Text → List Text
adb_pull remote local = codes "adb" ∷ codes "pull" ∷ remote ∷ local ∷ []

-- O_TRUNC
abbrev pub o_trunc : ℕ
o_trunc = 512

-- A program that was started, and exited with the status 0.
abbrev pub ExitsZero : Option (List Text × ℕ) → Type 0
ExitsZero none = ⊥
ExitsZero (some (lines, status)) = status ≡ 0

-- The contents of the files, and what changes them: `adb` that exits with 0 has copied the file; a
-- question for attributes, `fsync`, and an `open` that does not truncate change no file.
pub record Storage (env : Env) : Type 0 where
  pub host : env.World → Text → List ℕ
  pub device : env.World → Text → List ℕ
  pub stat_host :
      (path p : Text) (w : env.World) → host (env.shell (stat_request path) w).1 p ≡ host w p
  pub stat_device :
      (path p : Text) (w : env.World) → device (env.shell (stat_request path) w).1 p ≡ device w p
  pub sync_host : (fd : ℤ) (p : Text) (w : env.World) → host (env.sys_fsync fd w).1 p ≡ host w p
  pub open_host :
      (flags : ℕ) (local p : Text) (w : env.World)
      → bit_and flags o_trunc ≡ 0
      → host (env.sys_open local flags w).1 p ≡ host w p
  pub push_device :
      (local remote : Text) (w : env.World)
      → ExitsZero (env.spawn (adb_push local remote) true w).0
      → device (env.spawn (adb_push local remote) true w).1 remote ≡ host w local
  pub pull_host :
      (local remote : Text) (w : env.World)
      → ExitsZero (env.spawn (adb_pull remote local) true w).0
      → host (env.spawn (adb_pull remote local) true w).1 local ≡ device w remote

module _ (env : Env) where
  open env use {World, shell, spawn}

  -- What asking for attributes keeps.
  module _ (P : State World → Type 0)
      (kept : (path : Text) (s : State World) (lines : List Text) (cache : FileCache)
        → P s
        → P (record s {
          incoming = lines;
          file_cache = cache;
          world = (shell (stat_request path) s.world).1;
        })) where
    fetch_stat-Keeps : (path : Text) → Keeps P (fetch_stat env path)
    unfolding fetch_stat adbnc_shell exec_command_via_net_cat
    fetch_stat-Keeps path = record { at = λ s h. kept path s _ _ h }

    stat_output-Keeps : (path : Text) → Keeps P (stat_output env path)
    unfolding stat_output
    stat_output-Keeps path = record {
      at = λ s h. elim (Option-cases (get_stat (env.time s.world) s.file_cache path)) [
        | inr (out, e) ↦ rw (e, stat_output) h
        | inl e ↦ rw (e, stat_output) ((fetch_stat-Keeps path).at s h)
      ];
    }

    pub exists-Keeps : (path : Text) → Keeps P (do_stat_exists env path)
    unfolding do_stat_exists
    exists-Keeps path = search (keeps_rules, stat_output-Keeps)

    pub access-Keeps : (path : Text) (mask : ℕ) → Keeps P (adbnc_access env path mask)
    unfolding adbnc_access do_stat
    access-Keeps path mask = search (keeps_rules, stat_output-Keeps)

  -- A push or a pull that returns 0 was allowed, and its world is the one behind the run of `adb`.
  copied :
      (push : Bool) (local remote : Text) (s t : State World)
      → adbnc_push_pull_cmd env push local remote s ≡ (ok (pos 0), t)
      → (u : State World) × (adbnc_access env
            (if push then parent remote else remote)
            (if push then w_ok else r_ok)
            s
          ≡ (ok (pos 0), u))
        × (t.world ≡ (spawn (push_pull_argv push local remote) true u.world).1)
  unfolding adbnc_push_pull_cmd exec_prog
  copied push local remote s t e =
      let (u, f, g) =
        then_inv
          (adbnc_access env (if push then parent remote else remote) (if push then w_ok else r_ok))
          _ s t e in
      (u, f, sym (ap (λ (q : Result ℤ × State World). q.1.world) g))

  module _ (files : Storage env) where
    open files use {host, device, stat_host, stat_device, push_device, pull_host}

    pub adbnc_push-copies :
        (local remote : Text) (s t : State World)
        → ((w : World) → ExitsZero (spawn (adb_push local remote) true w).0)
        → adbnc_push env local remote s ≡ (ok (pos 0), t)
        → device t.world remote ≡ host s.world local
    unfolding adbnc_push
    adbnc_push-copies local remote s t exits e =
        let (u, f, g) = copied true local remote s t e in
        let same : host u.world local ≡ host s.world local =
          subst (λ (v : State World). host v.world local ≡ host s.world local)
            (ap (λ (q : Result ℤ × State World). q.1) f)
            ((access-Keeps (λ v. host v.world local ≡ host s.world local)
                (λ path v lines cache h. stat_host path local v.world ∙ h) (parent remote) w_ok).at
              s refl) in
        ap (λ w. device w remote) g ∙ push_device local remote u.world (exits u.world) ∙ same

    pub adbnc_pull-copies :
        (remote local : Text) (s t : State World)
        → ((w : World) → ExitsZero (spawn (adb_pull remote local) true w).0)
        → adbnc_pull env remote local s ≡ (ok (pos 0), t)
        → host t.world local ≡ device s.world remote
    unfolding adbnc_pull
    adbnc_pull-copies remote local s t exits e =
        let (u, f, g) = copied false local remote s t e in
        let same : device u.world remote ≡ device s.world remote =
          subst (λ (v : State World). device v.world remote ≡ device s.world remote)
            (ap (λ (q : Result ℤ × State World). q.1) f)
            ((access-Keeps (λ v. device v.world remote ≡ device s.world remote)
                (λ path v lines cache h. stat_device path remote v.world ∙ h) remote r_ok).at
              s refl) in
        ap (λ w. host w local) g ∙ pull_host local remote u.world (exits u.world) ∙ same
