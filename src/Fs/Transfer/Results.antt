-- ===== src/Fs/Transfer/Results.antt =====
-- What `adbncPush` takes for a success.
use adbncfs.Prelude.{zero, suc, ◌≡◌, refl, ap, ◌∙◌, ◌↔◌, true, List, Text}
use adbncfs.Prelude.Int.{ℤ, pos, negsuc}
use adbncfs.Path.{parent}
use adbncfs.Fs.State.{Env, State, M, Result, ok, fault, continue, pure, ◌>>=◌, when_ok}
use adbncfs.Fs.Access.{adbnc_access, w_ok}
use adbncfs.Fs.Program.{prog_result, exec_prog}
use adbncfs.Fs.Program.Errors.{IsClean, prog_result-zero_iff}
use adbncfs.Fs.Transfer.{push_pull_argv, adbnc_push_pull_cmd, adbnc_push}

module _ (env : Env) where
  open env use {World, spawn}

  -- `adb` with these arguments, and what it makes of the result.
  run_adb : List Text → M World ℤ
  run_adb argv = exec_prog env argv true (pos 0) >>= λ run. pure run.1

  abbrev Allowed : List Text → Result ℤ × State World → Type 0
  Allowed argv p = (t : State World) × (p ≡ (ok (pos 0), t)) × IsClean (spawn argv true t.world).0

  Allowed-zero :
      (argv : List Text) (p : Result ℤ × State World)
      → (continue p.0 (λ a. when_ok a (run_adb argv)) p.1).0 ≡ ok (pos 0)
      → Allowed argv p
  unfolding run_adb exec_prog
  Allowed-zero argv (ok (pos zero), t) e =
      let z : (prog_result true (pos 0) (spawn argv true t.world).0).1 ≡ pos 0 = cc in
      (t, refl, (prog_result-zero_iff (spawn argv true t.world).0).0 z)
  Allowed-zero argv (ok (pos (suc n)), t) e = absurd (cc)
  Allowed-zero argv (ok (negsuc n), t) e = absurd (cc)
  Allowed-zero argv (fault x, t) e = absurd (cc)

  zero-Allowed :
      (argv : List Text) (p : Result ℤ × State World)
      → Allowed argv p
      → (continue p.0 (λ a. when_ok a (run_adb argv)) p.1).0 ≡ ok (pos 0)
  unfolding run_adb exec_prog
  zero-Allowed argv p (t, e, h) =
      let z = (prog_result-zero_iff (spawn argv true t.world).0).1 h in
      ap (λ q. (continue q.0 (λ a. when_ok a (run_adb argv)) q.1).0) e ∙ ap ok z

  -- adbncPush returns 0 exactly if the user may write to the parent directory on the device, and then
  -- adb push was started, printed no line with ": Permission denied" or "does not exist" to stderr,
  -- and did not exit with status 2.
  pub adbnc_push-zero_iff :
      (local remote : Text) (s : State World)
      → ((adbnc_push env local remote s).0 ≡ ok (pos 0)) ↔ (
          (t : State World) × (adbnc_access env (parent remote) w_ok s ≡ (ok (pos 0), t))
          × IsClean (spawn (push_pull_argv true local remote) true t.world).0)
  unfolding adbnc_push adbnc_push_pull_cmd run_adb
  adbnc_push-zero_iff local remote s = (
    Allowed-zero (push_pull_argv true local remote) (adbnc_access env (parent remote) w_ok s),
    zero-Allowed (push_pull_argv true local remote) (adbnc_access env (parent remote) w_ok s),
  )
