-- ===== src/Session/Calls.antt =====
-- What the callbacks on files are made from, in a session: `adbnc_access`, a push or a pull, and calls
-- of the host.
use adbncfs.Prelude.{ℕ, ◌≡◌, refl, Bool, true, false, Option, List, if◌then◌else◌, Text}
use adbncfs.Prelude.Int.{ℤ, pos}
use adbncfs.Path.{parent}
use adbncfs.MountInfo.{MountInfo}
use adbncfs.UserInfo.{UserInfo}
use adbncfs.Fs.State.{Env, ok}
use adbncfs.Fs.Shell.{adbnc_shell}
use adbncfs.Fs.Shell.Framing.{IsMarking}
use adbncfs.Fs.Program.{exec_prog}
use adbncfs.Fs.Stat.{stat_result, do_stat}
use adbncfs.Fs.Access.{adbnc_access, access_result, w_ok, r_ok}
use adbncfs.Fs.Transfer.{push_pull_argv, adbnc_push_pull_cmd, adbnc_push, adbnc_pull}
use adbncfs.Fs.Files.{local_path}
use adbncfs.Session.Sound.{PrintedStat}
use adbncfs.Session.Ensures.{
  Ensures, Serves, Ensures-pure, Ensures-if, Ensures-bind, Ensures-implies, Ensures-reply,
  Serves-when_ok, Ensures-on_world, Ensures-gets, Serves-bind, serves_rules,
}
use adbncfs.Session.Kept.{
  adbnc_shell-Printed, do_stat-PrintedStat, do_stat_exists-Serves, link_output-PrintedLink,
  cache_invalidate-Serves, set_status-Serves, exec_prog-Serves,
}
use adbncfs.Session.Faultless.{IsPath, parent-IsPath, access_path-Returns}

module _ (env : Env) (command : Text → env.World → List Text × env.World) (first : env.World)
    (u : Option UserInfo) (m : Option MountInfo) (marks : IsMarking env command) where
  open env use {World}

  abbrev pub Grants : Text → ℕ → ℤ → Type 0
  Grants path mask r =
      (output : List Text) × PrintedStat env command first path output
      × (access_result u m path mask (stat_result output) ≡ ok r)

  pub adbnc_access-Grants :
      (path : Text) (mask : ℕ)
      → IsPath path
      → Ensures env command first u m (Grants path mask) (adbnc_access env path mask)
  unfolding adbnc_access
  adbnc_access-Grants path mask p =
      Ensures-bind env command first u m (do_stat env path) _
        (do_stat-PrintedStat env command first u m marks path)
        λ found (output, q, e).
          let (r, f) = access_path-Returns u m path mask output p in
          record {
            at = λ s h. (r, s, rw (← e, h.same_user, h.same_mounts, f) refl, h, (output, q, f));
          }

  wanted :
      (push : Bool) (remote : Text)
      → IsPath remote
      → IsPath (if push then parent remote else remote)
  wanted true remote p = parent-IsPath remote p
  wanted false remote p = p

  push_pull-Serves :
      (push : Bool) (local remote : Text)
      → IsPath remote
      → Serves env command first u m (adbnc_push_pull_cmd env push local remote)
  unfolding adbnc_push_pull_cmd
  push_pull-Serves push local remote p =
      Ensures-bind env command first u m
        (adbnc_access env (if push then parent remote else remote) (if push then w_ok else r_ok)) _
        (adbnc_access-Grants _ _ (wanted push remote p))
        λ r q. Serves-when_ok env command first u m r _ (
          Ensures-reply env command first u m
            (exec_prog env (push_pull_argv push local remote) true (pos 0)) _
            (exec_prog-Serves env command first u m (push_pull_argv push local remote) true (pos 0))
            (λ a t. tt))

  pub adbnc_push-Serves :
      (local remote : Text)
      → IsPath remote
      → Serves env command first u m (adbnc_push env local remote)
  unfolding adbnc_push
  adbnc_push-Serves local remote p = push_pull-Serves true local remote p

  pub adbnc_pull-Serves :
      (remote local : Text)
      → IsPath remote
      → Serves env command first u m (adbnc_pull env remote local)
  unfolding adbnc_pull
  adbnc_pull-Serves remote local p = push_pull-Serves false local remote p

  pub local_path-Serves : (path : Text) → Serves env command first u m (local_path path)
  local_path-Serves path = Ensures-gets env command first u m _ (λ s h. tt)

  pub shell-Serves : (c : Text) → Serves env command first u m (adbnc_shell env c)
  shell-Serves c =
      Ensures-implies env command first u m _ (adbnc_shell-Printed env command first u m marks c)
        (λ a q. tt)

pub ruleset call_rules = (
  serves_rules, shell-Serves, cache_invalidate-Serves, set_status-Serves, exec_prog-Serves,
  do_stat_exists-Serves, adbnc_push-Serves, adbnc_pull-Serves, local_path-Serves,
)
