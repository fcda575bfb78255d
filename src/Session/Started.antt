-- ===== src/Session/Started.antt =====
-- The start of the program leaves the cache, the open directories and the lines from netcat empty.
use adbncfs.Prelude.{
  ◌≡◌, ap, inl, inr, Bool, true, false, ◌&&◌, some, List, [], ◌∷◌, ltb, ◌==◌, Bool-cases, length,
  Text,
}
use mathlib.Core.Path.{subst}
use adbncfs.Prelude.Int.{ℤ, pos}
use adbncfs.UserInfo.{UserInfo, parse_user_info}
use adbncfs.Fs.State.{Env, Sys, done, failed, State, Result, ok, modify}
use adbncfs.Fs.Program.{exec_prog}
use adbncfs.Device.{
  exec_lines, android_netcat_started, android_start_netcat, is_android_device_connected,
  is_android_port_forwarded, run_if, set_android_port_forwarding, keep_temp_dir, make_temp_dir,
  keep_user_info, query_user_info, keep_mount_info, query_mount_info, init_net_cat,
}
use adbncfs.Main.{set_up}
use adbncfs.Fs.Keeps.{Keeps, Keeps-pure, Keeps-bind, Keeps-if, keeps_rules}

-- As the static variables are when the program begins.
pub record IsFresh {W : Type 0} (s : State W) : Type 0 where
  pub cache : s.file_cache ≡ []
  pub dirs : s.open_dirs ≡ []
  pub lines : s.incoming ≡ []

world-IsFresh : {W : Type 0} (s : State W) (w : W) → IsFresh s → IsFresh (record s { world = w })
world-IsFresh s w h = record { cache = h.cache; dirs = h.dirs; lines = h.lines }

module _ (env : Env) where
  open env use {World}

  exec_prog-Keeps : (argv : List Text) (e : Bool) (r : ℤ) → Keeps IsFresh (exec_prog env argv e r)
  unfolding exec_prog
  exec_prog-Keeps argv e r = record {
    at = λ s h. record { cache = h.cache; dirs = h.dirs; lines = h.lines };
  }

  exec_lines-Keeps : (argv : List Text) → Keeps IsFresh (exec_lines env argv)
  unfolding exec_lines
  exec_lines-Keeps argv = search (keeps_rules, exec_prog-Keeps)

  keep_temp_dir-Keeps : (r : Sys Text) → Keeps IsFresh (keep_temp_dir env r)
  unfolding keep_temp_dir
  keep_temp_dir-Keeps (done dir) = record {
    at = λ s h. record { cache = h.cache; dirs = h.dirs; lines = h.lines };
  }
  keep_temp_dir-Keeps (failed errno) = Keeps-pure (pos errno)

  make_temp_dir-Keeps : Keeps IsFresh (make_temp_dir env)
  unfolding make_temp_dir
  make_temp_dir-Keeps = search (keeps_rules, world-IsFresh, keep_temp_dir-Keeps)

  set_user-Keeps :
      (v : World → UserInfo)
      → Keeps IsFresh (modify {W = World} (λ s. record s { user_info = some (v s.world) }))
  set_user-Keeps v = record {
    at = λ s h. record { cache = h.cache; dirs = h.dirs; lines = h.lines };
  }

  keep_user_info-Keeps : (output : List Text) → Keeps IsFresh (keep_user_info env output)
  unfolding keep_user_info
  keep_user_info-Keeps [] = Keeps-pure (pos 1)
  keep_user_info-Keeps ([] ∷ []) = Keeps-pure (pos 0)
  keep_user_info-Keeps ([] ∷ next ∷ lines) = Keeps-pure (pos 1)
  keep_user_info-Keeps ((c ∷ line) ∷ []) =
      Keeps-if (ltb 4 (length line) && c == b'u') _ _
        (Keeps-bind _ _ (set_user-Keeps (λ w. parse_user_info (env.memory w) (c ∷ line)))
          (λ a. Keeps-pure (pos 0)))
        (Keeps-pure (pos 0))
  keep_user_info-Keeps ((c ∷ line) ∷ next ∷ lines) = Keeps-pure (pos 1)

  keep_mount_info-Keeps : (output : List Text) → Keeps IsFresh (keep_mount_info env output)
  unfolding keep_mount_info
  keep_mount_info-Keeps [] = Keeps-pure (pos 1)
  keep_mount_info-Keeps (line ∷ lines) = record {
    at = λ s h. record { cache = h.cache; dirs = h.dirs; lines = h.lines };
  }

  ruleset exec_rules = (keeps_rules, world-IsFresh, exec_prog-Keeps, exec_lines-Keeps)

  connected-Keeps : Keeps IsFresh (is_android_device_connected env)
  unfolding is_android_device_connected
  connected-Keeps = search exec_rules depth 9

  started-Keeps : Keeps IsFresh (android_netcat_started env)
  unfolding android_netcat_started
  started-Keeps = search exec_rules depth 9

  start_netcat-Keeps : Keeps IsFresh (android_start_netcat env)
  unfolding android_start_netcat
  start_netcat-Keeps = search (exec_rules, started-Keeps) depth 12

  forwarded-Keeps : Keeps IsFresh (is_android_port_forwarded env)
  unfolding is_android_port_forwarded
  forwarded-Keeps = search exec_rules depth 9

  run_if-Keeps : (b : Bool) (argv : List Text) → Keeps IsFresh (run_if env b argv)
  unfolding run_if
  run_if-Keeps true argv = search exec_rules depth 9
  run_if-Keeps false argv = search exec_rules depth 9

  forwarding-Keeps : Keeps IsFresh (set_android_port_forwarding env)
  unfolding set_android_port_forwarding
  forwarding-Keeps = search (exec_rules, forwarded-Keeps, run_if-Keeps) depth 12

  query_user_info-Keeps : Keeps IsFresh (query_user_info env)
  unfolding query_user_info
  query_user_info-Keeps = search (exec_rules, keep_user_info-Keeps) depth 9

  query_mount_info-Keeps : Keeps IsFresh (query_mount_info env)
  unfolding query_mount_info
  query_mount_info-Keeps = search (exec_rules, keep_mount_info-Keeps) depth 9

  init_net_cat-Keeps : Keeps IsFresh (init_net_cat env)
  unfolding init_net_cat
  init_net_cat-Keeps = record {
    at = λ s h. elim (Bool-cases s.net_cat) [
      | inl e ↦ rw e record { cache = h.cache; dirs = h.dirs; lines = h.lines }
      | inr e ↦ elim (Bool-cases (env.start_netcat s.world).0) [
        | inl f ↦ rw (e, f) record { cache = h.cache; dirs = h.dirs; lines = h.lines }
        | inr f ↦ rw (e, f) record { cache = h.cache; dirs = h.dirs; lines = h.lines }
      ]
    ];
  }

  set_up-Keeps : Keeps IsFresh (set_up env)
  unfolding set_up
  set_up-Keeps =
      search
        (
          exec_rules, make_temp_dir-Keeps, connected-Keeps, start_netcat-Keeps, forwarding-Keeps,
          query_user_info-Keeps, query_mount_info-Keeps, init_net_cat-Keeps,
        )
        depth 30

  -- What starts empty is empty when the start of the program has returned.
  pub set_up-IsFresh :
      (s t : State World) (r : ℤ) → IsFresh s → set_up env s ≡ (ok r, t) → IsFresh t
  set_up-IsFresh s t r h e =
      subst IsFresh (ap (λ (p : Result ℤ × State World). p.1) e) (set_up-Keeps.at s h)
