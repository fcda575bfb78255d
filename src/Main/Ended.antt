-- ===== src/Main/Ended.antt =====
-- How `main` ends: with everything taken down, or with 0 from FUSE.
use adbncfs.Prelude.{
  zero, suc, ◌≡◌, refl, sym, ap, ◌∙◌, ◌≢◌, ◌⊎◌, inl, inr, Bool, true, false, none, List, arith,
  if◌then◌else◌, Bool-cases, Text,
}
use mathlib.Core.Path.{subst}
use adbncfs.Prelude.Int.{ℤ, pos, negsuc, is_ok}
use adbncfs.Fs.State.{Env, State, M, Result, ok, pure, ◌>>◌, when_ok}
use adbncfs.Fs.Keeps.{Keeps, keeps_rules}
use adbncfs.Fs.Program.{exec_prog}
use adbncfs.Device.{
  exec_lines, android_netcat_started, kill_netcat, android_kill_net_cat, is_android_port_forwarded,
  run_if, remove_android_port_forwarding, cleanup_temp_dir, destroy_net_cat,
}
use adbncfs.Main.{init_adbnc_fs, adbnc_destroy, main}
use adbncfs.Main.Inversion.{continue_inv, when_ok_inv}

-- The local netcat does not run.
abbrev IsStopped : {W : Type 0} → State W → Type 0
IsStopped s = s.net_cat ≡ false

-- Neither does it run, nor are the user and the mounts known.
abbrev pub IsDown : {W : Type 0} → State W → Type 0
IsDown s = IsStopped s × (s.user_info ≡ none) × (s.mount_info ≡ none)

module _ (env : Env) where
  open env use {World}

  exec_prog-Keeps : (argv : List Text) (e : Bool) (r : ℤ) → Keeps IsStopped (exec_prog env argv e r)
  unfolding exec_prog
  exec_prog-Keeps argv e r = record { at = λ s h. h }

  exec_lines-Keeps : (argv : List Text) → Keeps IsStopped (exec_lines env argv)
  unfolding exec_lines
  exec_lines-Keeps argv = search (keeps_rules, exec_prog-Keeps)

  started-Keeps : Keeps IsStopped (android_netcat_started env)
  unfolding android_netcat_started
  started-Keeps = search (keeps_rules, exec_lines-Keeps) depth 9

  kill_netcat-Keeps :
      (to_string : ℤ → Text) (pid : ℤ) → Keeps IsStopped (kill_netcat env to_string pid)
  unfolding kill_netcat
  kill_netcat-Keeps to_string (pos zero) = search keeps_rules
  kill_netcat-Keeps to_string (pos (suc n)) = search (keeps_rules, exec_lines-Keeps) depth 9
  kill_netcat-Keeps to_string (negsuc n) = search keeps_rules

  kill-Keeps : (to_string : ℤ → Text) → Keeps IsStopped (android_kill_net_cat env to_string)
  unfolding android_kill_net_cat
  kill-Keeps to_string = search (keeps_rules, started-Keeps, kill_netcat-Keeps) depth 9

  forwarded-Keeps : Keeps IsStopped (is_android_port_forwarded env)
  unfolding is_android_port_forwarded
  forwarded-Keeps = search (keeps_rules, exec_lines-Keeps) depth 9

  run_if-Keeps : (b : Bool) (argv : List Text) → Keeps IsStopped (run_if env b argv)
  unfolding run_if
  run_if-Keeps true argv = search (keeps_rules, exec_lines-Keeps) depth 9
  run_if-Keeps false argv = search keeps_rules

  remove-Keeps : Keeps IsStopped (remove_android_port_forwarding env)
  unfolding remove_android_port_forwarding
  remove-Keeps = search (keeps_rules, forwarded-Keeps, run_if-Keeps) depth 12

  cleanup-Keeps : Keeps IsStopped (cleanup_temp_dir env)
  unfolding cleanup_temp_dir
  cleanup-Keeps = search (keeps_rules, exec_lines-Keeps) depth 9

  after :
      {A : Type 0} {p : M World A} {s t : State World} {a : A}
      → Keeps IsStopped p
      → p s ≡ (ok a, t)
      → IsStopped s
      → IsStopped t
  after {A} {p} {s} k e h = subst IsStopped (ap (λ (q : Result A × State World). q.1) e) (k.at s h)

  destroy_net_cat-IsStopped : (s : State World) → IsStopped (destroy_net_cat env s).1
  unfolding destroy_net_cat
  destroy_net_cat-IsStopped s = elim (Bool-cases s.net_cat) [
    | inl e ↦ rw e refl
    | inr e ↦ rw e refl
  ]

  adbnc_destroy-IsDown :
      (to_string : ℤ → Text) (s t : State World) (a : Unit {0})
      → adbnc_destroy env to_string s ≡ (ok a, t)
      → IsDown t
  unfolding adbnc_destroy
  adbnc_destroy-IsDown to_string s t a e =
      let (a1, s1, e1, f1) = continue_inv (destroy_net_cat env s) _ t a e in
      let (a2, s2, e2, f2) = continue_inv (android_kill_net_cat env to_string s1) _ t a f1 in
      let (a3, s3, e3, f3) = continue_inv (remove_android_port_forwarding env s2) _ t a f2 in
      let (a4, s4, e4, f4) = continue_inv (cleanup_temp_dir env s3) _ t a f3 in
      let h1 =
        subst IsStopped (ap (λ (q : Result (Unit {0}) × State World). q.1) e1)
          (destroy_net_cat-IsStopped s) in
      let h4 =
        after cleanup-Keeps e4 (after remove-Keeps e3 (after (kill-Keeps to_string) e2 h1)) in
      (
        sym (ap (λ (q : Result (Unit {0}) × State World). q.1.net_cat) f4) ∙ h4,
        sym (ap (λ (q : Result (Unit {0}) × State World). q.1.user_info) f4),
        sym (ap (λ (q : Result (Unit {0}) × State World). q.1.mount_info) f4),
      )

  taken_down :
      (to_string : ℤ → Text) (r a : ℤ) (s t : State World)
      → r ≢ pos 0
      → (adbnc_destroy env to_string >> pure r) s ≡ (ok a, t)
      → (r ≡ a) × (((a ≡ pos 0) × (s ≡ t)) ⊎ ((a ≢ pos 0) × IsDown t))
  taken_down to_string r a s t n e =
      let (x, u, f, g) = continue_inv (adbnc_destroy env to_string s) (λ y. pure r) t a e in
      let same : r ≡ a = cc in
      let down =
        subst IsDown (ap (λ (q : Result ℤ × State World). q.1) g)
          (adbnc_destroy-IsDown to_string s u x f) in
      (same, inr (λ z. n (same ∙ z), down))

  -- What `main` does behind FUSE.
  ended :
      (to_string : ℤ → Text) (r a : ℤ) (s t : State World)
      → ((if is_ok r then pure tt else adbnc_destroy env to_string) >> pure r) s ≡ (ok a, t)
      → (r ≡ a) × (((a ≡ pos 0) × (s ≡ t)) ⊎ ((a ≢ pos 0) × IsDown t))
  ended to_string (pos zero) a s t e =
      let same : pos 0 ≡ a = cc in
      (same, inl (sym same, ap (λ (q : Result ℤ × State World). q.1) e))
  ended to_string (pos (suc n)) a s t e =
      let fails : is_ok (pos (suc n)) ≡ false = ground arith in
      taken_down to_string (pos (suc n)) a s t (λ z. cc)
        (subst
          (λ b.
            ((if b then pure tt else adbnc_destroy env to_string) >> pure (pos (suc n))) s
            ≡ (ok a, t))
          fails e)
  ended to_string (negsuc n) a s t e = taken_down to_string (negsuc n) a s t (λ z. cc) e

  -- If main returns, it returns 0 only if the start (or the test of the options, if they only ask for
  -- a text) and then FUSE returned 0, and it does nothing behind them; with any other result the local
  -- netcat does not run and the user and the mounts are no longer known.
  pub main-ends :
      (to_string : ℤ → Text) (fuse_main : List Text → M World ℤ) (args : List Text) (a : ℤ)
      (s t : State World)
      → main env to_string fuse_main args s ≡ (ok a, t)
      → ((a ≡ pos 0)
          × (u : State World) × (init_adbnc_fs env args s ≡ (ok (pos 0), u))
          × (fuse_main args u ≡ (ok (pos 0), t)))
        ⊎ ((a ≢ pos 0) × IsDown t)
  unfolding main
  main-ends to_string fuse_main args a s t e =
      let (r, u, e1, f1) = continue_inv (init_adbnc_fs env args s) _ t a e in
      let (q, v, e2, f2) = continue_inv (when_ok r (fuse_main args) u) _ t a f1 in
      let (same, how) = ended to_string q a v t f2 in
      elim how [
        | inr h ↦ inr h
        | inl (z, state) ↦
            let served : when_ok r (fuse_main args) u ≡ (ok (pos 0), v) =
              e2 ∙ ap (λ x. (ok x, v)) (same ∙ z) in
            let (ready, done) = when_ok_inv r (fuse_main args) u v served in
            inl (z, u, e1 ∙ ap (λ x. (ok x, u)) ready, done ∙ ap (λ x. (ok (pos 0), x)) state)
      ]
