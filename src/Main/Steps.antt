-- ===== src/Main/Steps.antt =====
-- What the programs printed for the steps of the start that returned 0.
use adbncfs.Prelude.{
  ℕ, zero, suc, ◌<◌, ◌≢◌, ◌≡◌, refl, sym, ap, ◌∙◌, ◌⊎◌, inl, inr, true, false, Bool-cases,
  Option-cases, not, length, text_eq_iff, some, List, [], ◌∷◌, ◌++◌, arith, map, if◌then◌else◌,
  take, Text, codes, contains,
}
use adbncfs.Prelude.Int.{ℤ, pos, negsuc, is_ok}
use adbncfs.Fs.State.{Env, Sys, done, failed, State, M, Result, ok, pure, ◌>>=◌, ◌>>◌}
use adbncfs.Fs.Program.{exec_prog}
use adbncfs.Device.{
  netcat_command, forward_port, forward_arg, temp_dir_template, netcat_pid, any_contains,
  last_but_one, device_result, exec_lines, android_netcat_started, android_start_netcat,
  is_android_device_connected, is_android_port_forwarded, run_if, set_android_port_forwarding,
  keep_temp_dir, make_temp_dir, query_user_info, keep_user_info,
}
use adbncfs.Main.Inversion.{continue_inv, pure_inv}

-- `adb devices` tells of a device: it prints more than two lines, and the line before the last one is
-- not the header.
abbrev pub TellsDevice : List Text → Type 0
TellsDevice lines =
    (2 < length lines)
    × ((line : Text) × (last_but_one lines ≡ some line) × (take 8 line ≢ codes "List of "))

-- One of the lines holds the text.
abbrev pub Tells : Text → List Text → Type 0
Tells p [] = ⊥
Tells p (line ∷ lines) = (contains line p ≡ true) ⊎ Tells p lines

-- `ps` tells of a netcat: its line has a process number, which is not 0.
abbrev pub TellsNetcat : List Text → Type 0
TellsNetcat lines = (pid : ℤ) × (netcat_pid lines ≡ ok pid) × (pid ≢ pos 0)

-- The programs that the steps run, with their arguments.
abbrev pub devices_argv : List Text
devices_argv = map codes ("adb" ∷ "devices" ∷ [])

abbrev pub forward_list_argv : List Text
forward_list_argv = map codes ("adb" ∷ "forward" ∷ "--list" ∷ [])

abbrev pub ps_argv : List Text
ps_argv =
    map codes ("adb" ∷ "shell" ∷ "su" ∷ "-c" ∷ "busybox" ∷ "ps" ∷ "|" ∷ "grep" ∷ [])
    ++ netcat_command ∷ []

abbrev pub id_argv : List Text
id_argv = map codes ("adb" ∷ "shell" ∷ "busybox id" ∷ [])

abbrev pub mount_argv : List Text
mount_argv = map codes ("adb" ∷ "shell" ∷ "busybox mount" ∷ [])

is_ok_zero : (r : ℤ) → is_ok r ≡ true → r ≡ pos 0
is_ok_zero (pos zero) e = refl
is_ok_zero (pos (suc n)) e = absurd (ground (arith, e))
is_ok_zero (negsuc n) e = absurd (cc)

device_result-zero :
    (lines : List Text) (error : ℤ)
    → device_result (lines, error) ≡ pos 0
    → (error ≡ pos 0) × TellsDevice lines
unfolding device_result
device_result-zero lines error e = elim (Option-cases (last_but_one lines)) [
  | inl none' ↦ absurd (ground (arith, e, none'))
  | inr (line, some') ↦ (
    is_ok_zero error (ground (arith, e)),
    (
      ground (arith, e),
      (
        line,
        some',
        λ h. absurd (ground (arith, e, some', (text_eq_iff (take 8 line) (codes "List of ")).1 h)),
      ),
    ),
  )
]

started_pid : (pid : ℤ) → (if is_ok pid then pos 3 else pos 0) ≡ pos 0 → pid ≢ pos 0
started_pid pid e z = absurd (ground (arith, ap is_ok z, e))

any_contains-Tells : (p : Text) (lines : List Text) → any_contains p lines ≡ true → Tells p lines
unfolding any_contains
any_contains-Tells p [] e = absurd (cc)
any_contains-Tells p (line ∷ lines) e = elim (Bool-cases (contains line p)) [
  | inl yes' ↦ inl yes'
  | inr no' ↦ inr (any_contains-Tells p lines (ground (arith, e, no')))
]

module _ (env : Env) where
  open env use {World, sys_mkdtemp}

  pub device-TellsDevice :
      (s t : State World)
      → is_android_device_connected env s ≡ (ok (pos 0), t)
      → (lines : List Text) × (exec_prog env devices_argv false (pos 0) s ≡ (ok (lines, pos 0), t))
        × TellsDevice lines
  unfolding is_android_device_connected
  device-TellsDevice s t e =
      let (run, u, f, g) =
        continue_inv (exec_prog env devices_argv false (pos 0) s) (λ r. pure (device_result r)) t
          (pos 0) e in
      let (value, same) = pure_inv (device_result run) (pos 0) u t g in
      let (zero', there) = device_result-zero run.0 run.1 value in
      (run.0, f ∙ ap (λ x. (ok (run.0, x), u)) zero' ∙ ap (λ y. (ok (run.0, pos 0), y)) same, there)

  -- What a program printed, behind which something is read from it.
  read_inv :
      {B : Type 0} (argv : List Text) (f : List Text → B) (b : B) (s t : State World)
      → (exec_lines env argv >>= λ lines. pure (f lines)) s ≡ (ok b, t)
      → (lines : List Text) × (exec_lines env argv s ≡ (ok lines, t)) × (f lines ≡ b)
  read_inv argv f b s t e =
      let (lines, u, g, h) = continue_inv (exec_lines env argv s) (λ l. pure (f l)) t b e in
      let (value, same) = pure_inv (f lines) b u t h in
      (lines, g ∙ ap (λ y. (ok lines, y)) same, value)

  pub forward-Tells :
      (s t : State World)
      → set_android_port_forwarding env s ≡ (ok (pos 0), t)
      → (u : State World) × (lines : List Text) × (exec_lines env forward_list_argv u
          ≡ (ok lines, t))
        × Tells forward_arg lines
  unfolding set_android_port_forwarding is_android_port_forwarded
  forward-Tells s t e =
      let asked : M World ℤ =
        is_android_port_forwarded env >>= λ now. pure (if now then pos 0 else pos 2) in
      let argv = map codes ("adb" ∷ "forward" ∷ []) ++ forward_port ∷ forward_port ∷ [] in
      let (there, u1, f1, g1) =
        continue_inv (is_android_port_forwarded env s) (λ b. run_if env (not b) argv >> asked) t
          (pos 0) e in
      let (a, u2, f2, g2) =
        continue_inv (run_if env (not there) argv u1) (λ x. asked) t (pos 0) g1 in
      let (now, u3, f3, g3) =
        continue_inv (is_android_port_forwarded env u2) (λ b. pure (if b then pos 0 else pos 2)) t
          (pos 0) g2 in
      let (value, same) = pure_inv (if now then pos 0 else pos 2) (pos 0) u3 t g3 in
      let (lines, printed, found) =
        read_inv forward_list_argv (any_contains forward_arg) now u2 u3 f3 in
      let yes' : now ≡ true = ground (arith, value) in
      (
        u2,
        lines,
        printed ∙ ap (λ y. (ok lines, y)) same,
        any_contains-Tells forward_arg lines (found ∙ yes'),
      )

  pub netcat-TellsNetcat :
      (s t : State World)
      → android_start_netcat env s ≡ (ok (pos 0), t)
      → (u : State World) × (lines : List Text) × (exec_lines env ps_argv u ≡ (ok lines, t))
        × TellsNetcat lines
  unfolding android_start_netcat android_netcat_started
  netcat-TellsNetcat s t e =
      let asked : M World ℤ =
        android_netcat_started env >>= λ x. pure (if is_ok x then pos 3 else pos 0) in
      let argv =
        map codes ("adb" ∷ "shell" ∷ "su" ∷ "-c" ∷ "busybox" ∷ "nohup" ∷ [])
        ++ netcat_command ∷ map codes ("2>/dev/null" ∷ "1>/dev/null" ∷ "&" ∷ []) in
      let start : ℤ → M World (Unit {0}) =
        λ x. if is_ok x then exec_lines env argv >> pure tt else pure tt in
      let (before, u1, f1, g1) =
        continue_inv (android_netcat_started env s) (λ x. start x >> asked) t (pos 0) e in
      let (a, u2, f2, g2) = continue_inv (start before u1) (λ x. asked) t (pos 0) g1 in
      let (pid, u3, f3, g3) =
        continue_inv (android_netcat_started env u2) (λ x. pure (if is_ok x then pos 3 else pos 0))
          t (pos 0) g2 in
      let (value, same) = pure_inv (if is_ok pid then pos 3 else pos 0) (pos 0) u3 t g3 in
      let (lines, u4, f4, g4) =
        continue_inv (exec_lines env ps_argv u2) (λ l x. (netcat_pid l, x)) u3 pid f3 in
      let same' : u4 ≡ t = ap (λ (p : Result ℤ × State World). p.1) g4 ∙ same in
      (
        u2,
        lines,
        f4 ∙ ap (λ y. (ok lines, y)) same',
        (pid, ap (λ (p : Result ℤ × State World). p.0) g4, started_pid pid value),
      )

  user_printed :
      (lines : List Text) (s t : State World)
      → keep_user_info env lines s ≡ (ok (pos 0), t)
      → (line : Text) × (lines ≡ line ∷ [])
  unfolding keep_user_info
  user_printed [] s t e = absurd (cc)
  user_printed (line ∷ []) s t e = (line, refl)
  user_printed ([] ∷ line2 ∷ lines) s t e = absurd (cc)
  user_printed ((c ∷ line) ∷ line2 ∷ lines) s t e = absurd (cc)

  pub user_asked :
      (s t : State World)
      → query_user_info env s ≡ (ok (pos 0), t)
      → (u : State World) × (line : Text) × (exec_lines env id_argv s ≡ (ok (line ∷ []), u))
  unfolding query_user_info
  user_asked s t e =
      let (lines, u, f, g) =
        continue_inv (exec_lines env id_argv s) (keep_user_info env) t (pos 0) e in
      let (line, one) = user_printed lines u t g in (u, line, f ∙ ap (λ l. (ok l, u)) one)

  temp_dir_kept :
      (r : Sys Text) (s t : State World)
      → ((e : ℕ) → r ≡ failed e → e ≢ 0)
      → keep_temp_dir env r s ≡ (ok (pos 0), t)
      → (dir : Text) × (r ≡ done dir) × (t.temp_dir ≡ dir ++ codes "/")
  unfolding keep_temp_dir
  temp_dir_kept (done dir) s t h e =
      (dir, refl, sym (ap (λ (p : Result ℤ × State World). p.1.temp_dir) e))
  temp_dir_kept (failed zero) s t h e = absurd (h 0 refl refl)
  temp_dir_kept (failed (suc n)) s t h e = absurd (cc)

  pub temp_dir_made :
      (s t : State World)
      → ((e : ℕ) → (sys_mkdtemp temp_dir_template s.world).0 ≡ failed e → e ≢ 0)
      → make_temp_dir env s ≡ (ok (pos 0), t)
      → (dir : Text) × ((sys_mkdtemp temp_dir_template s.world).0 ≡ done dir)
        × (t.temp_dir ≡ dir ++ codes "/")
  unfolding make_temp_dir
  temp_dir_made s t h e =
      let (made, w) = sys_mkdtemp temp_dir_template s.world in
      temp_dir_kept made (record s { world = w }) t h e
