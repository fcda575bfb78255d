-- ===== src/Device.antt =====
-- The part of src/adbncfs.cpp that sets up the connection to the device and takes it down: netcat on
-- the device, the port forwarding, the temporary directory and the queries at the start.
pub mod Connected
use adbncfs.Prelude.{
  suc, Bool, true, false, not, ◌&&◌, ◌||◌, Option, none, some, List, [], ◌∷◌, ◌++◌, map, ltb, ◌==◌,
  if◌then◌else◌, length, take, Text, codes, text_eq, contains,
}
use adbncfs.Prelude.Int.{ℤ, pos, is_ok}
use adbncfs.Strings.Numbers.{stoi}
use adbncfs.Strings.Tokens.{tokenize}
use adbncfs.UserInfo.{parse_user_info}
use adbncfs.MountInfo.{mount_info}
use adbncfs.Fs.State.{
  Env, Sys, done, failed, M, Result, ok, fault, out_of_range, uncaught, pure, gets, modify,
  on_world, ◌>>=◌, ◌>>◌,
}
use adbncfs.Fs.Program.{exec_prog}

-- `iForwardPort`, in decimal
abbrev pub port : Text
port = codes "4444"

-- `androidNetCatStartCommand`
abbrev pub netcat_command : Text
netcat_command = codes "nc -ll -p " ++ port ++ codes " -e /system/xbin/bash"

-- `strForwardPort` and `strForwardArg`
abbrev pub forward_port : Text
forward_port = codes "tcp:" ++ port

abbrev pub forward_arg : Text
forward_arg = forward_port ++ codes " " ++ forward_port

-- `pcTempDirTemplate`
abbrev pub temp_dir_template : Text
temp_dir_template = codes "/tmp/adbncfs-XXXXXX"

-- `pcSdCardMountEntry`
abbrev pub sd_card_mount_entry : Text
sd_card_mount_entry =
    codes
      "sdcardfs on /storage/emulated/legacy type sdcardfs (rw,nosuid,nodev,relatime,uid=1023,gid=1023)"

-- `stoi(tokens[0])`; an exception is not caught.
unfoldable pub first_pid : List Text → Result ℤ
first_pid [] = fault out_of_range
first_pid (t ∷ ts) = elim (stoi t) [ none ↦ fault uncaught | some n ↦ ok n ]

-- The loop over the output of `ps`: the process of the first line that is not that of `grep`.
unfoldable pub netcat_pid : List Text → Result ℤ
unfolding first_pid tokenize
netcat_pid [] = ok (pos 0)
netcat_pid (line ∷ lines) =
    let rest = netcat_pid lines in
    if contains line (codes "grep") then rest else first_pid (tokenize line)

-- `isAndroidPortForwarded`, on the output of `adb forward --list`
unfoldable pub any_contains : Text → List Text → Bool
any_contains p [] = false
any_contains p (line ∷ lines) = contains line p || any_contains p lines

-- `output[output.size() - 2]`
unfoldable pub last_but_one : List Text → Option Text
last_but_one [] = none
last_but_one (a ∷ []) = none
last_but_one (a ∷ b ∷ []) = some a
last_but_one (a ∷ b ∷ c ∷ ls) = last_but_one (b ∷ c ∷ ls)

-- What `adb devices` prints for a device that is connected: a line before the last one that is not
-- the header.
unfoldable pub device_result : List Text × ℤ → ℤ
unfolding last_but_one text_eq
device_result (output, error) =
    if is_ok error && ltb 2 (length output)
    then elim (last_but_one output) [
      | none ↦ pos 1
      | some line ↦ if text_eq (take 8 line) (codes "List of ") then pos 1 else pos 0
    ]
    else pos 1

module _ (env : Env) where
  open env use {World, sys_mkdtemp, start_netcat, stop_netcat, memory}

  -- `execProg(argv)`, the lines alone
  unfoldable pub exec_lines : List Text → M World (List Text)
  unfolding exec_prog
  exec_lines argv = do run ← exec_prog env argv false (pos 0); pure run.0

  -- `androidNetcatStarted`
  unfoldable pub android_netcat_started : M World ℤ
  unfolding exec_lines netcat_pid
  android_netcat_started = do
    output ← exec_lines (
        map codes ("adb" ∷ "shell" ∷ "su" ∷ "-c" ∷ "busybox" ∷ "ps" ∷ "|" ∷ "grep" ∷ [])
        ++ netcat_command ∷ [])
    λ s. (netcat_pid output, s)

  -- `adb shell su -c busybox kill …`; the text of the number stands for itself.
  unfoldable pub kill_netcat : (ℤ → Text) → ℤ → M World (Unit {0})
  unfolding exec_lines
  kill_netcat to_string (pos (suc pid)) = do
    exec_lines (
        map codes ("adb" ∷ "shell" ∷ "su" ∷ "-c" ∷ "busybox" ∷ "kill" ∷ [])
        ++ to_string (pos (suc pid)) ∷ [])
    pure tt
  kill_netcat to_string pid = pure tt

  -- `androidKillNetCat`; the second question is only for a message.
  unfoldable pub android_kill_net_cat : (ℤ → Text) → M World (Unit {0})
  unfolding kill_netcat android_netcat_started
  android_kill_net_cat to_string = do
    pid ← android_netcat_started
    kill_netcat to_string pid
    android_netcat_started
    pure tt

  -- `androidStartNetcat`
  unfoldable pub android_start_netcat : M World ℤ
  unfolding android_netcat_started exec_lines
  android_start_netcat = do
    pid ← android_netcat_started
    (if is_ok pid
        then (do
          exec_lines (
              map codes ("adb" ∷ "shell" ∷ "su" ∷ "-c" ∷ "busybox" ∷ "nohup" ∷ [])
              ++ netcat_command ∷ map codes ("2>/dev/null" ∷ "1>/dev/null" ∷ "&" ∷ []))
          pure tt)
        else pure tt)
    started ← android_netcat_started
    pure (if is_ok started then pos 3 else pos 0)

  -- `isAndroidDeviceConnected`
  unfoldable pub is_android_device_connected : M World ℤ
  unfolding exec_prog device_result
  is_android_device_connected = do
    run ← exec_prog env (map codes ("adb" ∷ "devices" ∷ [])) false (pos 0)
    pure (device_result run)

  -- `isAndroidPortForwarded`
  unfoldable pub is_android_port_forwarded : M World Bool
  unfolding exec_lines any_contains
  is_android_port_forwarded = do
    output ← exec_lines (map codes ("adb" ∷ "forward" ∷ "--list" ∷ []))
    pure (any_contains forward_arg output)

  -- `adb forward …`, in the two branches that want it
  unfoldable pub run_if : Bool → List Text → M World (Unit {0})
  unfolding exec_lines
  run_if true argv = do exec_lines argv; pure tt
  run_if false argv = pure tt

  -- `setAndroidPortForwarding`
  unfoldable pub set_android_port_forwarding : M World ℤ
  unfolding is_android_port_forwarded run_if
  set_android_port_forwarding = do
    there ← is_android_port_forwarded
    run_if (not there) (map codes ("adb" ∷ "forward" ∷ []) ++ forward_port ∷ forward_port ∷ [])
    now ← is_android_port_forwarded
    pure (if now then pos 0 else pos 2)

  -- `removeAndroidPortForwarding`
  unfoldable pub remove_android_port_forwarding : M World Bool
  unfolding is_android_port_forwarded run_if
  remove_android_port_forwarding = do
    there ← is_android_port_forwarded
    run_if there (map codes ("adb" ∷ "forward" ∷ "--remove" ∷ []) ++ forward_port ∷ [])
    now ← is_android_port_forwarded
    pure (not now)

  -- `cleanupTempDir`
  unfoldable pub cleanup_temp_dir : M World (Unit {0})
  unfolding exec_lines
  cleanup_temp_dir = do
    dir ← gets (λ s. s.temp_dir)
    exec_lines (map codes ("rm" ∷ "-rf" ∷ []) ++ dir ∷ [])
    pure tt

  unfoldable pub keep_temp_dir : Sys Text → M World ℤ
  keep_temp_dir (done dir) = do modify (λ s. record s { temp_dir = dir ++ codes "/" }); pure (pos 0)
  keep_temp_dir (failed errno) = pure (pos errno)

  -- `makeTempDir`
  unfoldable pub make_temp_dir : M World ℤ
  unfolding keep_temp_dir
  make_temp_dir = do made ← on_world (sys_mkdtemp temp_dir_template); keep_temp_dir made

  unfoldable pub keep_user_info : List Text → M World ℤ
  unfolding parse_user_info
  keep_user_info ((c ∷ line) ∷ []) =
      if ltb 4 (length line) && c == b'u'
      then (do
        modify (λ s. record s { user_info = some (parse_user_info (memory s.world) (c ∷ line)) })
        pure (pos 0))
      else pure (pos 0)
  keep_user_info ([] ∷ []) = pure (pos 0)
  keep_user_info output = pure (pos 1)

  -- `queryUserInfo`
  unfoldable pub query_user_info : M World ℤ
  unfolding exec_lines keep_user_info
  query_user_info = do
    output ← exec_lines (map codes ("adb" ∷ "shell" ∷ "busybox id" ∷ []))
    keep_user_info output

  unfoldable pub keep_mount_info : List Text → M World ℤ
  unfolding mount_info
  keep_mount_info [] = pure (pos 1)
  keep_mount_info (line ∷ lines) = do
    modify (λ s. record s {
      mount_info = some (mount_info ((line ∷ lines) ++ sd_card_mount_entry ∷ []));
    })
    pure (pos 0)

  -- `queryMountInfo`
  unfoldable pub query_mount_info : M World ℤ
  unfolding exec_lines keep_mount_info
  query_mount_info = do
    output ← exec_lines (map codes ("adb" ∷ "shell" ∷ "busybox mount" ∷ []))
    keep_mount_info output

  -- `initNetCat`; what `Spawn` throws is not caught.
  unfoldable pub init_net_cat : M World (Unit {0})
  init_net_cat s =
      if s.net_cat
      then (ok tt, s)
      else (let (started, w) = start_netcat s.world in
          if started
          then (ok tt, record s { net_cat = true; world = w })
          else (fault uncaught, record s { world = w }))

  -- `destroyNetCat`
  unfoldable pub destroy_net_cat : M World (Unit {0})
  destroy_net_cat =
      modify
        (λ s. if s.net_cat then record s { net_cat = false; world = stop_netcat s.world } else s)
