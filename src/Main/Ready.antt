-- ===== src/Main/Ready.antt =====
-- What the start of the program has set up when it returns 0.
use adbncfs.Prelude.{◌≡◌, true, false, some, List, [], ◌∷◌, ◌++◌, Text, codes}
use adbncfs.Prelude.Int.{pos}
use adbncfs.Fs.State.{Env, done, State, ok}
use adbncfs.Fs.Program.{exec_prog}
use adbncfs.Device.{
  forward_arg, temp_dir_template, sd_card_mount_entry, make_temp_dir, set_android_port_forwarding,
  android_start_netcat, query_user_info, exec_lines,
}
use adbncfs.MountInfo.{mount_info}
use adbncfs.Main.Steps.{
  TellsDevice, Tells, TellsNetcat, devices_argv, forward_list_argv, ps_argv, id_argv, mount_argv,
}

module _ (env : Env) where
  open env use {World, sys_mkdtemp}

  -- The local netcat runs, and the table of mounts is that of what `busybox mount` printed when it
  -- was asked in a state, and of the line for the SD card.
  abbrev pub Mounted : State World → State World → Type 0
  Mounted u t =
      (t.net_cat ≡ true)
      × (v : State World) × (line : Text) × (lines : List Text) × (exec_lines env mount_argv u
          ≡ (ok (line ∷ lines), v))
      × (t.mount_info ≡ some (mount_info ((line ∷ lines) ++ sd_card_mount_entry ∷ [])))

  Started : State World → State World → Type 0
  Started s u = (u.net_cat ≡ true) × (u.mount_info ≡ s.mount_info)

  -- What each step of the start has found, in the state that the step before left: the directory is
  -- the one that mkdtemp made, `adb devices` tells of a device, the last `adb forward --list` of the
  -- port, the last `ps` of a netcat on the device, and `busybox id` printed one line.
  pub record IsReady (s t : State World) : Type 0 where
    pub s1 : State World
    pub s2 : State World
    pub s3 : State World
    pub s4 : State World
    pub s5 : State World
    pub made : make_temp_dir env s ≡ (ok (pos 0), s1)
    pub dir :
        (d : Text) × ((sys_mkdtemp temp_dir_template s.world).0 ≡ done d)
        × (s1.temp_dir ≡ d ++ codes "/")
    pub device :
        (lines : List Text) × (exec_prog env devices_argv false (pos 0) s1
          ≡ (ok (lines, pos 0), s2))
        × TellsDevice lines
    pub forwarding : set_android_port_forwarding env s2 ≡ (ok (pos 0), s3)
    pub forwarded :
        (u : State World) × (lines : List Text) × (exec_lines env forward_list_argv u
          ≡ (ok lines, s3))
        × Tells forward_arg lines
    pub starting : android_start_netcat env s3 ≡ (ok (pos 0), s4)
    pub started :
        (u : State World) × (lines : List Text) × (exec_lines env ps_argv u ≡ (ok lines, s4))
        × TellsNetcat lines
    pub asking : query_user_info env s4 ≡ (ok (pos 0), s5)
    pub user : (u : State World) × (line : Text) × (exec_lines env id_argv s4 ≡ (ok (line ∷ []), u))
    pub mounted : Mounted s5 t
