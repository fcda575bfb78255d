-- ===== src/Tests/Startup.antt =====
-- A start of the program, and the files of a child.
use adbncfs.Prelude.{
  ◌≢◌, ◌⊎◌, ℕ, zero, suc, ◌≡◌, refl, ap, true, false, none, some, List, [], ◌∷◌, arith, ◌==◌,
  if◌then◌else◌, Text, codes,
}
use adbncfs.Prelude.Int.{ℤ, pos}
use adbncfs.Strings.Numbers
use adbncfs.Fs.State.{Env, State, M, ok, done, pure}
use adbncfs.Device
use adbncfs.Main.{set_up, init_adbnc_fs, adbnc_destroy, main}
use adbncfs.Main.Ended.{IsDown, main-ends}
use adbncfs.Spawn.{Spawn}
use adbncfs.Spawn.Descriptors.{is_end}
use adbncfs.Spawn.Child.{Files, piped, child_files, child_files_lem}
use adbncfs.Tests.World.{env, start}

-- What the programs print, one after the other.
abbrev pub outputs : List (List Text)
outputs =
    (codes "List of devices attached" ∷ codes "0123456789 device" ∷ [] ∷ [])
    ∷ (codes "0123456789 tcp:4444 tcp:4444" ∷ [])
    ∷ (codes "0123456789 tcp:4444 tcp:4444" ∷ [])
    ∷ (codes "77 nc" ∷ [])
    ∷ (codes "77 nc" ∷ [])
    ∷ (codes "uid=0(root) gid=0(root)" ∷ [])
    ∷ (codes "rootfs on / type rootfs (ro)" ∷ [])
    ∷ []

abbrev pub printed : ℕ → List (List Text) → List Text
printed w [] = []
printed zero (out ∷ outs) = out
printed (suc w) (out ∷ outs) = printed w outs

abbrev pub host : Env
host = record env {
  spawn = λ argv use_stderr w. (some (printed w outputs, 0), suc w);
  sys_mkdtemp = λ t w. (done (codes "/tmp/adbncfs-x"), w);
}

abbrev fresh : State ℕ
fresh = record start { net_cat = false }

abbrev ready : State ℕ
ready = (set_up host fresh).1

abbrev spawn : Spawn
spawn = record {
  write_pipe = record { read_fd = 3; write_fd = 4 };
  read_pipe = record { read_fd = 5; write_fd = 6 };
}

abbrev files : Files
files d = some d

child_files_lem_example : child_files true files spawn 7 ≡ (
    if is_end spawn 7
    then none
    else (if 7 == piped true then some 6 else (if 7 == 0 then some 3 else files 7)))
child_files_lem_example =
    child_files_lem true files spawn 3 6 7 refl refl (λ e. absurd (omega (arith, e)))

-- A host on which no directory can be made: the start fails, and all is taken down.
abbrev options : List Text
options = codes "/mnt" ∷ []

abbrev to_string : ℤ → Text
to_string n = codes "0"

abbrev fuse_main : List Text → M ℕ ℤ
fuse_main args = pure (pos 0)

abbrev ended : State ℕ
ended = (main env to_string fuse_main options start).1

main_runs : (main env to_string fuse_main options start).0 ≡ ok (pos 2)
unfolding main init_adbnc_fs set_up adbnc_destroy Device.make_temp_dir Device.destroy_net_cat
    Device.android_kill_net_cat Device.remove_android_port_forwarding Device.cleanup_temp_dir
main_runs = refl

main-ends_example :
    ((pos 2 ≡ pos 0)
      × (u : State ℕ) × (init_adbnc_fs env options start ≡ (ok (pos 0), u))
      × (fuse_main options u ≡ (ok (pos 0), ended)))
    ⊎ ((pos 2 ≢ pos 0) × IsDown ended)
main-ends_example =
    main-ends env to_string fuse_main options (pos 2) start ended (ap (λ r. (r, ended)) main_runs)
