-- ===== src/Main.antt =====
-- `initAdbncFs` and `adbnc_destroy` of src/adbncfs.cpp, and `main` of src/main.cpp.
pub mod Inversion
pub mod Steps
pub mod Ready
pub mod Ended
use adbncfs.Prelude.{
  Bool, true, not, ◌&&◌, ◌||◌, none, List, [], ◌∷◌, if◌then◌else◌, Text, codes, text_eq,
}
use adbncfs.Prelude.Int.{ℤ, pos, is_ok}
use adbncfs.Fs.State.{Env, M, pure, modify, ◌>>=◌, ◌>>◌, when_ok}
use adbncfs.Device.{
  make_temp_dir, is_android_device_connected, set_android_port_forwarding, android_start_netcat,
  query_user_info, query_mount_info, init_net_cat, destroy_net_cat, android_kill_net_cat,
  remove_android_port_forwarding, cleanup_temp_dir,
}

-- The options that only ask for a text: with one of them nothing is set up.
unfoldable pub is_help : Text → Bool
unfolding text_eq
is_help arg =
    text_eq arg (codes "-h")
    || text_eq arg (codes "--help")
    || text_eq arg (codes "-V")
    || text_eq arg (codes "--version")

unfoldable pub init_required : List Text → Bool
unfolding is_help
init_required [] = true
init_required (arg ∷ args) = not (is_help arg) && init_required args

-- `fDebug` behind the loop over the arguments, which only turns messages on.
unfoldable pub is_debug : List Text → Bool → Bool
is_debug [] debug = debug
is_debug (arg ∷ args) debug = is_debug args (text_eq arg (codes "-d") || debug)

module _ (env : Env) where
  open env use {World}

  -- The calls of `initAdbncFs` in their order, up to the first that fails; netcat is started also if
  -- the mount points are not known.
  unfoldable pub set_up : M World ℤ
  set_up = do
    r1 ← make_temp_dir env
    when_ok r1 (do
      r2 ← is_android_device_connected env
      when_ok r2 (do
        r3 ← set_android_port_forwarding env
        when_ok r3 (do
          r4 ← android_start_netcat env
          when_ok r4 (do
            r5 ← query_user_info env
            when_ok r5 (do r6 ← query_mount_info env; init_net_cat env; pure r6)))))

  -- `initAdbncFs`, with the arguments behind the name of the program
  unfoldable pub init_adbnc_fs : List Text → M World ℤ
  unfolding init_required
  init_adbnc_fs args = if init_required args then set_up else pure (pos 0)

  -- `adbnc_destroy`, less the mutexes
  unfoldable pub adbnc_destroy : (ℤ → Text) → M World (Unit {0})
  adbnc_destroy to_string = do
    destroy_net_cat env
    android_kill_net_cat env to_string
    remove_android_port_forwarding env
    cleanup_temp_dir env
    modify (λ s. record s { user_info = none; mount_info = none })

  -- `sig11Handler`: the frames that it prints are left out, and the result is the status of the exit.
  unfoldable pub sig11_handler : (ℤ → Text) → M World ℤ
  unfolding adbnc_destroy
  sig11_handler to_string = do adbnc_destroy to_string; pure (pos 1)

  -- `main`, given what `fuse_main` does and returns
  unfoldable pub main : (ℤ → Text) → (List Text → M World ℤ) → List Text → M World ℤ
  main to_string fuse_main args = do
    r ← init_adbnc_fs args
    served ← when_ok r (fuse_main args)
    (if is_ok served then pure tt else adbnc_destroy to_string)
    pure served
