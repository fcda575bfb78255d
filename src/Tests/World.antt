-- ===== src/Tests/World.antt =====
-- A device that prints the same line for every command, and a state with one open directory.
use adbncfs.Prelude.{ℕ, suc, true, false, none, [], ◌∷◌, length, Text, codes}
use adbncfs.Prelude.Int.{pos}
use adbncfs.Fs.State.{Env, done, failed, State}
use adbncfs.Fs.Shell.{done_marker}

-- What the device prints for every command.
abbrev pub answer : Text
answer = codes "x 0 0 81a4 0 0 0 0 1 0 0 0 0 0 1"

-- The world is the number of commands so far.
abbrev pub env : Env
env = record {
  World = ℕ;
  shell = λ c w. (answer ∷ done_marker ∷ [], suc w);
  spawn = λ argv use_stderr w. (none, w);
  time = λ w. w;
  exists_file = λ path w. false;
  sys_open = λ path flags w. (failed 2, w);
  sys_close = λ fh w. (none, w);
  sys_fsync = λ fh w. (none, w);
  sys_pread = λ fh size offset w. (failed 2, w);
  sys_pwrite = λ fh bytes offset w. (done (length bytes), w);
  sys_truncate = λ path size w. (none, w);
  sys_mknod = λ path mode rdev w. (none, w);
  sys_unlink = λ path w. (none, w);
  sys_mkdtemp = λ t w. (failed 2, w);
  start_netcat = λ w. (true, w);
  stop_netcat = λ w. w;
  memory = λ w. record { uid = pos 0; gid = pos 0; groups = [] };
}

abbrev pub start : State ℕ
start = record {
  file_cache = [];
  file_status = [];
  open_dirs = (codes "/d", codes "." ∷ codes ".." ∷ codes "a" ∷ codes "b" ∷ []) ∷ [];
  user_info = none;
  mount_info = none;
  temp_dir = codes "/tmp/x";
  net_cat = true;
  incoming = [];
  world = 0;
}
