-- ===== src/Tests/Copies.antt =====
-- A host and a device with files, and an `adb` that copies between them.
use adbncfs.Prelude.{
  ℕ, true, false, Option, none, some, List, [], ◌∷◌, if◌then◌else◌, length, Text, codes, text_eq,
}
use adbncfs.Prelude.Int.{pos}
use adbncfs.FileStatus.{Entry, new_entry, set_pending}
use adbncfs.FileStatus
use adbncfs.Fs.State.{Env, done, State}
use adbncfs.Fs.Shell.{done_marker}
use adbncfs.Fs.Files.{FileInfo, adbnc_flush, adbnc_open}
use adbncfs.Tests.World.{answer}

-- The files of the host, and those of the device.
abbrev Disks : Type 0
Disks = (Text → List ℕ) × (Text → List ℕ)

abbrev store : (Text → List ℕ) → Text → List ℕ → Text → List ℕ
store files path contents p = if text_eq path p then contents else files p

abbrev adb : List Text → Disks → Option (List Text × ℕ) × Disks
adb (program ∷ verb ∷ from ∷ to ∷ []) (host, device) = (
  some ([], 0),
  if text_eq verb (codes "push")
      then (host, store device to (host from))
      else (store host to (device from), device),
)
adb argv disks = (some ([], 256), disks)

abbrev env : Env
env = record {
  World = Disks;
  shell = λ c w. (answer ∷ done_marker ∷ [], w);
  spawn = λ argv use_stderr w. adb argv w;
  time = λ w. 0;
  exists_file = λ path w. false;
  sys_open = λ path flags w. (done 3, w);
  sys_close = λ fh w. (none, w);
  sys_fsync = λ fh w. (none, w);
  sys_pread = λ fh size offset w. (done [], w);
  sys_pwrite = λ fh bytes offset w. (done (length bytes), w);
  sys_truncate = λ path size w. (none, w);
  sys_mknod = λ path mode rdev w. (none, w);
  sys_unlink = λ path w. (none, w);
  sys_mkdtemp = λ t w. (done t, w);
  start_netcat = λ w. (true, w);
  stop_netcat = λ w. w;
  memory = λ w. record { uid = pos 0; gid = pos 0; groups = [] };
}

abbrev path : Text
path = codes "/d/a"

abbrev written : State Disks
written = record {
  file_cache = [];
  file_status = (path, set_pending new_entry true true) ∷ [];
  open_dirs = [];
  user_info = none;
  mount_info = none;
  temp_dir = codes "/tmp/x/";
  net_cat = true;
  incoming = [];
  world = (λ p. codes "hello", λ p. codes "old");
}

abbrev handle : FileInfo
handle = record { fh = pos 3; flags = 2 }

abbrev saved : State Disks
saved = (adbnc_flush env path handle written).1

abbrev reopened : State Disks
reopened = (adbnc_open env path handle saved).1
