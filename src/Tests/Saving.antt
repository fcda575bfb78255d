-- ===== src/Tests/Saving.antt =====
-- Runs of the callbacks on open files and open directories, on the device of `World`.
use adbncfs.Prelude.{ℕ, ◌↔◌, some, ◌≡◌, refl, true, List, [], ◌∷◌, Text, codes}
use adbncfs.Prelude.Int.{pos}
use adbncfs.Prelude.Dict.{find, put}
use adbncfs.Path.{make_local_path, parent}
use adbncfs.FileStatus.{pending_open}
use adbncfs.FileStatus.History.{at}
use adbncfs.Fs.State.{Env, State, ok, ◌>>◌}
use adbncfs.Fs.Transfer.{adbnc_push, push_pull_argv}
use adbncfs.Fs.Transfer.Results.{adbnc_push-zero_iff}
use adbncfs.Fs.Program.Errors.{IsClean}
use adbncfs.Fs.Access.{adbnc_access, w_ok}
use adbncfs.Fs.Files.{FileInfo, adbnc_flush, adbnc_write, adbnc_fsync}
use adbncfs.Fs.Files.Saving.{
  flushed, saved, written_state, adbnc_write-flush, copy_of, synced_state, adbnc_write-fsync,
}
use adbncfs.Fs.Directories.Sharing.{Call, opens, releases, after_calls, listing, find-after_calls}
use adbncfs.Tests.World.{env, start}

abbrev handle : FileInfo
handle = record { fh = pos 3; flags = 2 }

abbrev path : Text
path = codes "/d/a"

adbnc_write-flush_example :
    (adbnc_write env path (codes "hello") 0 handle >> adbnc_flush env path handle) start
    ≡ saved
        (put
          (pending_open start.file_status path true true)
          path
          (flushed (at start.file_status path)))
        (adbnc_push env
          (copy_of (at start.file_status path) (make_local_path start.temp_dir path))
          path
          (written_state env path 0 start))
adbnc_write-flush_example =
    adbnc_write-flush env path (codes "hello") 0 5 handle start 0 0 refl refl

adbnc_write-fsync_example :
    (adbnc_write env path (codes "hello") 0 handle >> adbnc_fsync env path handle) start
    ≡ synced_state env path (
        adbnc_push env
          (make_local_path start.temp_dir path)
          path
          (record start { file_status = pending_open start.file_status path true true }))
adbnc_write-fsync_example =
    adbnc_write-fsync env path (codes "hello") 0 5 handle start 0 0 refl refl

abbrev calls : List Call
calls = opens (codes "/e") ∷ releases (codes "/d") ∷ opens (codes "/d") ∷ []

find-after_calls_example :
    find (after_calls env start calls).open_dirs (codes "/e") ≡ listing env start (codes "/e") calls
find-after_calls_example = find-after_calls env start calls (codes "/e")

-- A host on which every program exits with status 1 and prints nothing.
abbrev host : Env
host = record env { spawn = λ argv use_stderr w. (some ([], 256), w) }

adbnc_push-zero_iff_example :
    ((adbnc_push host (codes "/tmp/x/-a") (codes "/a") start).0 ≡ ok (pos 0)) ↔ (
      (t : State ℕ) × (adbnc_access host (parent (codes "/a")) w_ok start ≡ (ok (pos 0), t))
      × IsClean (host.spawn (push_pull_argv true (codes "/tmp/x/-a") (codes "/a")) true t.world).0)
adbnc_push-zero_iff_example = adbnc_push-zero_iff host (codes "/tmp/x/-a") (codes "/a") start
