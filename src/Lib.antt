-- ===== src/Lib.antt =====
-- adbncfs shows the files of an Android device as a file system of the host, by FUSE. The callbacks of
-- src/adbncfs.cpp send shell commands to a netcat on the device, copy files with `adb pull` and
-- `adb push`, and keep what the device printed and which files are open.
--
-- The parts, and the files that model them:
--   Strings, Path      the texts: `tokenize`, `stringReplacer`, `makeLocalPath` and `parent` of
--                      src/adbncfs.cpp, with `strtok_r`, `atoi`, `stoi`, `stol` and `stoul` written out
--   UserInfo           src/userInfo.cpp: the ids that `busybox id` prints, and the permission test
--   MountInfo          src/mountInfo.cpp: the lines of `busybox mount`, and the search of a mount point
--   FileCache          src/fileinfoCache.cpp, class FileCache: the outputs of `stat` and `readlink`
--                      (FileCache/Pointers has the entries as the source has them, with their lists
--                      on a heap)
--   FileStatus         src/fileinfoCache.cpp, class FileStatus: what is to be pushed at a flush
--   Fs/State           the static variables of src/adbncfs.cpp as the record `State`, the world outside
--                      as the record `Env`, and the monad `M` of states and faults
--   Fs/Keeps           invariants of actions in that monad
--   Fs/Shell, Program  `execCommandViaNetCat`, `adbncShell` and `execProg`
--   Fs/Stat, Attributes, Access, Links, Space
--                      `doStat`, `adbnc_getattr`, `adbnc_access`, `adbnc_readlink` and `adbnc_statfs`
--   Fs/Transfer, Files, Directories, Names
--                      the callbacks on open files, on directories and on names
--   Spawn              src/spawn.cpp: the ends of the pipes in the parent and in the child (Spawn/Child),
--                      and the wait for the child
--   Device, Main       `initAdbncFs`, `adbnc_destroy` and `main`: the way to the device and back
--   Session            the table of callbacks that `main` gives to FUSE, and a session: any requests, one
--                      after the other, from the start of the program on
--   Threads            the mutexes, the condition variable and the lines from netcat, in the threads in
--                      which FUSE runs the callbacks: one access to shared data is one step
--   Bits, Prelude      numbers and their bits, lists, texts, tables
-- The child modules hold proofs and are named for what they prove; Tests holds runs.
--
-- How code and model correspond. A function has the source's name in snake_case, `execProg` is
-- `exec_prog`. A string is a list of bytes without the byte 0, a number is a natural number or the
-- integer `ℤ` of Prelude/Int, cut to its width where the source assigns it to a narrower type. A
-- `std::map` is an association list (Prelude/Dict), NULL is `none`, and a negative errno is `neg`. An
-- index behind the end of a vector, an exception that nobody catches and a loop that does not end are
-- the faults of `Result`. The callbacks call each other as in the source, and the static variables are
-- the state that is passed on.
--
-- Parameters. What the device prints, the programs that are run, the system calls and the clock are
-- the fields of `Env`, and a theorem about them names what it wants of them: that the shell ends
-- each output with the marker, that `stat -t` prints all 15 attributes of a file, that calls that fail
-- set errno, or that `adb` has copied when it exits with 0 (Session/Contents).
--
-- Fuel. `token_loop`, `replace_loop` and `mount_loop` get one round more than the text has bytes.
--
-- Not modelled: `fork` and the program that a child runs, which the parameter `spawn` stands for; the
-- streams of src/spawn.cpp; the end of the stream from netcat in Threads; the capability that
-- `adbnc_init` asks for, the messages and the frames of the stack; FUSE itself. The sets of groups and
-- options are lists, since they are only searched. Outside Threads a callback runs on its own, as one
-- function on the state, also in a session, and the objects of the C++ library are values.
pub mod Prelude
pub mod Strings
pub mod Path
pub mod Bits
pub mod UserInfo
pub mod MountInfo
pub mod FileCache
pub mod FileStatus
pub mod Fs
pub mod Spawn
pub mod Device
pub mod Main
pub mod Threads
pub mod Session
pub mod Tests
