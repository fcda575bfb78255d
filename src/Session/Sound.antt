-- ===== src/Session/Sound.antt =====
-- What holds between two callbacks: what the cache and the open directories hold for a path was
-- printed by the device for that very path, in a world that calls lead to from the first one of the
-- session, and no line from netcat is left to read.
use adbncfs.Prelude.{ℕ, ◌≤◌, ◌≡◌, refl, Bool, Option, some, List, [], ◌++◌, length, Text, codes}
use adbncfs.Prelude.Dict.{Dict, find}
use adbncfs.Prelude.Int.{ℤ, pos}
use adbncfs.FileCache.{FileCache, Entry}
use adbncfs.UserInfo.{UserInfo}
use adbncfs.MountInfo.{MountInfo}
use adbncfs.Fs.State.{Env, State}
use adbncfs.Fs.Stat.{quoted, stat_result}

-- The session begins in the world `first`; `command` is what the device does for a command.
module _ (env : Env) (command : Text → env.World → List Text × env.World) (first : env.World) where
  open env use {
    World, spawn, sys_open, sys_close, sys_fsync, sys_pread, sys_pwrite, sys_truncate, sys_mknod,
    sys_unlink,
  }

  -- A world that calls of the kinds that the callbacks make lead to, from the first one on.
  pub data Later : World → Type 0 where
    now : Later first
    ran : (c : Text) (w : World) → Later w → Later (command c w).1
    spawned : (argv : List Text) (e : Bool) (w : World) → Later w → Later (spawn argv e w).1
    opened : (path : Text) (flags : ℕ) (w : World) → Later w → Later (sys_open path flags w).1
    closed : (fd : ℤ) (w : World) → Later w → Later (sys_close fd w).1
    synced : (fd : ℤ) (w : World) → Later w → Later (sys_fsync fd w).1
    did_read : (fd : ℤ) (n i : ℕ) (w : World) → Later w → Later (sys_pread fd n i w).1
    wrote :
        (fd : ℤ) (bytes : List ℕ) (i : ℕ) (w : World) → Later w → Later (sys_pwrite fd bytes i w).1
    cut : (path : Text) (n : ℕ) (w : World) → Later w → Later (sys_truncate path n w).1
    made :
        (path : Text) (mode rdev : ℕ) (w : World) → Later w → Later (sys_mknod path mode rdev w).1
    removed : (path : Text) (w : World) → Later w → Later (sys_unlink path w).1

  -- The lines are what the device prints for the command in such a world.
  abbrev pub Printed : Text → List Text → Type 0
  Printed c output = (w : World) × Later w × ((command (codes "busybox " ++ c) w).0 ≡ output)

  abbrev pub PrintedStat : Text → List Text → Type 0
  PrintedStat path = Printed (codes "stat -t " ++ quoted path)

  abbrev pub PrintedLink : Text → List Text → Type 0
  PrintedLink path = Printed (codes "readlink -f " ++ quoted path)

  abbrev pub PrintedNames : Text → List Text → Type 0
  PrintedNames path = Printed (codes "ls -1a " ++ quoted path)

  -- An output that is taken for the attributes of a file holds all 15 of them.
  abbrev pub IsComplete : Type 0
  IsComplete =
      (path : Text) (output : List Text)
      → PrintedStat path output
      → (stat_result output).0 ≡ pos 0
      → 15 ≤ length (stat_result output).1

  pub record IsGenuine (path : Text) (e : Entry) : Type 0 where
    pub stat : (output : List Text) → e.stat_output ≡ some output → PrintedStat path output
    pub link : (output : List Text) → e.read_link_output ≡ some output → PrintedLink path output

  abbrev pub AllGenuine : FileCache → Type 0
  AllGenuine cache = (path : Text) (e : Entry) → find cache path ≡ some e → IsGenuine path e

  abbrev pub AllListed : Dict (List Text) → Type 0
  AllListed dirs =
      (path : Text) (output : List Text) → find dirs path ≡ some output → PrintedNames path output

  module _ (u : Option UserInfo) (m : Option MountInfo) where
    -- The parts of the state that it is about; the user is `u` and the table of mounts `m`.
    pub record Holds (incoming : List Text) (cache : FileCache) (dirs : Dict (List Text))
        (user : Option UserInfo) (mounts : Option MountInfo) (w : World) : Type 0 where
      pub quiet : incoming ≡ []
      pub cached : AllGenuine cache
      pub listed : AllListed dirs
      pub same_user : user ≡ u
      pub same_mounts : mounts ≡ m
      pub later : Later w

    abbrev pub IsSound : State World → Type 0
    IsSound s = Holds s.incoming s.file_cache s.open_dirs s.user_info s.mount_info s.world

    module _ {c : FileCache} {d : Dict (List Text)} {v : Option UserInfo} {n : Option MountInfo}
        {w : World} where
      pub Holds-world :
          {i : List Text} → Holds i c d v n w → (x : World) → Later x → Holds i c d v n x
      Holds-world h x l = record {
        quiet = h.quiet;
        cached = h.cached;
        listed = h.listed;
        same_user = h.same_user;
        same_mounts = h.same_mounts;
        later = l;
      }

      pub Holds-quiet : {i : List Text} → Holds i c d v n w → Holds [] c d v n w
      Holds-quiet h = record {
        quiet = refl;
        cached = h.cached;
        listed = h.listed;
        same_user = h.same_user;
        same_mounts = h.same_mounts;
        later = h.later;
      }

      pub Holds-cache :
          {i : List Text} → Holds i c d v n w → (a : FileCache) → AllGenuine a → Holds i a d v n w
      Holds-cache h a g = record {
        quiet = h.quiet;
        cached = g;
        listed = h.listed;
        same_user = h.same_user;
        same_mounts = h.same_mounts;
        later = h.later;
      }

      pub Holds-dirs :
          {i : List Text}
          → Holds i c d v n w
          → (b : Dict (List Text)) → AllListed b
          → Holds i c b v n w
      Holds-dirs h b g = record {
        quiet = h.quiet;
        cached = h.cached;
        listed = g;
        same_user = h.same_user;
        same_mounts = h.same_mounts;
        later = h.later;
      }
