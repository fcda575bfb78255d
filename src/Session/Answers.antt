-- ===== src/Session/Answers.antt =====
-- Which replies of the callbacks are right in a session: those that follow from what the device
-- prints for the path that was asked for in a world that calls lead to from the first one.
use adbncfs.Prelude.{
  ℕ, suc, ◌+◌, ◌<◌, ◌≡◌, ◌⊎◌, Bool, true, false, Option, List, [], ◌∷◌, ◌++◌, if◌then◌else◌,
  is_empty, Text, codes,
}
use adbncfs.Prelude.Int.{ℤ, pos, neg, is_ok}
use adbncfs.Path.{slash}
use adbncfs.MountInfo.{MountInfo}
use adbncfs.UserInfo.{UserInfo}
use adbncfs.Fs.State.{Env, ok, eio, ebadf}
use adbncfs.Fs.Stat.{quoted, stat_result}
use adbncfs.Fs.Attributes.{Stat, attr_result}
use adbncfs.Fs.Access.{access_result}
use adbncfs.Fs.Files.{FileInfo}
use adbncfs.Fs.Directories.{entry_path}
use adbncfs.Fs.Links.{link_result}
use adbncfs.Fs.Space.{Statvfs, zero_statvfs, fill_blocks, fill_inodes, df_result}
use adbncfs.Session.{
  Request, statfs, opendir, readdir, releasedir, getattr, access, open_file, flush, fsync, release,
  read, write, utimens, truncate, mknod, mkdir, rename, rmdir, unlink, readlink, Reply, status,
  space, entries, attributes, opened, bytes, target,
}
use adbncfs.Session.Sound.{Printed, PrintedStat, PrintedLink, PrintedNames}
use adbncfs.Session.Faultless.{IsPath}

-- `adbnc_access` searches the mount point of the path; an open file is pulled and pushed with it.
abbrev pub HasPath : Request → Type 0
HasPath (access path mask) = IsPath path
HasPath (open_file path fi) = IsPath path
HasPath (flush path fi) = IsPath path
HasPath (fsync path fi) = IsPath path
HasPath (mknod path mode rdev) = IsPath path
HasPath _ = Unit

module _ (env : Env) (command : Text → env.World → List Text × env.World) (first : env.World) where
  -- The attributes of a path, from an output of the device.
  pub record Describes (path : Text) (r : ℤ × Stat) : Type 0 where
    pub output : List Text
    pub printed : PrintedStat env command first path output
    pub result : attr_result (stat_result output) ≡ ok r

  -- The space, and then the inodes, if the output for the first can be read.
  abbrev pub Measures : Text → ℤ × Statvfs → Type 0
  Measures path r =
      (output : List Text) × Printed env command first (codes "df -P -B 4096 " ++ quoted path)
        output
      × (b : ℤ × Statvfs) × (df_result fill_blocks zero_statvfs output ≡ ok b)
      × (((is_ok b.0 ≡ false) × (r ≡ b))
          ⊎ ((is_ok b.0 ≡ true)
              × (lines : List Text) × Printed env command first (codes "df -P -i " ++ quoted path)
                  lines
              × (n : ℤ × Statvfs) × (df_result fill_inodes b.1 lines ≡ ok n)
              × (r ≡ (n.0, record n.1 { f_namemax = 1024 }))))

  module _ {B : Type 0} (filler : B → Text → Stat → ℕ → B × Bool) (fresh : B) where
    -- What the names of a directory, from the one with index `i` on, make of a buffer, where the
    -- reading begins at an offset.
    pub data Fills (path : Text) (offset : ℕ) : List Text → ℕ → B → B → Type 0 where
      at_end : (i : ℕ) (b : B) → Fills path offset [] i b b
      passed :
          (name : Text) (names : List Text) (i : ℕ) (b c : B)
          → (i < 2) ⊎ (i < offset)
          → Fills path offset names (suc i) b c
          → Fills path offset (name ∷ names) i b c
      gone :
          (name : Text) (names : List Text) (i : ℕ) (b c : B) (r : ℤ × Stat)
          → Describes (entry_path path name) r
          → is_ok r.0 ≡ false
          → Fills path offset names (suc i) b c
          → Fills path offset (name ∷ names) i b c
      listed :
          (name : Text) (names : List Text) (i : ℕ) (b c d : B) (r : ℤ × Stat)
          → Describes (entry_path path name) r
          → is_ok r.0 ≡ true
          → filler b name r.1 (i + 1) ≡ (c, false)
          → Fills path offset names (suc i) c d
          → Fills path offset (name ∷ names) i b d
      full :
          (name : Text) (names : List Text) (i : ℕ) (b c : B) (r : ℤ × Stat)
          → Describes (entry_path path name) r
          → is_ok r.0 ≡ true
          → filler b name r.1 (i + 1) ≡ (c, true)
          → Fills path offset (name ∷ names) i b c

    -- No such directory is open, or all is well with the names that were printed for it.
    abbrev pub Lists : Text → ℕ → ℤ × B → Type 0
    Lists path offset r =
        (r ≡ (neg ebadf, fresh))
        ⊎ ((names : List Text) × PrintedNames env command first path names
            × (r.0 ≡ pos 0)
            × Fills path offset names 0 fresh r.1)

    -- What each kind of request is answered. The replies about open files depend on the host alone.
    abbrev pub Answers : Option UserInfo → Option MountInfo → Request → Reply B → Type 0
    Answers u m (statfs path) a =
        (r : ℤ × Statvfs) × (a ≡ space r)
        × (((path ≡ slash ∷ []) × (r ≡ (pos 0, zero_statvfs))) ⊎ Measures path r)
    Answers u m (opendir path) a =
        (names : List Text) × PrintedNames env command first path names
        × (a ≡ status (if is_empty names then neg eio else pos 0))
    Answers u m (readdir path offset) a = (r : ℤ × B) × (a ≡ entries r) × Lists path offset r
    Answers u m (getattr path) a = (r : ℤ × Stat) × (a ≡ attributes r) × Describes path r
    Answers u m (access path mask) a =
        (output : List Text) × PrintedStat env command first path output
        × (r : ℤ) × (access_result u m path mask (stat_result output) ≡ ok r)
        × (a ≡ status r)
    Answers u m (readlink path size) a =
        (output : List Text) × PrintedLink env command first path output
        × (a ≡ target (link_result path size output))
    Answers u m (releasedir path) a = a ≡ status (pos 0)
    Answers u m (utimens path) a = a ≡ status (pos 0)
    Answers u m (mkdir path) a = a ≡ status (pos 0)
    Answers u m (rename from to) a = a ≡ status (pos 0)
    Answers u m (rmdir path) a = a ≡ status (pos 0)
    Answers u m (unlink path) a = a ≡ status (pos 0)
    Answers u m (open_file path fi) a = (r : ℤ × FileInfo) × (a ≡ opened r)
    Answers u m (read path size offset fi) a = (r : ℤ × List ℕ) × (a ≡ bytes r)
    Answers u m (flush path fi) a = (r : ℤ) × (a ≡ status r)
    Answers u m (fsync path fi) a = (r : ℤ) × (a ≡ status r)
    Answers u m (release path fi) a = (r : ℤ) × (a ≡ status r)
    Answers u m (write path contents offset fi) a = (r : ℤ) × (a ≡ status r)
    Answers u m (truncate path size) a = (r : ℤ) × (a ≡ status r)
    Answers u m (mknod path mode rdev) a = (r : ℤ) × (a ≡ status r)

    -- One reply for each request.
    abbrev pub AllAnswer :
        Option UserInfo → Option MountInfo → List Request → List (Reply B) → Type 0
    AllAnswer u m [] [] = Unit
    AllAnswer u m (q ∷ qs) (a ∷ rs) = Answers u m q a × AllAnswer u m qs rs
    AllAnswer u m qs rs = ⊥
