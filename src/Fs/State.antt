-- ===== src/Fs/State.antt =====
-- The static variables of src/adbncfs.cpp, what the program calls of the world outside, and the monad
-- in which its functions run.
use adbncfs.Prelude.{ℕ, zero, Bool, Option, List, Text}
use adbncfs.Prelude.Int.{ℤ, pos}
use adbncfs.Prelude.Dict.{Dict}
use adbncfs.FileCache.{FileCache}
use adbncfs.FileStatus.{FileStatus}
use adbncfs.MountInfo.{MountInfo}
use adbncfs.UserInfo.{UserInfo}

-- errno
abbrev pub enoent : ℕ
enoent = 2

abbrev pub eio : ℕ
eio = 5

abbrev pub ebadf : ℕ
ebadf = 9

abbrev pub eacces : ℕ
eacces = 13

abbrev pub enosys : ℕ
enosys = 38

-- A system call that gives a value, or -1 and errno.
pub data Sys {ℓ} (A : Type ℓ) : Type ℓ where
  done : A → Sys A
  failed : ℕ → Sys A

-- The world outside: the device behind netcat, the programs that are run on the host, and the host's
-- files and clock. A call that returns 0 or -1 gives `none`, or `some` of errno.
pub record Env : Type 1 where
  pub World : Type 0
  -- the lines that the device prints for the text that is written to netcat
  pub shell : Text → World → List Text × World
  -- the program of these arguments: the lines that it prints to stderr (`true`) or stdout, and the
  -- status that `wait` gives; `none` if no pipe or no process can be made
  pub spawn : List Text → Bool → World → Option (List Text × ℕ) × World
  pub time : World → ℕ
  pub exists_file : Text → World → Bool
  pub sys_open : Text → ℕ → World → Sys ℕ × World
  pub sys_close : ℤ → World → Option ℕ × World
  pub sys_fsync : ℤ → World → Option ℕ × World
  pub sys_pread : ℤ → ℕ → ℕ → World → Sys (List ℕ) × World
  pub sys_pwrite : ℤ → List ℕ → ℕ → World → Sys ℕ × World
  pub sys_truncate : Text → ℕ → World → Option ℕ × World
  pub sys_mknod : Text → ℕ → ℕ → World → Option ℕ × World
  pub sys_unlink : Text → World → Option ℕ × World
  -- the directory that is made from the template
  pub sys_mkdtemp : Text → World → Sys Text × World
  -- the local netcat: whether it could be started, and its end
  pub start_netcat : World → Bool × World
  pub stop_netcat : World → World
  -- what stands in the members of a `UserInfo` that its constructor does not set
  pub memory : World → UserInfo

-- The static variables. `net_cat` tells whether `pNetCat` is not
-- NULL, and `incoming` holds the lines from netcat that have not been read.
pub record State (W : Type 0) : Type 0 where
  pub file_cache : FileCache
  pub file_status : FileStatus
  pub open_dirs : Dict (List Text)
  pub user_info : Option UserInfo
  pub mount_info : Option MountInfo
  pub temp_dir : Text
  pub net_cat : Bool
  pub incoming : List Text
  pub world : W

-- What C++ gives no meaning to, or what ends the process.
pub data Fault : Type 0 where
  -- an index behind the end of a vector
  out_of_range : Fault
  -- a loop that does not end
  no_return : Fault
  -- an exception that nobody catches
  uncaught : Fault

pub data Result {ℓ} (A : Type ℓ) : Type ℓ where
  ok : A → Result A
  fault : Fault → Result A

abbrev pub M : Type 0 → Type 0 → Type 0
M W A = State W → Result A × State W

module _ {W A : Type 0} where
  abbrev pub pure : A → M W A
  pure a s = (ok a, s)

  abbrev pub raise : Fault → M W A
  raise f s = (fault f, s)

  abbrev pub gets : (State W → A) → M W A
  gets f s = (ok (f s), s)

module _ {W : Type 0} where
  abbrev pub modify : (State W → State W) → M W (Unit {0})
  modify f s = (ok tt, f s)

  -- An action on the world alone.
  abbrev pub on_world : {A : Type 0} → (W → A × W) → M W A
  on_world f s = let (a, w) = f s.world in (ok a, record s { world = w })

module _ {W A B : Type 0} where
  abbrev pub continue : Result A → (A → M W B) → M W B
  continue (ok a) f s = f a s
  continue (fault e) f s = (fault e, s)

  infixl 5 ◌>>=◌ ◌>>◌
  abbrev pub ◌>>=◌ : M W A → (A → M W B) → M W B
  ◌>>=◌ m f s = let (r, s') = m s in continue r f s'

  abbrev pub ◌>>◌ : M W A → M W B → M W B
  m >> n = m >>= λ _. n

-- `if (!iRes) …`
abbrev pub when_ok : {W : Type 0} → ℤ → M W ℤ → M W ℤ
when_ok (pos zero) m = m
when_ok r m = pure r
