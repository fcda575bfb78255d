-- ===== src/Session.antt =====
-- The table of callbacks that `main` of src/main.cpp gives to FUSE, as one function on what FUSE asks
-- for, and a session, in which FUSE asks for one thing after the other.
pub mod Sound
pub mod Ensures
pub mod Cached
pub mod Kept
pub mod Faultless
pub mod Directories
pub mod Calls
pub mod Files
pub mod Names
pub mod Answers
pub mod Served
pub mod Started
pub mod Answered
pub mod Reaches
pub mod Forgets
pub mod Flushed
pub mod Changed
pub mod Contents
pub mod Reopened
use adbncfs.Prelude.{ℕ, Bool, Option, List, [], ◌∷◌, Text}
use adbncfs.Prelude.Int.{ℤ}
use adbncfs.Fs.State.{Env, M, pure, ◌>>=◌}
use adbncfs.Fs.Attributes.{Stat, adbnc_getattr}
use adbncfs.Fs.Access.{adbnc_access}
use adbncfs.Fs.Files.{
  FileInfo, adbnc_open, adbnc_flush, adbnc_fsync, adbnc_release, adbnc_read, adbnc_write,
  adbnc_truncate, adbnc_mknod,
}
use adbncfs.Fs.Directories.{adbnc_opendir, adbnc_readdir, adbnc_releasedir}
use adbncfs.Fs.Links.{adbnc_readlink}
use adbncfs.Fs.Names.{adbnc_mkdir, adbnc_rmdir, adbnc_unlink, adbnc_utimens, adbnc_rename}
use adbncfs.Fs.Space.{Statvfs, adbnc_statfs}

-- A callback and its arguments, less those that the callback does not read; the members of
-- `adbfs_oper` in their order.
pub data Request : Type 0 where
  statfs : Text → Request
  opendir : Text → Request
  readdir : Text → ℕ → Request
  releasedir : Text → Request
  getattr : Text → Request
  access : Text → ℕ → Request
  open_file : Text → FileInfo → Request
  flush : Text → FileInfo → Request
  fsync : Text → FileInfo → Request
  release : Text → FileInfo → Request
  read : Text → ℕ → ℕ → FileInfo → Request
  write : Text → List ℕ → ℕ → FileInfo → Request
  utimens : Text → Request
  truncate : Text → ℕ → Request
  mknod : Text → ℕ → ℕ → Request
  mkdir : Text → Request
  rename : Text → Text → Request
  rmdir : Text → Request
  unlink : Text → Request
  readlink : Text → ℕ → Request

-- What a callback returns, and what it puts into the buffer that it is given.
pub data Reply (B : Type 0) : Type 0 where
  status : ℤ → Reply B
  space : ℤ × Statvfs → Reply B
  entries : ℤ × B → Reply B
  attributes : ℤ × Stat → Reply B
  opened : ℤ × FileInfo → Reply B
  bytes : ℤ × List ℕ → Reply B
  target : ℤ × Option Text → Reply B

-- `filler` and an empty buffer are FUSE's.
module _ (env : Env) {B : Type 0} (filler : B → Text → Stat → ℕ → B × Bool) (fresh : B) where
  open env use {World}

  -- `adbfs_oper`
  unfoldable pub serve : Request → M World (Reply B)
  serve (statfs path) = do r ← adbnc_statfs env path; pure (space r)
  serve (opendir path) = do r ← adbnc_opendir env path; pure (status r)
  serve (readdir path offset) = do r ← adbnc_readdir env filler path offset fresh; pure (entries r)
  serve (releasedir path) = do r ← adbnc_releasedir env path; pure (status r)
  serve (getattr path) = do r ← adbnc_getattr env path; pure (attributes r)
  serve (access path mask) = do r ← adbnc_access env path mask; pure (status r)
  serve (open_file path fi) = do r ← adbnc_open env path fi; pure (opened r)
  serve (flush path fi) = do r ← adbnc_flush env path fi; pure (status r)
  serve (fsync path fi) = do r ← adbnc_fsync env path fi; pure (status r)
  serve (release path fi) = do r ← adbnc_release env path fi; pure (status r)
  serve (read path size offset fi) = do r ← adbnc_read env path size offset fi; pure (bytes r)
  serve (write path contents offset fi) = do
    r ← adbnc_write env path contents offset fi
    pure (status r)
  serve (utimens path) = do r ← adbnc_utimens env path; pure (status r)
  serve (truncate path size) = do r ← adbnc_truncate env path size; pure (status r)
  serve (mknod path mode rdev) = do r ← adbnc_mknod env path mode rdev; pure (status r)
  serve (mkdir path) = do r ← adbnc_mkdir env path; pure (status r)
  serve (rename from to) = do r ← adbnc_rename env from to; pure (status r)
  serve (rmdir path) = do r ← adbnc_rmdir env path; pure (status r)
  serve (unlink path) = do r ← adbnc_unlink env path; pure (status r)
  serve (readlink path size) = do r ← adbnc_readlink env path size; pure (target r)

  -- What FUSE asks for, up to the end of the session.
  unfoldable pub serve_all : List Request → M World (List (Reply B))
  unfolding serve
  serve_all [] = pure []
  serve_all (request ∷ requests) = do
    reply ← serve request
    replies ← serve_all requests
    pure (reply ∷ replies)
