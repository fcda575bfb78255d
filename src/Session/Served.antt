-- ===== src/Session/Served.antt =====
-- What a session is answered.
use adbncfs.Prelude.{ℕ, refl, sym, ap, Bool, Option, List, [], ◌∷◌, All, Text}
use adbncfs.MountInfo.{MountInfo}
use adbncfs.UserInfo.{UserInfo}
use adbncfs.Fs.State.{Env, M, pure, ◌>>=◌}
use adbncfs.Fs.Shell.Framing.{IsMarking}
use adbncfs.Fs.Attributes.{Stat, adbnc_getattr}
use adbncfs.Fs.Access.{adbnc_access}
use adbncfs.Fs.Files.{
  adbnc_open, adbnc_flush, adbnc_fsync, adbnc_release, adbnc_read, adbnc_write, adbnc_truncate,
  adbnc_mknod,
}
use adbncfs.Fs.Directories.{adbnc_opendir, adbnc_readdir, adbnc_releasedir}
use adbncfs.Fs.Links.{adbnc_readlink}
use adbncfs.Fs.Names.{adbnc_mkdir, adbnc_rmdir, adbnc_unlink, adbnc_utimens, adbnc_rename}
use adbncfs.Fs.Space.{adbnc_statfs}
use adbncfs.Session.{
  Request, statfs, opendir, readdir, releasedir, getattr, access, open_file, flush, fsync, release,
  read, write, utimens, truncate, mknod, mkdir, rename, rmdir, unlink, readlink, Reply, status,
  space, entries, attributes, opened, bytes, target, serve, serve_all,
}
use adbncfs.Session.Sound.{IsComplete}
use adbncfs.Session.Ensures.{Ensures, Ensures-pure, Ensures-bind, Ensures-reply}
use adbncfs.Session.Answers.{HasPath, Answers, AllAnswer}
use adbncfs.Session.Directories.{
  adbnc_opendir-PrintedNames, adbnc_releasedir-Ensures, adbnc_getattr-Describes,
  adbnc_readdir-Lists,
}
use adbncfs.Session.Calls.{adbnc_access-Grants}
use adbncfs.Session.Files.{
  adbnc_open-Serves, adbnc_flush-Serves, adbnc_fsync-Serves, adbnc_release-Serves,
  adbnc_read-Serves, adbnc_write-Serves, adbnc_truncate-Serves, adbnc_mknod-Serves,
}
use adbncfs.Session.Names.{
  adbnc_mkdir-Ensures, adbnc_rmdir-Ensures, adbnc_utimens-Ensures, adbnc_unlink-Ensures,
  adbnc_rename-Ensures, adbnc_readlink-Ensures, adbnc_statfs-Measures,
}

module _ (env : Env) (command : Text → env.World → List Text × env.World) (first : env.World)
    (u : Option UserInfo) (m : Option MountInfo) (marks : IsMarking env command)
    (whole : IsComplete env command first) {B : Type 0} (filler : B → Text → Stat → ℕ → B × Bool)
    (fresh : B) where
  open env use {World}

  -- The reply that is made from what a callback returns.
  replies :
      {A : Type 0} {Q : A → Type 0} (request : Request) (k : A → Reply B) (p : M World A)
      → Ensures env command first u m Q p
      → ((a : A) → Q a → Answers env command first filler fresh u m request (k a))
      → Ensures env command first u m
          (Answers env command first filler fresh u m request)
          (p >>= λ a. pure (k a))
  replies request k p h g = Ensures-reply env command first u m p k h g

  pub serve-Answers :
      (request : Request)
      → HasPath request
      → Ensures env command first u m
          (Answers env command first filler fresh u m request)
          (serve env filler fresh request)
  unfolding serve
  serve-Answers (statfs path) h =
      replies (statfs path) space (adbnc_statfs env path)
        (adbnc_statfs-Measures env command first u m marks path) (λ r q. (r, refl, q))
  serve-Answers (opendir path) h =
      replies (opendir path) status (adbnc_opendir env path)
        (adbnc_opendir-PrintedNames env command first u m marks path)
        (λ r (names, q, e). (names, q, ap status e))
  serve-Answers (readdir path offset) h =
      replies (readdir path offset) entries (adbnc_readdir env filler path offset fresh)
        (adbnc_readdir-Lists env command first u m marks whole filler fresh path offset)
        (λ r q. (r, refl, q))
  serve-Answers (releasedir path) h =
      replies (releasedir path) status (adbnc_releasedir env path)
        (adbnc_releasedir-Ensures env command first u m marks path) (λ r e. ap status e)
  serve-Answers (getattr path) h =
      replies (getattr path) attributes (adbnc_getattr env path)
        (adbnc_getattr-Describes env command first u m marks whole path) (λ r q. (r, refl, q))
  serve-Answers (access path mask) h =
      replies (access path mask) status (adbnc_access env path mask)
        (adbnc_access-Grants env command first u m marks path mask h)
        (λ r (output, q, e). (output, q, r, e, refl))
  serve-Answers (open_file path fi) h =
      replies (open_file path fi) opened (adbnc_open env path fi)
        (adbnc_open-Serves env command first u m marks path fi h) (λ r q. (r, refl))
  serve-Answers (flush path fi) h =
      replies (flush path fi) status (adbnc_flush env path fi)
        (adbnc_flush-Serves env command first u m marks path fi h) (λ r q. (r, refl))
  serve-Answers (fsync path fi) h =
      replies (fsync path fi) status (adbnc_fsync env path fi)
        (adbnc_fsync-Serves env command first u m marks path fi h) (λ r q. (r, refl))
  serve-Answers (release path fi) h =
      replies (release path fi) status (adbnc_release env path fi)
        (adbnc_release-Serves env command first u m marks path fi) (λ r q. (r, refl))
  serve-Answers (read path size offset fi) h =
      replies (read path size offset fi) bytes (adbnc_read env path size offset fi)
        (adbnc_read-Serves env command first u m marks path size offset fi) (λ r q. (r, refl))
  serve-Answers (write path contents offset fi) h =
      replies (write path contents offset fi) status (adbnc_write env path contents offset fi)
        (adbnc_write-Serves env command first u m marks path contents offset fi) (λ r q. (r, refl))
  serve-Answers (utimens path) h =
      replies (utimens path) status (adbnc_utimens env path)
        (adbnc_utimens-Ensures env command first u m marks path) (λ r e. ap status e)
  serve-Answers (truncate path size) h =
      replies (truncate path size) status (adbnc_truncate env path size)
        (adbnc_truncate-Serves env command first u m marks path size) (λ r q. (r, refl))
  serve-Answers (mknod path mode rdev) h =
      replies (mknod path mode rdev) status (adbnc_mknod env path mode rdev)
        (adbnc_mknod-Serves env command first u m marks path mode rdev h) (λ r q. (r, refl))
  serve-Answers (mkdir path) h =
      replies (mkdir path) status (adbnc_mkdir env path)
        (adbnc_mkdir-Ensures env command first u m marks path) (λ r e. ap status e)
  serve-Answers (rename from to) h =
      replies (rename from to) status (adbnc_rename env from to)
        (adbnc_rename-Ensures env command first u m marks from to) (λ r e. ap status e)
  serve-Answers (rmdir path) h =
      replies (rmdir path) status (adbnc_rmdir env path)
        (adbnc_rmdir-Ensures env command first u m marks path) (λ r e. ap status e)
  serve-Answers (unlink path) h =
      replies (unlink path) status (adbnc_unlink env path)
        (adbnc_unlink-Ensures env command first u m marks path) (λ r e. ap status e)
  serve-Answers (readlink path size) h =
      replies (readlink path size) target (adbnc_readlink env path size)
        (adbnc_readlink-Ensures env command first u m marks path size)
        (λ r (output, q, e). (output, q, ap target (sym e)))

  pub serve_all-AllAnswer :
      (requests : List Request)
      → All HasPath requests
      → Ensures env command first u m
          (AllAnswer env command first filler fresh u m requests)
          (serve_all env filler fresh requests)
  unfolding serve_all
  serve_all-AllAnswer [] h = Ensures-pure env command first u m [] tt
  serve_all-AllAnswer (request ∷ requests) h =
      Ensures-bind env command first u m (serve env filler fresh request) _
        (serve-Answers request h.0)
        λ a q.
          Ensures-reply env command first u m (serve_all env filler fresh requests) (λ rs. a ∷ rs)
            (serve_all-AllAnswer requests h.1) (λ rs r. (q, r))
