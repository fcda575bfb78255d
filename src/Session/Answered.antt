-- ===== src/Session/Answered.antt =====
-- A session from the start of the program on.
use adbncfs.Prelude.{ℕ, ◌≡◌, refl, Bool, List, arith, All, Text}
use adbncfs.Prelude.Int.{pos}
use adbncfs.Prelude.Dict.{find}
use adbncfs.Fs.State.{Env, State, ok}
use adbncfs.Fs.Shell.Framing.{IsMarking}
use adbncfs.Fs.Attributes.{Stat}
use adbncfs.Main.{set_up}
use adbncfs.Session.{Request, Reply, serve_all}
use adbncfs.Session.Sound.{now, IsComplete, IsSound}
use adbncfs.Session.Answers.{HasPath, AllAnswer}
use adbncfs.Session.Served.{serve_all-AllAnswer}
use adbncfs.Session.Started.{IsFresh, set_up-IsFresh}

module _ (env : Env) where
  open env use {World}

  fresh-IsSound :
      (command : Text → World → List Text × World) (s : State World)
      → IsFresh s
      → IsSound env command s.world s.user_info s.mount_info s
  unfolding find
  fresh-IsSound command s h = record {
    quiet = h.lines;
    cached = λ path e f. absurd (ground (arith, h.cache, f));
    listed = λ path output f. absurd (ground (arith, h.dirs, f));
    same_user = refl;
    same_mounts = refl;
    later = now;
  }

  -- Once initAdbncFs has set the program up, with nothing in the cache, no open directory and no line
  -- from netcat, FUSE may ask for anything in any order, with absolute paths for access, open, flush,
  -- fsync and mknod: if the device ends each output with the marker, and no output that doStat
  -- accepts has less than 15 tokens, no callback ends in a fault, each request has its reply, and
  -- what getattr, access, readlink, opendir, readdir and statfs reply is what the source makes of
  -- lines that the device prints for that path in a world that calls of the kinds that the
  -- callbacks make lead to from the end of the start on, also if they come from the cache or from an
  -- open directory.
  pub set_up-AllAnswer :
      (command : Text → World → List Text × World) {B : Type 0}
      (filler : B → Text → Stat → ℕ → B × Bool) (fresh : B) (requests : List Request)
      (s t : State World)
      → IsFresh s
      → set_up env s ≡ (ok (pos 0), t)
      → IsMarking env command
      → IsComplete env command t.world
      → All HasPath requests
      → (replies : List (Reply B)) × (v : State World) × (serve_all env filler fresh requests t
          ≡ (ok replies, v))
        × AllAnswer env command t.world filler fresh t.user_info t.mount_info requests replies
  set_up-AllAnswer command filler fresh requests s t h e marks whole paths =
      let g = set_up-IsFresh env s t (pos 0) h e in
      let (replies, v, served, sound, q) =
        (serve_all-AllAnswer env command t.world t.user_info t.mount_info marks whole filler fresh
            requests paths).at
          t (fresh-IsSound command t g) in
      (replies, v, served, q)
