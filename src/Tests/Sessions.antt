-- ===== src/Tests/Sessions.antt =====
-- A session on the device of `World`, behind a start of the program.
use adbncfs.Prelude.{
  ℕ, suc, ◌≤◌, ◌≡◌, refl, ap, Bool, false, List, [], ◌∷◌, arith, length, All, Text, codes,
  starts_with, contains,
}
use mathlib.Core.Path.{subst}
use adbncfs.Prelude.Int.{pos}
use adbncfs.Strings.Numbers
use adbncfs.Strings.Tokens.{tokenize}
use adbncfs.Fs.State.{State, ok}
use adbncfs.Prelude.Dict.{find}
use adbncfs.FileStatus.{is_pending_open}
use adbncfs.Fs.Shell.{adbnc_shell, exec_command_via_net_cat}
use adbncfs.Fs.Shell.Framing.{IsMarking}
use adbncfs.Fs.Stat.{stat_result}
use adbncfs.Fs.Attributes.{Stat, adbnc_getattr}
use adbncfs.Fs.Names.{adbnc_rename}
use adbncfs.Device
use adbncfs.Main.{set_up}
use adbncfs.Session.{
  Request, Reply, status, opendir, readdir, releasedir, getattr, access, mkdir, rename, readlink,
  serve, serve_all,
}
use adbncfs.Session.Sound.{IsComplete}
use adbncfs.Session.Answers.{HasPath, AllAnswer}
use adbncfs.Session.Started.{IsFresh}
use adbncfs.Session.Answered.{set_up-AllAnswer}
use adbncfs.Session.Forgets.{HasErrno, asked}
use adbncfs.Session.Changed.{changed, serve-asked}
use adbncfs.Tests.World.{answer, env, start}
use adbncfs.Tests.Startup.{host}

abbrev command : Text → ℕ → List Text × ℕ
command c w = (answer ∷ [], suc w)

abbrev filler : List Text → Text → Stat → ℕ → List Text × Bool
filler names name attributes next = (name ∷ names, false)

abbrev begin : State ℕ
begin = record start { net_cat = false; open_dirs = [] }

begin-IsFresh : IsFresh begin
begin-IsFresh = record { cache = refl; dirs = refl; lines = refl }

begin_runs : (set_up host begin).0 ≡ ok (pos 0)
unfolding set_up Device.make_temp_dir Device.is_android_device_connected
    Device.set_android_port_forwarding contains Device.android_start_netcat Numbers.stoi
    Device.query_user_info Device.query_mount_info Device.init_net_cat
begin_runs = refl

abbrev begun : State ℕ
begun = (set_up host begin).1

host-IsMarking : IsMarking host command
unfolding contains starts_with
host-IsMarking c w = (refl, (refl, tt))

answer-long : 15 ≤ length (stat_result (answer ∷ [])).1
unfolding stat_result tokenize
answer-long = omega arith

host-IsComplete : IsComplete host command begun.world
host-IsComplete path output (w, l, e) z =
    subst (λ (o : List Text). 15 ≤ length (stat_result o).1) e answer-long

abbrev dir : Text
dir = codes "/d"

dir-HasPath : HasPath (access dir 4)
dir-HasPath = (codes "d" ∷ [], ((cc, ground arith), tt), refl)

abbrev requests : List Request
requests =
    mkdir dir
    ∷ opendir dir
    ∷ readdir dir 0
    ∷ getattr dir
    ∷ access dir 4
    ∷ readlink dir 9
    ∷ releasedir dir
    ∷ []

requests-HasPath : All HasPath requests
requests-HasPath = (tt, (tt, (tt, (tt, (dir-HasPath, (tt, (tt, tt)))))))

set_up-AllAnswer_example :
    (replies : List (Reply (List Text))) × (v : State ℕ) × (serve_all host filler [] requests begun
      ≡ (ok replies, v))
    × AllAnswer host command begun.world filler [] begun.user_info begun.mount_info requests replies
set_up-AllAnswer_example =
    set_up-AllAnswer host command filler [] requests begin begun begin-IsFresh
      (ap (λ r. (r, begun)) begin_runs) host-IsMarking host-IsComplete requests-HasPath

env-HasErrno : HasErrno env
env-HasErrno = record {
  truncate = λ path n w e. cc;
  mknod = λ path mode rdev w e. cc;
  fsync = λ fd w e. cc;
}

abbrev renamed : State ℕ
renamed = (serve env filler [] (rename (codes "/a") (codes "/b")) start).1

rename_runs : (serve env filler [] (rename (codes "/a") (codes "/b")) start).0 ≡ ok (status (pos 0))
unfolding serve adbnc_rename adbnc_shell exec_command_via_net_cat is_pending_open find
rename_runs = refl

serve-asked_example :
    All
      (λ path. (adbnc_getattr env path renamed).0 ≡ asked env path renamed)
      (changed start (rename (codes "/a") (codes "/b")))
serve-asked_example =
    serve-asked env filler [] (rename (codes "/a") (codes "/b")) start renamed env-HasErrno tt
      (ap (λ r. (r, renamed)) rename_runs)
