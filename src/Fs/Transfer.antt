-- ===== src/Fs/Transfer.antt =====
-- `adbncPushPullCmd`, `adbncPull` and `adbncPush`: files between the device and the host.
pub mod Results
use adbncfs.Prelude.{Bool, true, false, List, [], ◌∷◌, if◌then◌else◌, Text, codes}
use adbncfs.Prelude.Int.{ℤ, pos}
use adbncfs.Path.{parent}
use adbncfs.Fs.State.{Env, M, pure, ◌>>=◌, when_ok}
use adbncfs.Fs.Access.{adbnc_access, w_ok, r_ok}
use adbncfs.Fs.Program.{exec_prog}

-- `argv`
abbrev pub push_pull_argv : Bool → Text → Text → List Text
push_pull_argv push local remote =
    codes "adb"
    ∷ (if push then codes "push" else codes "pull")
    ∷ (if push then local else remote)
    ∷ (if push then remote else local)
    ∷ []

module _ (env : Env) where
  open env use {World}

  -- `adbncPushPullCmd`: a push wants write access to the directory, a pull read access to the file.
  unfoldable pub adbnc_push_pull_cmd : Bool → Text → Text → M World ℤ
  adbnc_push_pull_cmd push local remote = do
    allowed ←
        adbnc_access env (if push then parent remote else remote) (if push then w_ok else r_ok)
    when_ok allowed
        (do run ← exec_prog env (push_pull_argv push local remote) true (pos 0); pure run.1)

  -- `adbncPull`
  unfoldable pub adbnc_pull : Text → Text → M World ℤ
  unfolding adbnc_push_pull_cmd
  adbnc_pull remote local = adbnc_push_pull_cmd false local remote

  -- `adbncPush`
  unfoldable pub adbnc_push : Text → Text → M World ℤ
  unfolding adbnc_push_pull_cmd
  adbnc_push local remote = adbnc_push_pull_cmd true local remote
