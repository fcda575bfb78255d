-- ===== src/Fs/Program.antt =====
-- `execProg`: a program of the host, the lines that it prints, and the error that they stand for.
pub mod Errors
use adbncfs.Prelude.{
  ℕ, ◌/◌, ◌%◌, Bool, ◌&&◌, Option, none, some, List, [], ◌∷◌, ◌==◌, if◌then◌else◌, Text, codes,
  contains,
}
use adbncfs.Prelude.Int.{ℤ, pos, neg}
use adbncfs.Spawn.{wifexited}
use adbncfs.Fs.State.{Env, M, ok, eacces, enoent, eio}

-- `WEXITSTATUS` of a status that `wait` gives.
abbrev pub wexitstatus : ℕ → ℕ
wexitstatus status = status / 256 % 256

-- The loop over the lines, up to one that tells of an error on stderr. What is read, and the error,
-- which stays as it was if there is none.
unfoldable pub read_lines : Bool → ℤ → List Text → List Text × ℤ
read_lines use_stderr error [] = ([], error)
read_lines use_stderr error (line ∷ lines) =
    let (out, error') = read_lines use_stderr error lines in
    if use_stderr && contains line (codes ": Permission denied")
    then ([], neg eacces)
    else if use_stderr && contains line (codes "does not exist")
    then ([], neg enoent)
    else (line ∷ out, error')

-- A program that is not found exits with ENOENT, which is taken as it is, without a minus sign.
unfoldable pub exit_error : ℕ → ℤ → ℤ
exit_error status error =
    if wifexited status then (if wexitstatus status == enoent then pos enoent else error) else error

-- What is made of the lines and the status, or of the exception that `Spawn` throws.
unfoldable pub prog_result : Bool → ℤ → Option (List Text × ℕ) → List Text × ℤ
unfolding read_lines exit_error
prog_result use_stderr error none = ([], neg eio)
prog_result use_stderr error (some (lines, status)) =
    let (out, error') = read_lines use_stderr error lines in (out, exit_error status error')

module _ (env : Env) where
  open env use {World, spawn}

  -- `execProg`, with what `*piError` holds before; a caller that passes NULL ignores the second part.
  unfoldable pub exec_prog : List Text → Bool → ℤ → M World (List Text × ℤ)
  unfolding prog_result
  exec_prog argv use_stderr error s =
      let (spawned, w) = spawn argv use_stderr s.world in
      (ok (prog_result use_stderr error spawned), record s { world = w })
