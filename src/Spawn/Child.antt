-- ===== src/Spawn/Child.antt =====
-- The child's side of `Spawn::Spawn` in src/spawn.cpp: which files its descriptors stand for when the
-- program is run, and what it does if there is no such program.
use adbncfs.Prelude.{
  ℕ, ◌%◌, ◌<◌, ◌≡◌, ap, ◌∙◌, ◌≢◌, Bool, true, false, not, Option, none, some, List, ◌∷◌, ◌++◌,
  arith, ◌==◌, ==_iff, if◌then◌else◌, Text, codes,
}
use adbncfs.Spawn.{Cpipe, Spawn}
use adbncfs.Spawn.Descriptors.{is_end}

-- What each open descriptor of a process stands for.
abbrev pub Files : Type 0
Files = ℕ → Option ℕ

abbrev pub set_file : Files → ℕ → Option ℕ → Files
set_file files fd file d = if d == fd then file else files d

abbrev dup_file : Files → ℕ → Option ℕ → Files
dup_file files new none = files
dup_file files new (some file) = set_file files new (some file)

-- `::dup2(old, new)`, which changes nothing if `old` is not open (EBADF)
abbrev pub dup2 : Files → ℕ → ℕ → Files
dup2 files old new = dup_file files new (files old)

-- `Cpipe::close`
abbrev pub close_ends : Files → Cpipe → Files
close_ends files p = set_file (set_file files p.read_fd none) p.write_fd none

-- `STDOUT_FILENO` or `STDERR_FILENO`: what the parent reads
abbrev pub piped : Bool → ℕ
piped use_stderr = if use_stderr then 2 else 1

-- The part of the constructor that runs in the child before the program.
unfoldable pub child_files : Bool → Files → Spawn → Files
child_files use_stderr files s =
    let input = dup2 files s.write_pipe.read_fd 0 in
    let output = dup2 input s.read_pipe.write_fd (piped use_stderr) in
    close_ends (close_ends output s.write_pipe) s.read_pipe

-- The calls that replace the program.
pub data Exec : Type 0 where
  execvpe : (argv envp : List Text) → Exec
  execvp : (argv : List Text) → Exec
  execve : (argv envp : List Text) → Exec
  execv : (argv : List Text) → Exec

-- Which of them is made, given `fWithPath` and `envp`.
unfoldable pub exec_call : Bool → List Text → Option (List Text) → Exec
exec_call true argv (some envp) = execvpe argv envp
exec_call true argv none = execvp argv
exec_call false argv (some envp) = execve argv envp
exec_call false argv none = execv argv

-- What becomes of the child: it runs the program with these files, or it has written a line to a
-- descriptor and ended with a status.
pub data Outcome : Type 0 where
  runs : Exec → Files → Outcome
  exits : (fd : ℕ) (file : Option ℕ) (line : Text) (status : ℕ) → Outcome

-- The end of the constructor in the child, given `exec` with the errno of a call that returns. The
-- message goes to `cout` if stderr is piped, and to `cerr` if stdout is.
unfoldable pub run_child :
    (ℕ → Text)
    → (Exec → Option ℕ)
    → Bool
    → Bool
    → Text
    → List Text
    → Option (List Text)
    → Files
    → Outcome
unfolding exec_call
run_child to_string exec use_stderr with_path program argv envp files =
    elim (exec (exec_call with_path (program ∷ argv) envp)) [
      | none ↦ runs (exec_call with_path (program ∷ argv) envp) files
      | some errno ↦
          let fd = piped (not use_stderr) in
          exits fd (files fd)
            (codes "Error: Failed to launch program \""
              ++ program
              ++ codes "\" Error: "
              ++ to_string errno)
            (errno % 256)
    ]

-- If the two ends that the child takes over are open and the second is not descriptor 0, then in the
-- child each descriptor that has the number of an end of one of the two pipes is closed, also if it
-- is that of its input or output, which the child then does not have; of the other descriptors, its
-- output (or its errors) goes to the pipe that the parent reads, its input comes from the pipe that
-- the parent writes to, and each further one is the parent's.
pub child_files_lem :
    (use_stderr : Bool) (files : Files) (s : Spawn) (input output d : ℕ)
    → files s.write_pipe.read_fd ≡ some input
    → files s.read_pipe.write_fd ≡ some output
    → s.read_pipe.write_fd ≢ 0
    → child_files use_stderr files s d ≡ (
        if is_end s d
        then none
        else (if d == piped use_stderr
            then some output
            else if d == 0
            then some input
            else files d))
unfolding child_files
child_files_lem use_stderr files s input output d i o n =
    let clear : (s.read_pipe.write_fd == 0) ≡ false = ground (arith, n) in
    rw i (
      rw clear (
        rw o (
          ground (
            arith,
            ==_iff d s.write_pipe.read_fd,
            ==_iff d s.write_pipe.write_fd,
            ==_iff d s.read_pipe.read_fd,
            ==_iff d s.read_pipe.write_fd,
          ))))

unread :
    (use_stderr : Bool) (files : Files) (s : Spawn) (input output : ℕ)
    → files s.write_pipe.read_fd ≡ some input
    → files s.read_pipe.write_fd ≡ some output
    → 2 < s.write_pipe.read_fd
    → 2 < s.write_pipe.write_fd
    → 2 < s.read_pipe.read_fd
    → 2 < s.read_pipe.write_fd
    → child_files use_stderr files s (piped (not use_stderr)) ≡ files (piped (not use_stderr))
unread true files s input output i o a b c d =
    child_files_lem true files s input output 1 i o (ground (arith, d)) ∙ ground (arith, a, b, c, d)
unread false files s input output i o a b c d =
    child_files_lem false files s input output 2 i o (ground (arith, d))
    ∙ ground (arith, a, b, c, d)

-- If the program cannot be run, the child writes its message to a descriptor that the parent does not
-- read, and ends with the errno, less what does not fit into a byte.
pub run_child_fails :
    (to_string : ℕ → Text) (exec : Exec → Option ℕ) (use_stderr with_path : Bool) (program : Text)
    (argv : List Text) (envp : Option (List Text)) (files : Files) (s : Spawn)
    (input output errno : ℕ)
    → files s.write_pipe.read_fd ≡ some input
    → files s.read_pipe.write_fd ≡ some output
    → exec (exec_call with_path (program ∷ argv) envp) ≡ some errno
    → 2 < s.write_pipe.read_fd
    → 2 < s.write_pipe.write_fd
    → 2 < s.read_pipe.read_fd
    → 2 < s.read_pipe.write_fd
    → run_child to_string exec use_stderr with_path program argv envp
        (child_files use_stderr files s)
      ≡ exits
          (piped (not use_stderr))
          (files (piped (not use_stderr)))
          (codes "Error: Failed to launch program \""
            ++ program
            ++ codes "\" Error: "
            ++ to_string errno)
          (errno % 256)
unfolding run_child
run_child_fails to_string exec use_stderr with_path program argv envp files s input output errno i o
      f a b c d =
    let line =
      codes "Error: Failed to launch program \""
      ++ program
      ++ codes "\" Error: "
      ++ to_string errno in
    rw (f, run_child)
      (ap (λ file. exits (piped (not use_stderr)) file line (errno % 256))
        (unread use_stderr files s input output i o a b c d))
