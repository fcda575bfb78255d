-- ===== src/Spawn/Waiting.antt =====
-- When `Spawn::wait` returns, and what.
use adbncfs.Prelude.{
  ℕ, ◌≡◌, sym, ap, true, false, ◌||◌, Option, none, some, List, [], ◌∷◌, ◌++◌, All,
}
use adbncfs.Spawn.{wifexited, wifsignaled, exit_failure, wait}

-- A report of a child that has only stopped or gone on.
abbrev pub IsRunning : Option ℕ → Type 0
IsRunning none = ⊥
IsRunning (some status) = (wifexited status || wifsignaled status) ≡ false

-- A report of a child that has ended, or of an error, and what `wait` makes of it.
abbrev pub Ends : Option ℕ → ℕ → Type 0
Ends none result = result ≡ exit_failure
Ends (some status) result = ((wifexited status || wifsignaled status) ≡ true) × (result ≡ status)

-- The loop passes over the reports that the child stopped or went on, however many there are, and
-- returns at the first other report: its status, or EXIT_FAILURE if `waitpid` failed.
pub wait-Ends :
    (running rest : List (Option ℕ)) (report : Option ℕ) (result : ℕ)
    → All IsRunning running
    → Ends report result
    → wait (running ++ report ∷ rest) ≡ some result
unfolding wait
wait-Ends [] rest none result h e = ap some (sym e)
wait-Ends [] rest (some status) result h e = rw e.0 (ap some (sym e.1))
wait-Ends (none ∷ running) rest report result h e = elim h.0 [ ]
wait-Ends (some status ∷ running) rest report result h e =
    rw h.0 (wait-Ends running rest report result h.1 e)
