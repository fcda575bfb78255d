-- ===== src/Fs/Program/Errors.antt =====
-- When `execProg` with stderr, and so `adbncPush`, takes a program for successful.
use adbncfs.Prelude.{
  ℕ, ◌≡◌, refl, ◌↔◌, Bool, true, false, ◌&&◌, ◌||◌, Option, none, some, List, [], ◌∷◌, arith, ◌==◌,
  All, Text, codes, contains,
}
use adbncfs.Prelude.Int.{ℤ, pos}
use adbncfs.Spawn.{wifexited}
use adbncfs.Fs.State.{enoent}
use adbncfs.Fs.Program.{wexitstatus, read_lines, exit_error, prog_result}

-- The messages that the loop looks for.
abbrev tells : Text → Bool
tells line = contains line (codes ": Permission denied") || contains line (codes "does not exist")

-- The program was started, printed none of the messages, and did not exit with ENOENT.
abbrev pub IsClean : Option (List Text × ℕ) → Type 0
IsClean none = ⊥
IsClean (some (lines, status)) =
    All (λ line. tells line ≡ false) lines
    × (wifexited status && wexitstatus status == enoent ≡ false)

read_lines-clean :
    (lines : List Text)
    → All (λ line. tells line ≡ false) lines
    → (read_lines true (pos 0) lines).1 ≡ pos 0
unfolding read_lines
read_lines-clean [] h = refl
read_lines-clean (line ∷ lines) h = ground (arith, h.0, read_lines-clean lines h.1)

read_lines_clean :
    (lines : List Text)
    → (read_lines true (pos 0) lines).1 ≡ pos 0
    → All (λ line. tells line ≡ false) lines
unfolding read_lines
read_lines_clean [] e = tt
read_lines_clean (line ∷ lines) e = (ground (arith, e), read_lines_clean lines (ground (arith, e)))

exit_error-clean :
    (status : ℕ) (error : ℤ)
    → exit_error status error ≡ pos 0
    → (error ≡ pos 0) × (wifexited status && wexitstatus status == enoent ≡ false)
unfolding exit_error
exit_error-clean status error e = (ground (arith, e), ground (arith, e))

-- execProg with stderr leaves 0 in *piError exactly if the program was started, printed no line with
-- ": Permission denied" or "does not exist", and did not exit with status 2.
pub prog_result-zero_iff :
    (r : Option (List Text × ℕ)) → ((prog_result true (pos 0) r).1 ≡ pos 0) ↔ IsClean r
unfolding prog_result exit_error
prog_result-zero_iff none = (λ e. absurd (cc), λ h. absurd h)
prog_result-zero_iff (some (lines, status)) = (
  (λ e. let (z, n) = exit_error-clean status _ e in (read_lines_clean lines z, n)),
  (λ h. let z = read_lines-clean lines h.0 in ground (arith, z, h.1)),
)
