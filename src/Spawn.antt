-- ===== src/Spawn.antt =====
-- src/spawn.cpp and src/spawn.h: the parent's ends of the two pipes to a child process, and the loop
-- that waits for its end. A descriptor table is the list of the descriptors that the process has open.
pub mod Waiting
pub mod Descriptors
pub mod Child
use adbncfs.Prelude.{
  ℕ, zero, suc, ◌+◌, ◌-◌, ◌*◌, ◌/◌, ◌%◌, ◌^◌, ◌≤◌, ◌<◌, ◌≡◌, refl, sym, ap, ◌∙◌, fun_ext, ◌≢◌, ◌↔◌,
  ◌⊎◌, inl, inr, Bool, true, false, not, ◌&&◌, ◌||◌, Option, none, some, List, [], ◌∷◌, ◌++◌, map,
  append-nil, append_assoc, arith, ltb, leb, ◌==◌, ==_iff, ==_refl, ltb→lt, lt→ltb, leb→le, tests,
  if◌then◌else◌, Bool-cases, Option-cases, length, get_elem?, take, drop, is_empty, length-append,
  length-drop, All, All-append, Text, codes, text_eq, text_eq_iff, text_eq_refl, starts_with,
  contains, is_delim,
}

-- The descriptors that are open. A descriptor is not in it twice.
abbrev pub Table : Type 0
Table = List ℕ

unfoldable pub is_open : Table → ℕ → Bool
is_open [] fd = false
is_open (x ∷ t) fd = x == fd || is_open t fd

-- `::close(fd)`. A descriptor that is not open is no change (EBADF).
unfoldable pub close : Table → ℕ → Table
close [] fd = []
close (x ∷ t) fd = let rest = close t fd in if x == fd then rest else x ∷ rest

-- `Cpipe`: the descriptors that `::pipe` gives, to read from and to write to.
pub record Cpipe : Type 0 where
  pub read_fd : ℕ
  pub write_fd : ℕ

-- `Cpipe::close`, which the destructor calls too.
unfoldable pub close_pipe : Table → Cpipe → Table
unfolding close
close_pipe t p = close (close t p.read_fd) p.write_fd

-- `Spawn`, in the parent: the two pipes, in the order in which they are members.
pub record Spawn : Type 0 where
  pub write_pipe : Cpipe
  pub read_pipe : Cpipe

-- The part of the constructor that runs in the parent, on the table with the four ends open. The two
-- buffers take over the ends that stay open.
unfoldable pub parent_ends : Table → Spawn → Table
unfolding close
parent_ends t s = close (close t s.write_pipe.read_fd) s.read_pipe.write_fd

-- `sendEof`: the buffer closes its descriptor.
unfoldable pub send_eof : Table → Spawn → Table
unfolding close
send_eof t s = close t s.write_pipe.write_fd

-- The destructor. The write buffer closes its descriptor if `sendEof` has not closed it before; then
-- the read buffer closes its own, and the members are destroyed, the last one first.
unfoldable pub destroy : Bool → Table → Spawn → Table
unfolding close close_pipe send_eof
destroy eof_sent t s =
    let written = if eof_sent then t else send_eof t s in
    close_pipe (close_pipe (close written s.read_pipe.read_fd) s.read_pipe) s.write_pipe

-- `WIFEXITED` and `WIFSIGNALED`
abbrev pub wifexited : ℕ → Bool
wifexited status = status % 128 == 0

abbrev pub wifsignaled : ℕ → Bool
wifsignaled status = not (status % 128 == 0) && not (status % 128 == 127)

-- `EXIT_FAILURE`
abbrev pub exit_failure : ℕ
exit_failure = 1

-- `Spawn::wait`, given what `waitpid` reports call by call: a status, or `none` for -1. The result is
-- `none` while the loop still runs behind these reports.
unfoldable pub wait : List (Option ℕ) → Option ℕ
wait [] = none
wait (none ∷ reports) = some exit_failure
wait (some status ∷ reports) =
    let rest = wait reports in if wifexited status || wifsignaled status then some status else rest
