-- ===== src/Spawn/Descriptors.antt =====
-- What the parent's descriptor table holds behind the life of a `Spawn`.
use adbncfs.Prelude.{ℕ, ◌≡◌, ◌∙◌, Bool, false, ◌||◌, [], ◌∷◌, arith, ◌==◌, ==_iff, if◌then◌else◌}
use adbncfs.Spawn.{Table, is_open, close, close_pipe, Cpipe, Spawn, send_eof, destroy}

-- One of the four ends of the pipes.
abbrev pub is_end : Spawn → ℕ → Bool
is_end s fd =
    (s.write_pipe.read_fd == fd || s.write_pipe.write_fd == fd)
    || (s.read_pipe.read_fd == fd || s.read_pipe.write_fd == fd)

is_open-close :
    (t : Table) (fd x : ℕ) → is_open (close t fd) x ≡ (if fd == x then false else is_open t x)
unfolding is_open close
is_open-close [] fd x = ground arith
is_open-close (y ∷ t) fd x =
    ground (arith, is_open-close t fd x, ==_iff y fd, ==_iff y x, ==_iff fd x)

is_open-close_pipe :
    (t : Table) (p : Cpipe) (x : ℕ)
    → is_open (close_pipe t p) x
      ≡ (if p.read_fd == x || p.write_fd == x then false else is_open t x)
unfolding close_pipe
is_open-close_pipe t p x =
    is_open-close (close t p.read_fd) p.write_fd x ∙ ground (arith, is_open-close t p.read_fd x)

-- When a child process is over, no end of its pipes is left open in the parent, whether or not the
-- end of the input was sent, and of what was open before only the ends of the pipes are closed. What
-- is opened between the two, under a number of an end that is already closed, is closed with them.
pub destroy_closes :
    (s : Spawn) (sent : Bool) (t : Table) (fd : ℕ)
    → is_open (destroy sent t s) fd ≡ (if is_end s fd then false else is_open t fd)
unfolding destroy send_eof
destroy_closes s sent t fd =
    let w = s.write_pipe in
    let r = s.read_pipe in
    let written = if sent then t else close t w.write_fd in
    let both = close_pipe (close written r.read_fd) r in
    is_open-close_pipe both w fd
    ∙ ground (
      arith,
      is_open-close_pipe (close written r.read_fd) r fd,
      is_open-close written r.read_fd fd,
      is_open-close t w.write_fd fd,
    )
