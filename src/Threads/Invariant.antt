-- ===== src/Threads/Invariant.antt =====
-- Who owns which mutex, and what the lines are that wait: true at the start and kept by every step.
use adbncfs.Prelude.{
  ℕ, ◌≡◌, refl, Bool, true, false, Option, none, some, List, [], ◌∷◌, ◌++◌, ◌==◌, Text,
}
use adbncfs.Fs.State.{Env, State}
use adbncfs.Fs.Shell.{done_marker}
use adbncfs.Fs.Shell.Framing.{IsUnmarked}
use adbncfs.Threads.{
  Caller, plain, opendir, opening, readdir, Pc, exec_lock, exec_write, exec_read, exec_unlock,
  opendir_test, opendir_wait, opendir_keep, opendir_unlock, release_set, release_erase,
  release_signal, release_clear, release_unlock, open_body, Shared, resume, Threads, initial,
}

-- The owner of a mutex is this thread.
abbrev pub owns : Option ℕ → ℕ → Bool
owns none i = false
owns (some j) i = j == i

-- The callers that hold a mutex while the command runs.
abbrev pub caller_in_dir : Caller → Bool
caller_in_dir (opendir p) = true
caller_in_dir plain = false
caller_in_dir opening = false
caller_in_dir (readdir p names) = false

abbrev pub caller_in_open : Caller → Bool
caller_in_open opening = true
caller_in_open plain = false
caller_in_open (opendir p) = false
caller_in_open (readdir p names) = false

module _ {W : Type 0} where
  -- The sections of the three mutexes.
  abbrev pub in_nc : Pc W → Bool
  in_nc (exec_write c k) = true
  in_nc (exec_read c w k out) = true
  in_nc (exec_unlock c w k out) = true
  in_nc p = false

  abbrev pub in_dir : Pc W → Bool
  in_dir (exec_lock c k) = caller_in_dir k
  in_dir (exec_write c k) = caller_in_dir k
  in_dir (exec_read c w k out) = caller_in_dir k
  in_dir (exec_unlock c w k out) = caller_in_dir k
  in_dir (opendir_test p) = true
  in_dir (opendir_keep p out) = true
  in_dir opendir_unlock = true
  in_dir (release_set p) = true
  in_dir (release_erase p) = true
  in_dir release_signal = true
  in_dir release_clear = true
  in_dir release_unlock = true
  in_dir p = false

  abbrev pub in_open : Pc W → Bool
  in_open (exec_lock c k) = caller_in_open k
  in_open (exec_write c k) = caller_in_open k
  in_open (exec_read c w k out) = caller_in_open k
  in_open (exec_unlock c w k out) = caller_in_open k
  in_open open_body = true
  in_open p = false

  -- Where `fInReleaseDirCond` is true.
  abbrev pub raised : Pc W → Bool
  raised (release_erase p) = true
  raised release_signal = true
  raised release_clear = true
  raised p = false

  abbrev pub waits : Pc W → Bool
  waits (opendir_wait p) = true
  waits p = false

module _ (W : Type 0) (out : List Text) where
  pub in_nc-resume : (k : Caller) → in_nc (resume {W = W} k out) ≡ false
  in_nc-resume plain = refl
  in_nc-resume (opendir q) = refl
  in_nc-resume opening = refl
  in_nc-resume (readdir q ns) = refl

  pub in_dir-resume : (k : Caller) → in_dir (resume {W = W} k out) ≡ caller_in_dir k
  in_dir-resume plain = refl
  in_dir-resume (opendir q) = refl
  in_dir-resume opening = refl
  in_dir-resume (readdir q ns) = refl

  pub in_open-resume : (k : Caller) → in_open (resume {W = W} k out) ≡ caller_in_open k
  in_open-resume plain = refl
  in_open-resume (opendir q) = refl
  in_open-resume opening = refl
  in_open-resume (readdir q ns) = refl

  pub raised-resume : (k : Caller) → raised (resume {W = W} k out) ≡ false
  raised-resume plain = refl
  raised-resume (opendir q) = refl
  raised-resume opening = refl
  raised-resume (readdir q ns) = refl

  pub waits-resume : (k : Caller) → waits (resume {W = W} k out) ≡ false
  waits-resume plain = refl
  waits-resume (opendir q) = refl
  waits-resume opening = refl
  waits-resume (readdir q ns) = refl

module _ (env : Env) where
  open env use {World}

  -- Each mutex belongs to the thread in its section, and `fInReleaseDirCond` is true only while
  -- `adbnc_releasedir` holds the mutex.
  pub record Inv (m : Shared World) (pc : Threads env) : Type 0 where
    pub nc : (i : ℕ) → owns m.nc_cmd i ≡ in_nc (pc i)
    pub dir : (i : ℕ) → owns m.release_dir i ≡ in_dir (pc i)
    pub opn : (i : ℕ) → owns m.open_file i ≡ in_open (pc i)
    pub free_flag : m.release_dir ≡ none → m.in_release ≡ false
    pub flag : (i : ℕ) → in_dir (pc i) ≡ true → m.in_release ≡ raised (pc i)
    pub awake : (i : ℕ) → waits (pc i) ≡ false

  pub initial-Inv : (s : State World) → Inv (initial env s).shared (initial env s).pc
  initial-Inv s = record {
    nc = λ i. refl;
    dir = λ i. refl;
    opn = λ i. refl;
    free_flag = λ e. refl;
    flag = λ i e. cc;
    awake = λ i. refl;
  }

  module _ (command : Text → World → List Text × World) where
    -- What the position of a thread says of the lines that wait.
    abbrev pub IsFramed : List Text → Pc World → Type 0
    IsFramed incoming (exec_write c k) = incoming ≡ []
    IsFramed incoming (exec_read c w k out) =
        IsUnmarked out × (out ++ incoming ≡ (command c w).0 ++ done_marker ∷ [])
    IsFramed incoming (exec_unlock c w k out) = (incoming ≡ []) × (out ≡ (command c w).0)
    IsFramed incoming p = Unit

    pub IsFramed-out : (incoming : List Text) (p : Pc World) → in_nc p ≡ false → IsFramed incoming p
    IsFramed-out incoming (exec_write c k) e = cc
    IsFramed-out incoming (exec_read c w k out) e = absurd (cc)
    IsFramed-out incoming (exec_unlock c w k out) e = absurd (cc)
    IsFramed-out incoming p e = tt

    -- No line waits while nobody runs a command, and the lines of a running command are its own.
    pub record Lines (m : Shared World) (pc : Threads env) : Type 0 where
      pub quiet : m.nc_cmd ≡ none → m.state.incoming ≡ []
      pub framed : (i : ℕ) → IsFramed m.state.incoming (pc i)

    pub initial-Lines : (s : State World) → Lines (initial env s).shared (initial env s).pc
    initial-Lines s = record { quiet = λ e. refl; framed = λ i. tt }
