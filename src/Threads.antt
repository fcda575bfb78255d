-- ===== src/Threads.antt =====
-- The threads in which FUSE runs the callbacks of src/adbncfs.cpp, one access to shared data at a time:
-- `ncCmdMutex` in `execCommandViaNetCat`, `openMutex` in `adbnc_open`, and `inReleaseDirMutex` with
-- its condition variable in `adbnc_opendir` and `adbnc_releasedir`.
pub mod Invariant
pub mod Moves
pub mod Reached
pub mod Exclusion
pub mod Progress
pub mod Released
pub mod Listings
use adbncfs.Prelude.{
  ℕ, zero, suc, ◌+◌, ◌-◌, ◌*◌, ◌/◌, ◌%◌, ◌^◌, ◌≤◌, ◌<◌, ◌≡◌, refl, sym, ap, ◌∙◌, fun_ext, ◌≢◌, ◌↔◌,
  ◌⊎◌, inl, inr, Bool, true, false, not, ◌&&◌, ◌||◌, Option, none, some, List, [], ◌∷◌, ◌++◌, map,
  append-nil, append_assoc, arith, ltb, leb, ◌==◌, ==_iff, ==_refl, ltb→lt, lt→ltb, leb→le, tests,
  if◌then◌else◌, Bool-cases, Option-cases, length, get_elem?, take, drop, is_empty, length-append,
  length-drop, All, All-append, Text, codes, text_eq, text_eq_iff, text_eq_refl, starts_with,
  contains, is_delim,
}
use adbncfs.Prelude.Dict.{find, erase}
use adbncfs.Fs.State.{Env, State}
use adbncfs.Fs.Shell.{done_marker, request}
use adbncfs.Fs.Stat.{quoted}
use adbncfs.Fs.Directories.{add_listing}

-- What runs on behind a command: nothing, `adbnc_opendir`, `adbnc_open`, or the loop of
-- `adbnc_readdir`, whose iterator refers to the listing that it found.
pub data Caller : Type 0 where
  plain : Caller
  opendir : (path : Text) → Caller
  opening : Caller
  readdir : (path : Text) (names : List Text) → Caller

-- Where a thread stands. `sent` is the world in which a request was written: no variable of the
-- program, but kept to say what the lines are to be.
pub data Pc (World : Type 0) : Type 0 where
  idle : Pc World
  -- execCommandViaNetCat
  exec_lock : (command : Text) (k : Caller) → Pc World
  exec_write : (command : Text) (k : Caller) → Pc World
  exec_read : (command : Text) (sent : World) (k : Caller) (output : List Text) → Pc World
  exec_unlock : (command : Text) (sent : World) (k : Caller) (output : List Text) → Pc World
  -- adbnc_opendir
  opendir_lock : (path : Text) → Pc World
  opendir_test : (path : Text) → Pc World
  opendir_wait : (path : Text) → Pc World
  opendir_keep : (path : Text) (output : List Text) → Pc World
  opendir_unlock : Pc World
  -- adbnc_releasedir
  release_lock : (path : Text) → Pc World
  release_set : (path : Text) → Pc World
  release_erase : (path : Text) → Pc World
  release_signal : Pc World
  release_clear : Pc World
  release_unlock : Pc World
  -- adbnc_open, whose body runs commands
  open_lock : Pc World
  open_body : Pc World
  -- adbnc_readdir, whose loop runs commands
  reading : (path : Text) (names : List Text) → Pc World

-- The owners of the three mutexes, `fInReleaseDirCond`, and the other static variables.
pub record Shared (World : Type 0) : Type 0 where
  pub nc_cmd : Option ℕ
  pub open_file : Option ℕ
  pub release_dir : Option ℕ
  pub in_release : Bool
  pub state : State World

-- Where the caller goes on.
abbrev pub resume : {W : Type 0} → Caller → List Text → Pc W
resume plain output = idle
resume (opendir path) output = opendir_keep path output
resume opening output = open_body
resume (readdir path names) output = reading path names

-- An output that is empty is not kept.
abbrev pub keep_output : {W : Type 0} → Text → List Text → State W → State W
keep_output path [] s = s
keep_output path (line ∷ lines) s = record s {
  open_dirs = add_listing s.open_dirs path (line ∷ lines);
}

abbrev pub listing_command : Text → Text
listing_command path = codes "busybox " ++ codes "ls -1a " ++ quoted path

module _ (env : Env) where
  open env use {World, shell}

  -- The request is written, and what is printed for it waits to be read.
  abbrev pub send : Text → State World → State World
  send command s =
      let (printed, w) = shell (request command) s.world in
      record s { incoming = s.incoming ++ printed; world = w }

  -- One step of thread `i`. From `idle` any call may follow, and `open_body` and `reading` may run any
  -- command or leave. A wait for the condition may end at any time, as POSIX allows.
  pub data Move (i : ℕ) (m : Shared World) : Pc World → Shared World → Pc World → Type 0 where
    call : (command : Text) → Move i m idle m (exec_lock command plain)
    lock_nc :
        {c : Text} {k : Caller}
        → m.nc_cmd ≡ none
        → Move i m (exec_lock c k) (record m { nc_cmd = some i }) (exec_write c k)
    write :
        {c : Text} {k : Caller}
        → Move i m
            (exec_write c k)
            (record m { state = send c m.state })
            (exec_read c m.state.world k [])
    read_line :
        {c : Text} {w : World} {k : Caller} {out : List Text} (line : Text) (rest : List Text)
        → m.state.incoming ≡ line ∷ rest
        → contains line done_marker ≡ false
        → Move i m
            (exec_read c w k out)
            (record m { state = record m.state { incoming = rest } })
            (exec_read c w k (out ++ line ∷ []))
    read_marker :
        {c : Text} {w : World} {k : Caller} {out : List Text} (line : Text) (rest : List Text)
        → m.state.incoming ≡ line ∷ rest
        → contains line done_marker ≡ true
        → Move i m
            (exec_read c w k out)
            (record m { state = record m.state { incoming = rest } })
            (exec_unlock c w k out)
    unlock_nc :
        {c : Text} {w : World} {k : Caller} {out : List Text}
        → Move i m (exec_unlock c w k out) (record m { nc_cmd = none }) (resume k out)
    call_opendir : (path : Text) → Move i m idle m (opendir_lock path)
    lock_opendir :
        {p : Text}
        → m.release_dir ≡ none
        → Move i m (opendir_lock p) (record m { release_dir = some i }) (opendir_test p)
    wait :
        {p : Text}
        → m.in_release ≡ true
        → Move i m (opendir_test p) (record m { release_dir = none }) (opendir_wait p)
    wake : {p : Text} → Move i m (opendir_wait p) m (opendir_lock p)
    list :
        {p : Text}
        → m.in_release ≡ false
        → Move i m (opendir_test p) m (exec_lock (listing_command p) (opendir p))
    keep :
        {p : Text} {out : List Text}
        → Move i m
            (opendir_keep p out)
            (record m { state = keep_output p out m.state })
            opendir_unlock
    unlock_opendir : Move i m opendir_unlock (record m { release_dir = none }) idle
    call_releasedir : (path : Text) → Move i m idle m (release_lock path)
    lock_releasedir :
        {p : Text}
        → m.release_dir ≡ none
        → Move i m (release_lock p) (record m { release_dir = some i }) (release_set p)
    set_flag :
        {p : Text} → Move i m (release_set p) (record m { in_release = true }) (release_erase p)
    erase_listing :
        {p : Text}
        → Move i m
            (release_erase p)
            (record m { state = record m.state { open_dirs = erase m.state.open_dirs p } })
            release_signal
    signal : Move i m release_signal m release_clear
    clear_flag : Move i m release_clear (record m { in_release = false }) release_unlock
    unlock_releasedir : Move i m release_unlock (record m { release_dir = none }) idle
    call_open : Move i m idle m open_lock
    lock_open : m.open_file ≡ none → Move i m open_lock (record m { open_file = some i }) open_body
    run_open : (command : Text) → Move i m open_body m (exec_lock command opening)
    unlock_open : Move i m open_body (record m { open_file = none }) idle
    call_readdir :
        (path : Text) (names : List Text)
        → find m.state.open_dirs path ≡ some names
        → Move i m idle m (reading path names)
    run_readdir :
        {p : Text} {names : List Text} (command : Text)
        → Move i m (reading p names) m (exec_lock command (readdir p names))
    end_readdir : {p : Text} {names : List Text} → Move i m (reading p names) m idle

  -- The threads by their numbers.
  abbrev pub Threads : Type 0
  Threads = ℕ → Pc World

  abbrev pub update : Threads → ℕ → Pc World → Threads
  update pc i p j = if j == i then p else pc j

  pub record System : Type 0 where
    pub shared : Shared World
    pub pc : Threads

  pub data Step (s : System) : System → Type 0 where
    pick :
        (i : ℕ) {m : Shared World} {p : Pc World}
        → Move i s.shared (s.pc i) m p
        → Step s (record { shared = m; pc = update s.pc i p })

  -- At the start no mutex has an owner, and no line waits.
  abbrev pub initial : State World → System
  initial s = record {
    shared = record {
      nc_cmd = none;
      open_file = none;
      release_dir = none;
      in_release = false;
      state = record s { incoming = [] };
    };
    pc = λ i. idle;
  }

  pub data Reach (s : State World) : System → Type 0 where
    start : Reach s (initial s)
    later : {t u : System} → Reach s t → Step t u → Reach s u
