-- ===== src/Tests/Threads.antt =====
-- Runs of threads on the device of `World`.
use adbncfs.Prelude.{
  ◌⊎◌, ◌++◌, ℕ, suc, ◌≡◌, refl, ◌≢◌, false, none, some, List, [], ◌∷◌, Text, codes, text_eq,
  contains,
}
use adbncfs.Prelude.Dict.{find}
use adbncfs.Fs.State.{ok}
use adbncfs.Fs.Shell.{exec_command_via_net_cat, adbnc_shell}
use adbncfs.Fs.Stat.{quoted}
use adbncfs.Threads.Listings.{Reach-listings}
use adbncfs.Threads.{
  plain, idle, exec_lock, exec_write, exec_read, exec_unlock, opendir_lock, opendir_test, Shared,
  Threads, update, System, pick, initial, Reach, start, later,
}
use adbncfs.Threads
use adbncfs.Threads.Exclusion.{Reach-never_waits, Reach-own_lines}
use adbncfs.Threads.Progress.{CanStep, Reach-CanStep}
use adbncfs.Threads.Released.{Dangling, Reach-Dangling}
use adbncfs.Tests.World.{env, answer}
use adbncfs.Tests.World
use adbncfs.Tests.Device.{env-IsMarking}

abbrev command : Text → ℕ → List Text × ℕ
command c w = (answer ∷ [], suc w)

abbrev ls : Text
ls = codes "ls"

abbrev dir : Text
dir = codes "/d"

-- Thread 0 runs a command while thread 1 holds the mutex of the directories.
abbrev threads : Threads env
threads =
    let t0 : Threads env = λ i. idle in
    let t1 = update env t0 0 (exec_lock ls plain) in
    let t2 = update env t1 0 (exec_write ls plain) in
    let t3 = update env t2 0 (exec_read ls 0 plain []) in
    let t4 = update env t3 1 (opendir_lock dir) in
    let t5 = update env t4 0 (exec_read ls 0 plain (answer ∷ [])) in
    let t6 = update env t5 1 (opendir_test dir) in
    update env t6 0 (exec_unlock ls 0 plain (answer ∷ []))

abbrev reached : System env
reached = record {
  shared = record {
    nc_cmd = some 0;
    open_file = none;
    release_dir = some 1;
    in_release = false;
    state = record World.start { world = 1 };
  };
  pc = threads;
}

reached-Reach : Reach env World.start reached
unfolding contains
reached-Reach =
    later
      (later
        (later
          (later
            (later (later (later start (pick 0 (Threads.call ls))) (pick 0 (Threads.lock_nc refl)))
              (pick 0 Threads.write))
            (pick 1 (Threads.call_opendir dir)))
          (pick 0 (Threads.read_line _ _ refl refl)))
        (pick 1 (Threads.lock_opendir refl)))
      (pick 0 (Threads.read_marker _ _ refl refl))

Reach-never_waits_example :
    (reached.pc 1 ≢ Threads.opendir_wait dir)
    × (reached.pc 1 ≡ opendir_test dir → reached.shared.in_release ≡ false)
Reach-never_waits_example = Reach-never_waits env World.start reached-Reach 1 dir

Reach-own_lines_example :
    ((exec_command_via_net_cat env ls (record reached.shared.state { world = 0 })).0
      ≡ ok (answer ∷ []))
    × (reached.shared.state.incoming ≡ [])
Reach-own_lines_example =
    Reach-own_lines env command env-IsMarking World.start reached-Reach 0 ls 0 plain (answer ∷ [])
      refl

Reach-CanStep_example : CanStep env reached
Reach-CanStep_example = Reach-CanStep env command env-IsMarking World.start reached-Reach 1 refl

abbrev names : List Text
names = codes "." ∷ codes ".." ∷ codes "a" ∷ codes "b" ∷ []

names_found : find World.start.open_dirs dir ≡ some names
unfolding find text_eq
names_found = refl

Reach-Dangling_example : Dangling env World.start dir names
Reach-Dangling_example = Reach-Dangling env World.start dir names names_found

Reach-listings_example :
    (find World.start.open_dirs dir ≡ some names)
    ⊎ ((w : ℕ) × ((adbnc_shell env
            (codes "ls -1a " ++ quoted dir)
            (record World.start { incoming = []; world = w })).0
          ≡ ok names))
Reach-listings_example =
    Reach-listings env command env-IsMarking World.start reached-Reach dir names names_found
