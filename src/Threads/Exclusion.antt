-- ===== src/Threads/Exclusion.antt =====
-- What the mutexes and the condition variable of src/adbncfs.cpp bring about, in any interleaving.
use adbncfs.Prelude.{ℕ, ◌≡◌, sym, ap, ◌∙◌, ◌≢◌, true, false, List, [], Text}
use adbncfs.Fs.State.{Env, State, ok}
use adbncfs.Fs.Shell.{exec_command_via_net_cat}
use adbncfs.Fs.Shell.Framing.{IsMarking, exec_command_lem}
use adbncfs.Threads.{Caller, exec_unlock, opendir_test, opendir_wait, System, Reach}
use mathlib.Core.Path.{subst}
use adbncfs.Threads.Invariant.{in_dir, raised, waits, IsFramed}
use adbncfs.Threads.Reached.{Reach-Inv, Reach-Lines}

module _ (env : Env) where
  open env use {World}

  -- In every reached state, no thread waits for the condition, and fInReleaseDirCond is false for
  -- each thread that is at its test in adbnc_opendir.
  pub Reach-never_waits :
      (s : State World) {t : System env}
      → Reach env s t
      → (i : ℕ) (path : Text)
      → (t.pc i ≢ opendir_wait path) × (t.pc i ≡ opendir_test path → t.shared.in_release ≡ false)
  Reach-never_waits s {t} r i path =
      let inv = Reach-Inv env s r in
      (
        (λ e. let w : true ≡ false = sym (ap waits e) ∙ inv.awake i in absurd (cc)),
        λ e. inv.flag i (ap in_dir e) ∙ ap raised e,
      )

  -- In any interleaving, if no output holds the marker, a thread that leaves the loop of
  -- execCommandViaNetCat has the lines that the function returns when it runs alone in the world of
  -- its request, and leaves no line for another thread.
  pub Reach-own_lines :
      (command : Text → World → List Text × World)
      → IsMarking env command
      → (s : State World) {t : System env} → Reach env s t
      → (i : ℕ) (c : Text) (w : World) (k : Caller) (output : List Text)
      → t.pc i ≡ exec_unlock c w k output
      → ((exec_command_via_net_cat env c (record t.shared.state { world = w })).0 ≡ ok output)
        × (t.shared.state.incoming ≡ [])
  Reach-own_lines command marking s {t} r i c w k output e =
      let lines = Reach-Lines env command marking s r in
      let (quiet, own) = subst (IsFramed env command t.shared.state.incoming) e (lines.framed i) in
      let alone =
        exec_command_lem env command marking c (record t.shared.state { world = w }) quiet in
      (ap (λ x. x.0) alone ∙ ap ok (sym own), quiet)
