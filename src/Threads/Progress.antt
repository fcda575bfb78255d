-- ===== src/Threads/Progress.antt =====
-- No deadlock: the mutexes are taken in one order, `ncCmdMutex` last, and netcat answers.
use adbncfs.Prelude.{
  ℕ, ◌≡◌, refl, sym, ap, ◌∙◌, ◌≢◌, inl, inr, Bool, true, false, Option, some, List, [], ◌∷◌, ◌++◌,
  append-nil, arith, ==_refl, Bool-cases, Option-cases, Text, contains,
}
use adbncfs.Fs.State.{Env, State}
use adbncfs.Fs.Shell.{done_marker}
use adbncfs.Fs.Shell.Framing.{IsUnmarked, IsMarking, marker_marked}
use adbncfs.Threads.{
  Caller, plain, opendir, opening, readdir, Pc, idle, exec_lock, exec_write, exec_read, exec_unlock,
  opendir_lock, opendir_test, opendir_wait, opendir_keep, opendir_unlock, release_lock, release_set,
  release_erase, release_signal, release_clear, release_unlock, open_lock, open_body, reading,
  Shared, resume, keep_output, Move, Threads, update, System, Step, pick, initial, Reach, start,
  later,
}
use mathlib.Core.Path.{subst}
use adbncfs.Threads
use adbncfs.Threads.Invariant.{owns, in_nc, in_dir, in_open, raised, IsFramed, Inv, Lines}
use adbncfs.Threads.Reached.{Reach-Inv, Reach-Lines}

abbrev pub is_idle : {W : Type 0} → Pc W → Bool
is_idle idle = true
is_idle p = false

-- A list with the marker is not one without.
marked_last :
    (out us : List Text) (last : Text)
    → IsUnmarked out
    → contains last done_marker ≡ true
    → out ≢ us ++ last ∷ []
marked_last [] [] last h m e = absurd (cc)
marked_last [] (u ∷ us) last h m e = absurd (cc)
marked_last (x ∷ out) [] last h m e =
    let same : x ≡ last = cc in absurd (ground (arith, h.0, m, same))
marked_last (x ∷ out) (u ∷ us) last h m e =
    let tails : out ≡ us ++ last ∷ [] = cc in marked_last out us last h.1 m tails

owner_in : (o : Option ℕ) (j : ℕ) (b : Bool) → owns o j ≡ b → o ≡ some j → b ≡ true
owner_in o j b h e = sym h ∙ ap (λ x. owns x j) e ∙ ==_refl j

module _ (env : Env) where
  open env use {World}

  -- A thread that has a call to finish can take a step.
  pub data CanStep (t : System env) : Type 0 where
    can :
        (i : ℕ) {m : Shared World} {p : Pc World}
        → is_idle (t.pc i) ≡ false
        → Move env i t.shared (t.pc i) m p
        → CanStep t

  module _ (t : System env) where
    can_from :
        (i : ℕ) (p : Pc World) {m : Shared World} {p' : Pc World}
        → t.pc i ≡ p
        → is_idle p ≡ false
        → Move env i t.shared p m p'
        → CanStep t
    can_from i p {m} {p'} e n mv =
        can i (ap is_idle e ∙ n) (subst (λ q. Move env i t.shared q m p') (sym e) mv)

    module _ (inv : Inv env t.shared t.pc) (command : Text → World → List Text × World)
        (lines : Lines env command t.shared t.pc) where
      -- The loop over the lines goes on.
      read_can :
          (i : ℕ) (c : Text) (w : World) (k : Caller) (out incoming : List Text)
          → t.pc i ≡ exec_read c w k out
          → t.shared.state.incoming ≡ incoming
          → IsUnmarked out
          → out ++ incoming ≡ (command c w).0 ++ done_marker ∷ []
          → CanStep t
      read_can i c w k out [] e n h f =
          absurd
            (marked_last out (command c w).0 done_marker h marker_marked (sym (append-nil out) ∙ f))
      read_can i c w k out (line ∷ rest) e n h f = elim (Bool-cases (contains line done_marker)) [
        | inl y ↦ can_from i _ e refl (Threads.read_marker line rest n y)
        | inr z ↦ can_from i _ e refl (Threads.read_line line rest n z)
      ]

      IsFramed-thread :
          (i : ℕ) (p : Pc World) → t.pc i ≡ p → IsFramed env command t.shared.state.incoming p
      IsFramed-thread i p e =
          subst (IsFramed env command t.shared.state.incoming) e (lines.framed i)

      -- Who holds `ncCmdMutex` can go on.
      nc_can : (i : ℕ) (p : Pc World) → t.pc i ≡ p → in_nc p ≡ true → CanStep t
      nc_can i (exec_write c k) e h = can_from i _ e refl Threads.write
      nc_can i (exec_read c w k out) e h =
          let f = IsFramed-thread i _ e in
          read_can i c w k out t.shared.state.incoming e refl f.0 f.1
      nc_can i (exec_unlock c w k out) e h = can_from i _ e refl Threads.unlock_nc
      nc_can i p e h = absurd (cc)

      -- A mutex is free, or its owner is in its section.
      exec_can : (i : ℕ) (c : Text) (k : Caller) → t.pc i ≡ exec_lock c k → CanStep t
      exec_can i c k e = elim (Option-cases t.shared.nc_cmd) [
        | inl n ↦ can_from i _ e refl (Threads.lock_nc n)
        | inr (j, o) ↦
            nc_can j (t.pc j) refl (owner_in t.shared.nc_cmd j (in_nc (t.pc j)) (inv.nc j) o)
      ]

      dir_can : (i : ℕ) (p : Pc World) → t.pc i ≡ p → in_dir p ≡ true → CanStep t
      dir_can i (exec_lock c k) e h = exec_can i c k e
      dir_can i (exec_write c k) e h = can_from i _ e refl Threads.write
      dir_can i (exec_read c w k out) e h = nc_can i _ e refl
      dir_can i (exec_unlock c w k out) e h = can_from i _ e refl Threads.unlock_nc
      dir_can i (opendir_test q) e h =
          can_from i _ e refl (Threads.list (inv.flag i (ap in_dir e) ∙ ap raised e))
      dir_can i (opendir_keep q out) e h = can_from i _ e refl Threads.keep
      dir_can i opendir_unlock e h = can_from i _ e refl Threads.unlock_opendir
      dir_can i (release_set q) e h = can_from i _ e refl Threads.set_flag
      dir_can i (release_erase q) e h = can_from i _ e refl Threads.erase_listing
      dir_can i release_signal e h = can_from i _ e refl Threads.signal
      dir_can i release_clear e h = can_from i _ e refl Threads.clear_flag
      dir_can i release_unlock e h = can_from i _ e refl Threads.unlock_releasedir
      dir_can i p e h = absurd (cc)

      open_can : (i : ℕ) (p : Pc World) → t.pc i ≡ p → in_open p ≡ true → CanStep t
      open_can i (exec_lock c k) e h = exec_can i c k e
      open_can i (exec_write c k) e h = can_from i _ e refl Threads.write
      open_can i (exec_read c w k out) e h = nc_can i _ e refl
      open_can i (exec_unlock c w k out) e h = can_from i _ e refl Threads.unlock_nc
      open_can i open_body e h = can_from i _ e refl Threads.unlock_open
      open_can i p e h = absurd (cc)

      all_can : (i : ℕ) (p : Pc World) → t.pc i ≡ p → is_idle p ≡ false → CanStep t
      all_can i (opendir_lock q) e h = elim (Option-cases t.shared.release_dir) [
        | inl n ↦ can_from i _ e refl (Threads.lock_opendir n)
        | inr (j, o) ↦
            dir_can j (t.pc j) refl
              (owner_in t.shared.release_dir j (in_dir (t.pc j)) (inv.dir j) o)
      ]
      all_can i (release_lock q) e h = elim (Option-cases t.shared.release_dir) [
        | inl n ↦ can_from i _ e refl (Threads.lock_releasedir n)
        | inr (j, o) ↦
            dir_can j (t.pc j) refl
              (owner_in t.shared.release_dir j (in_dir (t.pc j)) (inv.dir j) o)
      ]
      all_can i open_lock e h = elim (Option-cases t.shared.open_file) [
        | inl n ↦ can_from i _ e refl (Threads.lock_open n)
        | inr (j, o) ↦
            open_can j (t.pc j) refl
              (owner_in t.shared.open_file j (in_open (t.pc j)) (inv.opn j) o)
      ]
      all_can i (opendir_wait q) e h = can_from i _ e refl Threads.wake
      all_can i (reading q ns) e h = can_from i _ e refl Threads.end_readdir
      all_can i (exec_lock c k) e h = exec_can i c k e
      all_can i (exec_write c k) e h = can_from i _ e refl Threads.write
      all_can i (exec_read c w k out) e h = nc_can i _ e refl
      all_can i (exec_unlock c w k out) e h = can_from i _ e refl Threads.unlock_nc
      all_can i open_body e h = can_from i _ e refl Threads.unlock_open
      all_can i (opendir_test q) e h = dir_can i _ e refl
      all_can i (opendir_keep q out) e h = dir_can i _ e refl
      all_can i opendir_unlock e h = dir_can i _ e refl
      all_can i (release_set q) e h = dir_can i _ e refl
      all_can i (release_erase q) e h = dir_can i _ e refl
      all_can i release_signal e h = dir_can i _ e refl
      all_can i release_clear e h = dir_can i _ e refl
      all_can i release_unlock e h = dir_can i _ e refl
      all_can i idle e h = absurd (cc)

  -- Where no output holds the marker and a thread has a call to finish, some thread that has a call
  -- to finish can take a step, in every reached state.
  pub Reach-CanStep :
      (command : Text → World → List Text × World)
      → IsMarking env command
      → (s : State World) {t : System env} → Reach env s t
      → (i : ℕ) → is_idle (t.pc i) ≡ false
      → CanStep t
  Reach-CanStep command marking s {t} r i h =
      all_can t (Reach-Inv env s r) command (Reach-Lines env command marking s r) i (t.pc i) refl h
