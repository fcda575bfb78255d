-- ===== src/Threads/Reached.antt =====
-- What holds in every state that the threads reach.
use adbncfs.Prelude.{
  ℕ, ◌≡◌, sym, ◌∙◌, ◌≢◌, ◌⊎◌, inl, inr, true, false, Option, List, arith, ◌==◌, ==_iff, Bool-cases,
  Text,
}
use adbncfs.Fs.State.{Env, State}
use adbncfs.Fs.Shell.Framing.{IsMarking}
use adbncfs.Threads.{Pc, Shared, Move, Threads, update, System, pick, Reach, start, later}
use mathlib.Core.Path.{subst}
use adbncfs.Threads.Invariant.{
  owns, in_nc, in_dir, in_open, raised, waits, IsFramed, IsFramed-out, Inv,
}
use adbncfs.Threads.Invariant.{initial-Inv, Lines, initial-Lines}
use adbncfs.Threads.Moves.{
  Move-nc, Move-dir, Move-open, Move-nc_other, Move-dir_other, Move-open_other, Move-free_flag,
  Move-flag, Move-flag_other, Move-awake, Move-incoming, Move-quiet, Move-IsFramed,
}

==-ne : (j i : ℕ) → (j == i) ≡ false → j ≢ i
==-ne j i e q = let same : (j == i) ≡ true = (==_iff j i).1 q in absurd (cc)

owns_one : (o : Option ℕ) (i j : ℕ) → j ≢ i → owns o i ≡ true → owns o j ≡ false
owns_one o i j n e = ground arith

-- What holds of the moved thread and of each other holds of all.
pub update_all :
    (env : Env) (P : ℕ → Pc env.World → Type 0) (pc : Threads env) (i : ℕ) (p : Pc env.World)
    → P i p
    → ((j : ℕ) → j ≢ i → P j (pc j))
    → (j : ℕ) → P j (update env pc i p j)
update_all env P pc i p h g j = elim (Bool-cases (j == i)) [
  | inl e ↦ rw e (subst (λ k. P k p) (sym ((==_iff j i).0 e)) h)
  | inr e ↦ rw e (g j (==-ne j i e))
]

module _ (env : Env) where
  open env use {World}

  Move-Inv :
      (i : ℕ) (m : Shared World) (pc : Threads env) (p : Pc World) (m' : Shared World)
      → Inv env m pc
      → Move env i m (pc i) m' p
      → Inv env m' (update env pc i p)
  Move-Inv i m pc p m' inv mv = record {
    nc =
        update_all env (λ j q. owns m'.nc_cmd j ≡ in_nc q) pc i p (Move-nc env mv (inv.nc i))
          (λ j n. Move-nc_other env n mv (inv.nc i) ∙ inv.nc j);
    dir =
        update_all env (λ j q. owns m'.release_dir j ≡ in_dir q) pc i p
          (Move-dir env mv (inv.dir i)) (λ j n. Move-dir_other env n mv (inv.dir i) ∙ inv.dir j);
    opn =
        update_all env (λ j q. owns m'.open_file j ≡ in_open q) pc i p
          (Move-open env mv (inv.opn i)) (λ j n. Move-open_other env n mv (inv.opn i) ∙ inv.opn j);
    free_flag = Move-free_flag env mv inv.free_flag (inv.flag i) (inv.dir i);
    flag =
        update_all env (λ j q. in_dir q ≡ true → m'.in_release ≡ raised q) pc i p
          (Move-flag env mv inv.free_flag (inv.flag i))
          (λ j n e. Move-flag_other env (pc j) mv n (inv.dir i) (inv.dir j) e ∙ inv.flag j e);
    awake =
        update_all env (λ j q. waits q ≡ false) pc i p (Move-awake env mv (inv.flag i))
          (λ j n. inv.awake j);
  }

  pub Reach-Inv : (s : State World) {t : System env} → Reach env s t → Inv env t.shared t.pc
  Reach-Inv s start = initial-Inv env s
  Reach-Inv s (later {t} r (pick i {m} {p} mv)) = Move-Inv i t.shared t.pc p m (Reach-Inv s r) mv

  module _ (command : Text → World → List Text × World) (marking : IsMarking env command) where
    Move-IsFramed_other :
        (i j : ℕ) (m m' : Shared World) (p q : Pc World)
        → j ≢ i
        → owns m.nc_cmd i ≡ in_nc p
        → owns m.nc_cmd j ≡ in_nc q
        → (in_nc p ≡ true) ⊎ (m'.state.incoming ≡ m.state.incoming)
        → IsFramed env command m.state.incoming q
        → IsFramed env command m'.state.incoming q
    Move-IsFramed_other i j m m' p q n h k (inl e) f =
        IsFramed-out env command m'.state.incoming q (sym k ∙ owns_one m.nc_cmd i j n (h ∙ e))
    Move-IsFramed_other i j m m' p q n h k (inr e) f =
        subst (λ l. IsFramed env command l q) (sym e) f

    Move-Lines :
        (i : ℕ) (m : Shared World) (pc : Threads env) (p : Pc World) (m' : Shared World)
        → Inv env m pc
        → Lines env command m pc
        → Move env i m (pc i) m' p
        → Lines env command m' (update env pc i p)
    Move-Lines i m pc p m' inv lines mv = record {
      quiet = Move-quiet env command mv lines.quiet (lines.framed i) (inv.nc i);
      framed =
          update_all env (λ j q. IsFramed env command m'.state.incoming q) pc i p
            (Move-IsFramed env command marking mv lines.quiet (lines.framed i))
            (λ j n.
              Move-IsFramed_other i j m m' (pc i) (pc j) n (inv.nc i) (inv.nc j)
                (Move-incoming env mv) (lines.framed j));
    }

    pub Reach-Lines :
        (s : State World) {t : System env} → Reach env s t → Lines env command t.shared t.pc
    Reach-Lines s start = initial-Lines env command s
    Reach-Lines s (later {t} r (pick i {m} {p} mv)) =
        Move-Lines i t.shared t.pc p m (Reach-Inv s r) (Reach-Lines s r) mv
