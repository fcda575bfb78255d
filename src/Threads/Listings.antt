-- ===== src/Threads/Listings.antt =====
-- Where the listings in `openDirs` of src/adbncfs.cpp come from.
use adbncfs.Prelude.{
  ℕ, ◌≡◌, refl, sym, ap, ◌∙◌, ◌⊎◌, inl, inr, some, List, [], ◌∷◌, ◌++◌, arith, Bool-cases,
  Option-cases, Text, codes, text_eq, text_eq_iff,
}
use adbncfs.Prelude.Dict.{Dict, find, find-erase}
use adbncfs.Fs.State.{Env, State, ok}
use adbncfs.Fs.Shell.{adbnc_shell}
use adbncfs.Fs.Shell.Framing.{IsMarking, exec_command_lem}
use adbncfs.Fs.Stat.{quoted}
use adbncfs.Fs.Directories.{add_listing}
use adbncfs.Fs.Directories.Sharing.{find-add_listing}
use adbncfs.Threads.{
  Caller, plain, opendir, opening, readdir, Pc, idle, exec_lock, exec_write, exec_read, exec_unlock,
  opendir_lock, opendir_test, opendir_wait, opendir_keep, opendir_unlock, release_lock, release_set,
  release_erase, release_signal, release_clear, release_unlock, open_lock, open_body, reading,
  Shared, resume, keep_output, listing_command, Move, Threads, update, System, Step, pick, initial,
  Reach, start, later,
}
use adbncfs.Threads
use adbncfs.Threads.Invariant.{IsFramed}
use adbncfs.Threads.Reached.{update_all, Reach-Lines}

added_listing :
    (dirs : Dict (List Text)) (q : Text) (line : Text) (lines : List Text) (path : Text)
    (names : List Text)
    → find (add_listing dirs q (line ∷ lines)) path ≡ some names
    → (find dirs path ≡ some names) ⊎ ((q ≡ path) × (names ≡ line ∷ lines))
added_listing dirs q line lines path names e = elim (Bool-cases (text_eq q path)) [
  | inl t ↦ elim (Option-cases (find dirs path)) [
    | inl n ↦
        let new : some (line ∷ lines) ≡ some names =
          ground (arith, find-add_listing dirs q line lines path, e, t, n) in
        inr ((text_eq_iff q path).0 t, cc)
    | inr (old, f) ↦
        let same : some old ≡ some names =
          ground (arith, find-add_listing dirs q line lines path, e, t, f) in
        inl (f ∙ same)
  ]
  | inr t ↦ inl (ground (arith, find-add_listing dirs q line lines path, e, t))
]

module _ (env : Env) (command : Text → env.World → List Text × env.World) where
  open env use {World}

  -- What the device printed for the listing of a directory, in some world.
  abbrev IsListing : Text → List Text → Type 0
  IsListing path names = (w : World) × (names ≡ (command (listing_command path) w).0)

  abbrev IsAsked : Text → Caller → Type 0
  IsAsked c (opendir path) = c ≡ listing_command path
  IsAsked c k = Unit

  -- The output that a thread brings back is that of its own command.
  abbrev IsTraced : Pc World → Type 0
  IsTraced (exec_lock c k) = IsAsked c k
  IsTraced (exec_write c k) = IsAsked c k
  IsTraced (exec_read c w k out) = IsAsked c k
  IsTraced (exec_unlock c w k out) = IsAsked c k
  IsTraced (opendir_keep path out) = IsListing path out
  IsTraced p = Unit

  resume-IsTraced :
      (c : Text) (w : World) (k : Caller) (out : List Text)
      → out ≡ (command c w).0
      → IsAsked c k
      → IsTraced (resume k out)
  resume-IsTraced c w plain out e a = tt
  resume-IsTraced c w (opendir path) out e a = (w, e ∙ ap (λ x. (command x w).0) a)
  resume-IsTraced c w opening out e a = tt
  resume-IsTraced c w (readdir path names) out e a = tt

  module _ {i : ℕ} {m : Shared World} where
    Move-IsTraced :
        {p p' : Pc World} {m' : Shared World}
        → Move env i m p m' p'
        → IsFramed env command m.state.incoming p
        → IsTraced p
        → IsTraced p'
    Move-IsTraced (Threads.lock_nc e) f a = a
    Move-IsTraced Threads.write f a = a
    Move-IsTraced (Threads.read_line line rest e n) f a = a
    Move-IsTraced (Threads.read_marker line rest e n) f a = a
    Move-IsTraced (Threads.unlock_nc {c} {w} {k} {out}) f a = resume-IsTraced c w k out f.1 a
    Move-IsTraced (Threads.list e) f a = refl
    Move-IsTraced mv f a = tt

    -- A listing that is found behind a step was found before, or was brought back by its thread.
    Move-IsListing :
        (path : Text) (names : List Text) {p p' : Pc World} {m' : Shared World}
        → Move env i m p m' p'
        → IsTraced p
        → find m'.state.open_dirs path ≡ some names
        → (find m.state.open_dirs path ≡ some names) ⊎ IsListing path names
    Move-IsListing path names (Threads.keep {p} {out = []}) a e = inl e
    Move-IsListing path names (Threads.keep {p} {out = line ∷ lines}) a e =
        elim (added_listing m.state.open_dirs p line lines path names e) [
          | inl f ↦ inl f
          | inr (q, n) ↦
              let (w, asked) = a in
              inr (w, n ∙ asked ∙ ap (λ x. (command (listing_command x) w).0) q)
        ]
    Move-IsListing path names (Threads.erase_listing {p}) a e =
        inl (ground (arith, find-erase m.state.open_dirs p path, e))
    Move-IsListing path names mv a e = inl e

  -- The listings of a state and the threads that bring some, from a first state.
  record Genuine (s : State World) (t : System env) : Type 0 where
    listed :
        (path : Text) (names : List Text)
        → find t.shared.state.open_dirs path ≡ some names
        → (find s.open_dirs path ≡ some names) ⊎ IsListing path names
    traced : (i : ℕ) → IsTraced (t.pc i)

  Reach-Genuine :
      IsMarking env command → (s : State World) {t : System env} → Reach env s t → Genuine s t
  Reach-Genuine marking s start = record { listed = λ path names e. inl e; traced = λ i. tt }
  Reach-Genuine marking s (later {t} r (pick i {m} {p} mv)) =
      let before = Reach-Genuine marking s r in
      let framed = (Reach-Lines env command marking s r).framed i in
      record {
        listed = λ path names e. elim (Move-IsListing path names mv (before.traced i) e) [
          | inl old ↦ before.listed path names old
          | inr new ↦ inr new
        ];
        traced =
            update_all env (λ j q. IsTraced q) t.pc i p (Move-IsTraced mv framed (before.traced i))
              (λ j n. before.traced j);
      }

  -- In any interleaving, if no output holds the marker, a directory's listing in openDirs was there at
  -- the start, or is what adbncShell returns for ls on that directory when it runs alone in some world.
  pub Reach-listings :
      IsMarking env command
      → (s : State World) {t : System env} → Reach env s t
      → (path : Text) (names : List Text) → find t.shared.state.open_dirs path ≡ some names
      → (find s.open_dirs path ≡ some names)
        ⊎ ((w : World) × ((adbnc_shell env
                (codes "ls -1a " ++ quoted path)
                (record s { incoming = []; world = w })).0
              ≡ ok names))
  unfolding adbnc_shell
  Reach-listings marking s r path names e = elim ((Reach-Genuine marking s r).listed path names e) [
    | inl old ↦ inl old
    | inr (w, n) ↦
        let alone =
          exec_command_lem env command marking (listing_command path)
            (record s { incoming = []; world = w }) refl in
        inr (w, ap (λ x. x.0) alone ∙ ap ok (sym n))
  ]
