-- ===== src/Threads/Moves.antt =====
-- A step of one thread keeps each field of the invariant.
use adbncfs.Prelude.{
  ℕ, ◌≡◌, refl, sym, ap, ◌∙◌, ◌≢◌, ◌⊎◌, inl, inr, true, false, none, List, [], ◌∷◌, ◌++◌,
  append_assoc, arith, All-append, Text, contains,
}
use adbncfs.Fs.State.{Env, State}
use adbncfs.Fs.Shell.{done_marker, request}
use adbncfs.Fs.Shell.Framing.{IsUnmarked, IsMarking}
use adbncfs.Threads.{
  Caller, plain, opendir, opening, readdir, Pc, idle, exec_lock, exec_write, exec_read, exec_unlock,
  opendir_lock, opendir_test, opendir_wait, opendir_keep, opendir_unlock, release_lock, release_set,
  release_erase, release_signal, release_clear, release_unlock, open_lock, open_body, reading,
  Shared, resume, keep_output, Move, Threads, update, System, Step, pick, initial, Reach, start,
  later,
}
use adbncfs.Threads
use adbncfs.Threads.Invariant.{
  owns, in_nc, in_dir, in_open, raised, waits, in_nc-resume, in_dir-resume, in_open-resume,
  raised-resume, waits-resume, IsFramed, IsFramed-out,
}

keep_output-incoming :
    {W : Type 0} (path : Text) (out : List Text) (s : State W)
    → (keep_output path out s).incoming ≡ s.incoming
keep_output-incoming path [] s = refl
keep_output-incoming path (line ∷ lines) s = refl

-- The first line with the marker ends an output that has none.
marker_first :
    (out us rest : List Text) (line last : Text)
    → IsUnmarked us
    → contains line done_marker ≡ true
    → out ++ line ∷ rest ≡ us ++ last ∷ []
    → (rest ≡ []) × (out ≡ us)
marker_first [] [] rest line last h m e = (cc, refl)
marker_first [] (u ∷ us) rest line last h m e =
    let same : line ≡ u = cc in absurd (ground (arith, h.0, m, same))
marker_first (x ∷ []) [] rest line last h m e = absurd (cc)
marker_first (x ∷ y ∷ out) [] rest line last h m e = absurd (cc)
marker_first (x ∷ out) (u ∷ us) rest line last h m e =
    let tails : out ++ line ∷ rest ≡ us ++ last ∷ [] = cc in
    let (a, b) = marker_first out us rest line last h.1 m tails in let heads : x ≡ u = cc in (a, cc)

module _ (env : Env) where
  open env use {World, shell}

  module _ {i : ℕ} {m : Shared World} where
    pub Move-nc :
        {p p' : Pc World} {m' : Shared World}
        → Move env i m p m' p'
        → owns m.nc_cmd i ≡ in_nc p
        → owns m'.nc_cmd i ≡ in_nc p'
    Move-nc (Threads.call c) h = h
    Move-nc (Threads.unlock_nc {k} {out}) h = rw (in_nc-resume World out k) refl
    Move-nc mv h = ground arith

    pub Move-dir :
        {p p' : Pc World} {m' : Shared World}
        → Move env i m p m' p'
        → owns m.release_dir i ≡ in_dir p
        → owns m'.release_dir i ≡ in_dir p'
    Move-dir (Threads.call c) h = h
    Move-dir (Threads.unlock_nc {k} {out}) h = rw (in_dir-resume World out k) h
    Move-dir mv h = ground arith

    pub Move-open :
        {p p' : Pc World} {m' : Shared World}
        → Move env i m p m' p'
        → owns m.open_file i ≡ in_open p
        → owns m'.open_file i ≡ in_open p'
    Move-open (Threads.call c) h = h
    Move-open (Threads.unlock_nc {k} {out}) h = rw (in_open-resume World out k) h
    Move-open mv h = ground arith

    -- The mutexes of another thread.
    module _ {j : ℕ} (other : j ≢ i) where
      pub Move-nc_other :
          {p p' : Pc World} {m' : Shared World}
          → Move env i m p m' p'
          → owns m.nc_cmd i ≡ in_nc p
          → owns m'.nc_cmd j ≡ owns m.nc_cmd j
      Move-nc_other (Threads.lock_nc e) h = ground arith
      Move-nc_other mv h = ground arith

      pub Move-dir_other :
          {p p' : Pc World} {m' : Shared World}
          → Move env i m p m' p'
          → owns m.release_dir i ≡ in_dir p
          → owns m'.release_dir j ≡ owns m.release_dir j
      Move-dir_other (Threads.lock_opendir e) h = ground arith
      Move-dir_other (Threads.lock_releasedir e) h = ground arith
      Move-dir_other mv h = ground arith

      pub Move-open_other :
          {p p' : Pc World} {m' : Shared World}
          → Move env i m p m' p'
          → owns m.open_file i ≡ in_open p
          → owns m'.open_file j ≡ owns m.open_file j
      Move-open_other (Threads.lock_open e) h = ground arith
      Move-open_other mv h = ground arith

    pub Move-free_flag :
        {p p' : Pc World} {m' : Shared World}
        → Move env i m p m' p'
        → (m.release_dir ≡ none → m.in_release ≡ false)
        → (in_dir p ≡ true → m.in_release ≡ raised p)
        → owns m.release_dir i ≡ in_dir p
        → m'.release_dir ≡ none
        → m'.in_release ≡ false
    Move-free_flag (Threads.call c) f g h e = f e
    Move-free_flag mv f g h e = ground arith

    pub Move-flag :
        {p p' : Pc World} {m' : Shared World}
        → Move env i m p m' p'
        → (m.release_dir ≡ none → m.in_release ≡ false)
        → (in_dir p ≡ true → m.in_release ≡ raised p)
        → in_dir p' ≡ true
        → m'.in_release ≡ raised p'
    Move-flag (Threads.unlock_nc {k} {out}) f g e =
        rw (raised-resume World out k) (g (sym (in_dir-resume World out k) ∙ e))
    Move-flag (Threads.lock_opendir e) f g d = f e
    Move-flag (Threads.lock_releasedir e) f g d = f e
    Move-flag mv f g e = ground arith

    pub Move-flag_other :
        (q : Pc World) {p p' : Pc World} {m' : Shared World} {j : ℕ}
        → Move env i m p m' p'
        → j ≢ i
        → owns m.release_dir i ≡ in_dir p
        → owns m.release_dir j ≡ in_dir q
        → in_dir q ≡ true
        → m'.in_release ≡ m.in_release
    Move-flag_other q (Threads.call c) n h k e = refl
    Move-flag_other q mv n h k e = ground arith

    pub Move-awake :
        {p p' : Pc World} {m' : Shared World}
        → Move env i m p m' p'
        → (in_dir p ≡ true → m.in_release ≡ raised p)
        → waits p' ≡ false
    Move-awake (Threads.unlock_nc {k} {out}) g = waits-resume World out k
    Move-awake (Threads.wait e) g = absurd (ground (arith, e))
    Move-awake mv g = refl

    pub Move-incoming :
        {p p' : Pc World} {m' : Shared World}
        → Move env i m p m' p'
        → (in_nc p ≡ true) ⊎ (m'.state.incoming ≡ m.state.incoming)
    Move-incoming (Threads.call c) = inr refl
    Move-incoming (Threads.keep {p} {out}) = inr (keep_output-incoming p out m.state)
    Move-incoming Threads.write = inl refl
    Move-incoming (Threads.read_line line rest e n) = inl refl
    Move-incoming (Threads.read_marker line rest e n) = inl refl
    Move-incoming mv = inr refl

    pub Move-quiet :
        (command : Text → World → List Text × World) {p p' : Pc World} {m' : Shared World}
        → Move env i m p m' p'
        → (m.nc_cmd ≡ none → m.state.incoming ≡ [])
        → IsFramed env command m.state.incoming p
        → owns m.nc_cmd i ≡ in_nc p
        → m'.nc_cmd ≡ none
        → m'.state.incoming ≡ []
    Move-quiet command (Threads.keep {p} {out}) f g h e = keep_output-incoming p out m.state ∙ f e
    Move-quiet command (Threads.unlock_nc) f g h e = g.0
    Move-quiet command mv f g h e = ground arith

    pub Move-IsFramed :
        (command : Text → World → List Text × World)
        → IsMarking env command
        → {p p' : Pc World} {m' : Shared World} → Move env i m p m' p'
        → (m.nc_cmd ≡ none → m.state.incoming ≡ [])
        → IsFramed env command m.state.incoming p
        → IsFramed env command m'.state.incoming p'
    Move-IsFramed command marking (Threads.lock_nc e) f g = f e
    Move-IsFramed command marking (Threads.write {c}) f g = (
      tt,
      ap (λ l. l ++ (shell (request c) m.state.world).0) g
          ∙ ap (λ r. r.0) (marking c m.state.world).0,
    )
    Move-IsFramed command marking (Threads.read_line {out} line rest e n) f g = (
      All-append (λ l. contains l done_marker ≡ false) out (line ∷ []) g.0 (n, tt),
      append_assoc out (line ∷ []) rest ∙ ap (λ l. out ++ l) (sym e) ∙ g.1,
    )
    Move-IsFramed command marking (Threads.read_marker {c} {w} {out} line rest e n) f g =
        marker_first out (command c w).0 rest line done_marker (marking c w).1 n
          (ap (λ l. out ++ l) (sym e) ∙ g.1)
    Move-IsFramed command marking (Threads.unlock_nc {k} {out}) f g =
        IsFramed-out env command _ (resume k out) (in_nc-resume World out k)
    Move-IsFramed command marking mv f g = tt
