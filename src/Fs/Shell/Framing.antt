-- ===== src/Fs/Shell/Framing.antt =====
-- Each command gets the lines that it printed, and no other.
use adbncfs.Prelude.{◌≡◌, refl, true, false, List, [], ◌∷◌, ◌++◌, arith, All, Text, contains}
use adbncfs.Fs.State.{Env, State, ok}
use adbncfs.Fs.Shell.{done_marker, request, read_output, exec_command_via_net_cat}

-- No line of the list holds the marker.
abbrev pub IsUnmarked : List Text → Type 0
IsUnmarked = All (λ line. contains line done_marker ≡ false)

read_output-marked :
    (out rest : List Text) (line : Text)
    → IsUnmarked out
    → contains line done_marker ≡ true
    → read_output (out ++ line ∷ rest) ≡ (out, rest)
unfolding read_output
read_output-marked [] rest line h m = rw m
read_output-marked (l ∷ out) rest line h m = ground (arith, read_output-marked out rest line h.1 m)

pub marker_marked : contains done_marker done_marker ≡ true
unfolding contains
marker_marked = refl

module _ (env : Env) where
  open env use {World, shell}

  -- The device behind `shell` prints, for a request, what the command prints, and then the marker
  -- that `echo` prints. That is how a shell answers the two lines, if no output holds the marker.
  abbrev pub IsMarking : (Text → World → List Text × World) → Type 0
  IsMarking command =
      (c : Text) (w : World)
      → (shell (request c) w ≡ ((command c w).0 ++ done_marker ∷ [], (command c w).1))
        × IsUnmarked (command c w).0

  -- With no line left over from before, a command gets its own lines, and leaves none over.
  pub exec_command_lem :
      (command : Text → World → List Text × World)
      → IsMarking command
      → (c : Text) (s : State World) → s.incoming ≡ []
      → exec_command_via_net_cat env c s
        ≡ (ok (command c s.world).0, record s { incoming = []; world = (command c s.world).1 })
  unfolding exec_command_via_net_cat
  exec_command_lem command h c s e =
      let (answer, unmarked) = h c s.world in
      let read = read_output-marked (command c s.world).0 [] done_marker unmarked marker_marked in
      ground (arith, e, answer, read)
