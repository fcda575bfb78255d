-- ===== src/Fs/Shell.antt =====
-- `execCommandViaNetCat` and `adbncShell`: a command for the device, and the lines that it prints.
pub mod Framing
use adbncfs.Prelude.{
  ℕ, zero, suc, ◌+◌, ◌-◌, ◌*◌, ◌/◌, ◌%◌, ◌^◌, ◌≤◌, ◌<◌, ◌≡◌, refl, sym, ap, ◌∙◌, fun_ext, ◌≢◌, ◌↔◌,
  ◌⊎◌, inl, inr, Bool, true, false, not, ◌&&◌, ◌||◌, Option, none, some, List, [], ◌∷◌, ◌++◌, map,
  append-nil, append_assoc, arith, ltb, leb, ◌==◌, ==_iff, ==_refl, ltb→lt, lt→ltb, leb→le, tests,
  if◌then◌else◌, Bool-cases, Option-cases, length, get_elem?, take, drop, is_empty, length-append,
  length-drop, All, All-append, Text, codes, text_eq, text_eq_iff, text_eq_refl, starts_with,
  contains, is_delim,
}
use adbncfs.Fs.State.{Env, State, M, Result, ok}

-- `pcDone`
abbrev pub done_marker : Text
done_marker = codes "---eoc---"

-- The command, and an `echo` of the marker behind it.
abbrev pub request : Text → Text
request command = command ++ 10 ∷ (codes "echo '" ++ done_marker ++ codes "'" ++ 10 ∷ [])

-- The loop over the lines: up to one that holds the marker, or to the end of the stream. What is
-- read, and what is left to read.
unfoldable pub read_output : List Text → List Text × List Text
read_output [] = ([], [])
read_output (line ∷ lines) =
    let (out, rest) = read_output lines in
    if contains line done_marker then ([], lines) else (line ∷ out, rest)

module _ (env : Env) where
  open env use {World, shell}

  -- `execCommandViaNetCat`. The mutex makes it one step.
  unfoldable pub exec_command_via_net_cat : Text → M World (List Text)
  exec_command_via_net_cat command s =
      let (printed, w) = shell (request command) s.world in
      let (out, rest) = read_output (s.incoming ++ printed) in
      (ok out, record s { incoming = rest; world = w })

  -- `adbncShell`
  unfoldable pub adbnc_shell : Text → M World (List Text)
  adbnc_shell command = exec_command_via_net_cat (codes "busybox " ++ command)
