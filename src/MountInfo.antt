-- ===== src/MountInfo.antt =====
-- src/mountInfo.cpp and src/mountInfo.h: the lines that `busybox mount` prints, and the search for
-- the mount point that a path is on.
pub mod Lookup
pub mod Parse
use adbncfs.Prelude.{
  ℕ, zero, suc, ◌+◌, ◌-◌, ◌*◌, ◌/◌, ◌%◌, ◌^◌, ◌≤◌, ◌<◌, ◌≡◌, refl, sym, ap, ◌∙◌, fun_ext, ◌≢◌, ◌↔◌,
  ◌⊎◌, inl, inr, Bool, true, false, not, ◌&&◌, ◌||◌, Option, none, some, List, [], ◌∷◌, ◌++◌, map,
  append-nil, append_assoc, arith, ltb, leb, ◌==◌, ==_iff, ==_refl, ltb→lt, lt→ltb, leb→le, tests,
  if◌then◌else◌, Bool-cases, Option-cases, length, get_elem?, take, drop, is_empty, length-append,
  length-drop, All, All-append, Text, codes, text_eq, text_eq_iff, text_eq_refl, starts_with,
  contains, is_delim,
}
use adbncfs.Prelude.Dict.{Dict, find, insert}
use adbncfs.Path
use adbncfs.Path.{slash}
use adbncfs.Strings.Tokens.{strtok, tokens}

-- `MountInfo::Entry`. The set of options is only searched, so a list serves.
pub record Entry : Type 0 where
  pub file_system : Text
  pub mount_point : Text
  pub dev_type : Text
  pub options : List Text

abbrev pub blank : Entry
blank = record { file_system = []; mount_point = []; dev_type = []; options = [] }

-- The members, the current token (`pch`) and the save pointer.
pub record Cursor : Type 0 where
  pub entry : Entry
  pub pch : Option Text
  pub save : Text

-- `pch && strcmp(pch, s) == 0`
unfoldable pub is_token : Option Text → Text → Bool
unfolding text_eq
is_token none s = false
is_token (some t) s = text_eq t s

abbrev pub or_empty : Option Text → Text
or_empty none = []
or_empty (some t) = t

abbrev pub blank_delim : Text
blank_delim = codes " "

-- The device type, and the text up to the options.
unfoldable pub parse_dev_type : Entry → Text → Cursor
parse_dev_type e s =
    let (pch, save) = strtok blank_delim s in
    elim pch [
      | none ↦ record { entry = e; pch = none; save = save }
      | some t ↦
          let (pch', save') = strtok (codes "(") save in
          record { entry = record e { dev_type = t }; pch = pch'; save = save' }
    ]

unfoldable pub parse_type : Entry → Text → Cursor
unfolding is_token
parse_type e s =
    let (pch, save) = strtok blank_delim s in
    if is_token pch (codes "type")
    then parse_dev_type e save
    else record { entry = e; pch = pch; save = save }

unfoldable pub parse_mount_point : Entry → Text → Cursor
parse_mount_point e s =
    let (pch, save) = strtok blank_delim s in
    elim pch [
      | none ↦ record { entry = e; pch = none; save = save }
      | some t ↦ parse_type (record e { mount_point = t }) save
    ]

unfoldable pub parse_on : Entry → Text → Cursor
unfolding is_token
parse_on e s =
    let (pch, save) = strtok blank_delim s in
    if is_token pch (codes "on")
    then parse_mount_point e save
    else record { entry = e; pch = pch; save = save }

unfoldable pub parse_words : Text → Cursor
parse_words s =
    let (pch, save) = strtok blank_delim s in
    parse_on (record blank { file_system = or_empty pch }) save

-- What is left over, or the last token that did not fit, is read as the options.
unfoldable pub set_options : Entry → Option Text → Entry
set_options e none = e
set_options e (some t) = record e { options = tokens (codes ",)") t }

-- `MountInfo::Entry::parseMountInfo`, for a line that is not NULL
unfoldable pub parse_mount_info : Text → Entry
unfolding set_options
parse_mount_info s = let c = parse_words s in set_options c.entry c.pch

-- `m_mountOptions.find(o) != m_mountOptions.cend()`
unfoldable pub has_option : List Text → Text → Bool
has_option [] o = false
has_option (p ∷ ps) o = text_eq p o || has_option ps o

unfoldable pub is_mounted_ro_entry : Entry → Bool
unfolding has_option
is_mounted_ro_entry e = has_option e.options (codes "ro")

unfoldable pub is_mounted_noexec_entry : Entry → Bool
unfolding has_option
is_mounted_noexec_entry e = has_option e.options (codes "noexec")

abbrev pub MountInfo : Type 0
MountInfo = Dict Entry

unfoldable pub add_lines : MountInfo → List Text → MountInfo
add_lines m [] = m
add_lines m (line ∷ lines) =
    let e = parse_mount_info line in add_lines (insert m e.mount_point e) lines

-- The constructor `MountInfo::MountInfo`.
unfoldable pub mount_info : List Text → MountInfo
unfolding add_lines
mount_info lines = add_lines [] lines

-- `MountInfo::parent`, a copy of `parent` of src/adbncfs.cpp
unfoldable pub parent : Text → Text
parent path = Path.parent path

-- `findMountPointEntry`
unfoldable pub find_mount_point_entry : MountInfo → Text → Option Entry
find_mount_point_entry m path = find m path

-- The loop of `mountPoint`: `none` if it has not ended after so many rounds, and otherwise the entry
-- or NULL.
unfoldable pub mount_loop : ℕ → MountInfo → Text → Option (Option Entry)
mount_loop zero m path = none
mount_loop (suc fuel) m path =
    let rest = mount_loop fuel m (parent path) in
    elim (find_mount_point_entry m path) [
      | some e ↦ some (some e)
      | none ↦ if text_eq path (slash ∷ []) then some none else rest
    ]

-- `MountInfo::mountPoint`, with one round more than the path has bytes.
unfoldable pub mount_point : MountInfo → Text → Option (Option Entry)
unfolding mount_loop
mount_point m path = mount_loop (suc (length path)) m path

-- `pEntry ? pEntry->isMountedRo() : false`
unfoldable pub is_mounted : (Entry → Bool) → Option (Option Entry) → Option Bool
is_mounted test none = none
is_mounted test (some none) = some false
is_mounted test (some (some e)) = some (test e)

unfoldable pub is_mounted_ro : MountInfo → Text → Option Bool
unfolding is_mounted
is_mounted_ro m path = is_mounted is_mounted_ro_entry (mount_point m path)

unfoldable pub is_mounted_noexec : MountInfo → Text → Option Bool
unfolding is_mounted
is_mounted_noexec m path = is_mounted is_mounted_noexec_entry (mount_point m path)
