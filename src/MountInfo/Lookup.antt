-- ===== src/MountInfo/Lookup.antt =====
-- Which mount point `MountInfo` finds for a path.
use adbncfs.Prelude.{
  ℕ, zero, suc, ◌≤◌, ◌<◌, ◌≡◌, refl, sym, ap, ◌∙◌, ◌≢◌, Option, none, some, List, [], ◌∷◌, ◌++◌,
  arith, if◌then◌else◌, length, length-append, All, Text, text_eq, text_eq_iff, text_eq_refl,
}
use adbncfs.Prelude.Dict.{find, insert, find-insert}
use adbncfs.Path.{slash, dot}
use adbncfs.Path
use adbncfs.Path.Parent.{IsName, above, parent-append, parent-dot, parent-name}
use adbncfs.MountInfo.{
  Entry, MountInfo, mount_info, add_lines, parse_mount_info, parent, find_mount_point_entry,
  mount_loop, mount_point,
}

-- The path of a directory given by the names on the way to it, the last one first; the root is the
-- empty text here.
abbrev pub directory : List Text → Text
directory [] = []
directory (c ∷ cs) = directory cs ++ slash ∷ c

-- The same as an absolute path.
abbrev pub path_of : List Text → Text
path_of cs = above (directory cs)

-- The mount point with the most names in common with the path.
abbrev pub nearest : MountInfo → List Text → Option Entry
nearest m [] = find m (path_of [])
nearest m (c ∷ cs) = elim (find m (path_of (c ∷ cs))) [ some e ↦ some e | none ↦ nearest m cs ]

pub above_cons : (dir name : Text) → above (dir ++ slash ∷ name) ≡ dir ++ slash ∷ name
above_cons [] name = refl
above_cons (d ∷ dir) name = refl

path_of-ne-root : (c : Text) (cs : List Text) → IsName c → path_of (c ∷ cs) ≢ slash ∷ []
path_of-ne-root [] cs h e = h.0 refl
path_of-ne-root (b ∷ c) cs h e = absurd (
    omega (
      arith,
      length-append (directory cs) (slash ∷ b ∷ c),
      ap (λ (s : Text). length s) (sym (above_cons (directory cs) (b ∷ c)) ∙ e),
    ))

loop_step :
    (fuel : ℕ) (m : MountInfo) (path up : Text)
    → path ≢ slash ∷ []
    → parent path ≡ up
    → mount_loop (suc fuel) m path
      ≡ elim (find m path) [ some e ↦ some (some e) | none ↦ mount_loop fuel m up ]
unfolding mount_loop find_mount_point_entry
loop_step fuel m path up n e = ground (arith, text_eq_iff path (slash ∷ []))

parent-path_of : (c : Text) (cs : List Text) → IsName c → parent (path_of (c ∷ cs)) ≡ path_of cs
unfolding parent
parent-path_of c cs h =
    ap Path.parent (above_cons (directory cs) c) ∙ (parent-append (directory cs) c h).0

loop_root :
    (fuel : ℕ) (m : MountInfo) → mount_loop (suc fuel) m (slash ∷ []) ≡ some (find m (slash ∷ []))
unfolding mount_loop find_mount_point_entry
loop_root fuel m = ground (arith, text_eq_refl (slash ∷ []))

loop-nearest :
    (fuel : ℕ) (m : MountInfo) (cs : List Text)
    → All IsName cs
    → length cs < fuel
    → mount_loop fuel m (path_of cs) ≡ some (nearest m cs)
loop-nearest zero m cs h n = absurd (omega arith)
loop-nearest (suc fuel) m [] h n = loop_root fuel m
loop-nearest (suc fuel) m (c ∷ cs) h n =
    loop_step fuel m (path_of (c ∷ cs)) (path_of cs) (path_of-ne-root c cs h.0)
      (parent-path_of c cs h.0)
    ∙ ground (arith, loop-nearest fuel m cs h.1 (omega arith))

length-le-directory : (cs : List Text) → length cs ≤ length (directory cs)
length-le-directory [] = omega arith
length-le-directory (c ∷ cs) =
    omega (arith, length-le-directory cs, length-append (directory cs) (slash ∷ c))

length-le-path_of : (cs : List Text) → length cs < suc (length (path_of cs))
length-le-path_of [] = omega arith
length-le-path_of (c ∷ cs) =
    omega (
      arith,
      length-le-directory (c ∷ cs),
      ap (λ (s : Text). length s) (above_cons (directory cs) c),
    )

-- For the path of a directory given by names, the search of the mount point ends, and its result is
-- the mount point with the most names in common with the path, or NULL if not even the root is one.
pub mount_point-nearest :
    (m : MountInfo) (cs : List Text)
    → All IsName cs
    → mount_point m (path_of cs) ≡ some (nearest m cs)
unfolding mount_point
mount_point-nearest m cs h = loop-nearest (suc (length (path_of cs))) m cs h (length-le-path_of cs)

dot-ne-root : dot ≢ slash ∷ []
dot-ne-root = ground arith

name-ne-root : (name : Text) → IsName name → name ≢ slash ∷ []
name-ne-root [] h e = h.0 refl
name-ne-root (c ∷ name) h e = h.1.0 cc

-- `none` on each round, once the dot is reached.
loop_dot : (fuel : ℕ) (m : MountInfo) → find m dot ≡ none → mount_loop fuel m dot ≡ none
loop_dot zero m g = unfold mount_loop in refl
loop_dot (suc fuel) m g =
    loop_step fuel m dot dot dot-ne-root (unfold parent in parent-dot) ∙ rw g (loop_dot fuel m g)

-- From a name with no directory before it the search goes round and round, however many rounds it
-- is given, if neither the name nor `.` is a mount point.
pub mount_loop_relative :
    (fuel : ℕ) (m : MountInfo) (name : Text)
    → IsName name
    → find m name ≡ none
    → find m dot ≡ none
    → mount_loop fuel m name ≡ none
mount_loop_relative zero m name h f g = unfold mount_loop in refl
mount_loop_relative (suc fuel) m name h f g =
    loop_step fuel m name dot (name-ne-root name h) (unfold parent in parent-name name h)
    ∙ rw f (loop_dot fuel m g)

-- The first line in the list with a mount point.
abbrev pub first_line : Text → List Text → Option Entry
first_line path [] = none
first_line path (line ∷ lines) =
    if text_eq (parse_mount_info line).mount_point path
    then some (parse_mount_info line)
    else first_line path lines

add_lines-first_line :
    (m : MountInfo) (lines : List Text) (path : Text)
    → find (add_lines m lines) path
      ≡ elim (find m path) [ some e ↦ some e | none ↦ first_line path lines ]
unfolding add_lines
add_lines-first_line m [] path = ground arith
add_lines-first_line m (line ∷ lines) path =
    let e = parse_mount_info line in
    ground (
      arith,
      add_lines-first_line (insert m e.mount_point e) lines path,
      find-insert m e.mount_point e path,
    )

-- Of several lines with one mount point, the first one counts, whatever is mounted over it later.
pub mount_info-first_line :
    (lines : List Text) (path : Text) → find (mount_info lines) path ≡ first_line path lines
unfolding mount_info
mount_info-first_line lines path = add_lines-first_line [] lines path ∙ unfold find in refl
