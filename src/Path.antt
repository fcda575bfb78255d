-- ===== src/Path.antt =====
-- Path texts: `stringReplacer`, `makeLocalPath` and `parent` of src/adbncfs.cpp, and the second
-- copy of `parent`, `MountInfo::parent` of src/mountInfo.cpp.
pub mod Replace
pub mod Parent
use adbncfs.Prelude.{
  ℕ, zero, suc, ◌+◌, ◌-◌, ◌*◌, ◌/◌, ◌%◌, ◌^◌, ◌≤◌, ◌<◌, ◌≡◌, refl, sym, ap, ◌∙◌, fun_ext, ◌≢◌, ◌↔◌,
  ◌⊎◌, inl, inr, Bool, true, false, not, ◌&&◌, ◌||◌, Option, none, some, List, [], ◌∷◌, ◌++◌, map,
  append-nil, append_assoc, arith, ltb, leb, ◌==◌, ==_iff, ==_refl, ltb→lt, lt→ltb, leb→le, tests,
  if◌then◌else◌, Bool-cases, Option-cases, length, get_elem?, take, drop, is_empty, length-append,
  length-drop, All, All-append, Text, codes, text_eq, text_eq_iff, text_eq_refl, starts_with,
  contains, is_delim,
}

abbrev pub slash : ℕ
slash = b'/'

abbrev pub dash : ℕ
dash = b'-'

-- `s.find(p)`: the first position at which `p` stands in `s`.
unfoldable pub index_of : Text → Text → Option ℕ
unfolding starts_with
index_of p [] = if starts_with p [] then some 0 else none
index_of p (c ∷ s) =
    if starts_with p (c ∷ s)
    then some 0
    else elim (index_of p s) [ none ↦ none | some i ↦ some (suc i) ]

-- The loop of `stringReplacer`: `front` holds the bytes before `j`, `rest` those from `j` on. The
-- fuel is a bound on the rounds.
unfoldable pub replace_loop : Text → Text → ℕ → Text → Text → Text
unfolding index_of
replace_loop pat rep zero front rest = front ++ rest
replace_loop pat rep (suc fuel) front rest = elim (index_of pat rest) [
  | none ↦ front ++ rest
  | some i ↦ replace_loop pat rep fuel ((front ++ take i rest) ++ rep) (drop (i + length pat) rest)
]

-- `stringReplacer`. For a pattern that is not empty no round needs more fuel than there are bytes
-- (`replace_loop-replace_all`); for an empty one the source's loop does not end, and no call has one.
unfoldable pub string_replacer : Text → Text → Text → Text
unfolding replace_loop
string_replacer source pat rep = replace_loop pat rep (suc (length source)) [] source

-- `makeLocalPath`, with `strTempDirPath`
unfoldable pub make_local_path : Text → Text → Text
unfolding string_replacer
make_local_path temp_dir path = temp_dir ++ string_replacer path (slash ∷ []) (dash ∷ [])

-- `s[i]` for an index that is in range; the byte behind the end of a `std::string` is 0.
abbrev pub byte_at : Text → ℕ → ℕ
byte_at [] i = 0
byte_at (c ∷ s) zero = c
byte_at (c ∷ s) (suc i) = byte_at s i

-- `s.rfind('/')`: the last position of a slash.
unfoldable pub rfind_slash : Text → Option ℕ
rfind_slash [] = none
rfind_slash (c ∷ s) = elim (rfind_slash s) [
  | some i ↦ some (suc i)
  | none ↦ if c == slash then some 0 else none
]

-- `substr(0, uiLen - 1)` where the last byte is a slash
unfoldable pub strip_slash : Text → Text
strip_slash s = if byte_at s (length s - 1) == slash then take (length s - 1) s else s

-- `substr(0, uiPos == 0 ? 1 : uiPos)` where there is a slash
unfoldable pub cut_name : Text → Text
unfolding rfind_slash
cut_name s = elim (rfind_slash s) [ none ↦ s | some i ↦ take (if i == 0 then 1 else i) s ]

abbrev pub dot : Text
dot = codes "."

-- `parent`
unfoldable pub parent : Text → Text
unfolding strip_slash cut_name text_eq
parent path =
    if not (length path == 1) || not (byte_at path 0 == slash)
    then (if ltb 0 (length path)
        then (let up = cut_name (strip_slash path) in if text_eq up path then dot else up)
        else dot)
    else path

parents :
    map parent (
      codes "/usr/lib" ∷ codes "/usr/" ∷ codes "usr" ∷ codes "/" ∷ codes "." ∷ codes ".." ∷ [] ∷ [])
    ≡ codes "/usr" ∷ codes "/" ∷ codes "." ∷ codes "/" ∷ codes "." ∷ codes "." ∷ codes "." ∷ []
unfolding parent
parents = refl

replaced :
    string_replacer (codes "/storage/extSdCard/test1/test1.txt") (codes "/") (codes "-")
    ≡ codes "-storage-extSdCard-test1-test1.txt"
unfolding string_replacer
replaced = refl
