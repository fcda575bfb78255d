-- ===== src/FileCache.antt =====
-- `FileCache` of src/fileInfoCache.h and src/fileinfoCache.cpp: what the device printed for `stat` and
-- `readlink`, kept for two minutes. The time that `::time(NULL)` gives is an argument, `now`.
pub mod History
pub mod Pointers
use adbncfs.Prelude.{
  ℕ, zero, suc, ◌+◌, ◌-◌, ◌*◌, ◌/◌, ◌%◌, ◌^◌, ◌≤◌, ◌<◌, ◌≡◌, refl, sym, ap, ◌∙◌, fun_ext, ◌≢◌, ◌↔◌,
  ◌⊎◌, inl, inr, Bool, true, false, not, ◌&&◌, ◌||◌, Option, none, some, List, [], ◌∷◌, ◌++◌, map,
  append-nil, append_assoc, arith, ltb, leb, ◌==◌, ==_iff, ==_refl, ltb→lt, lt→ltb, leb→le, tests,
  if◌then◌else◌, Bool-cases, Option-cases, length, get_elem?, take, drop, is_empty, length-append,
  length-drop, All, All-append, Text, codes, text_eq, text_eq_iff, text_eq_refl, starts_with,
  contains, is_delim,
}
use adbncfs.Prelude.Dict.{Dict, find, put, erase}

-- `FileCache::Entry`. The two pointers own what they point to: copying, assigning and deleting an
-- entry copy, replace and drop the two lists, and NULL is `none`.
pub record Entry : Type 0 where
  pub timestamp : ℕ
  pub stat_output : Option (List Text)
  pub read_link_output : Option (List Text)

abbrev pub FileCache : Type 0
FileCache = Dict Entry

-- `iFileDataCacheSecondsValid`
abbrev pub seconds_valid : ℕ
seconds_valid = 120

-- The default constructor of an entry.
abbrev pub new_entry : ℕ → Entry
new_entry now = record { timestamp = now; stat_output = none; read_link_output = none }

unfoldable pub set_stat_output : Entry → List Text → Entry
set_stat_output e out = record e { stat_output = some out }

unfoldable pub set_read_link_output : Entry → List Text → Entry
set_read_link_output e out = record e { read_link_output = some out }

-- A new entry has the time of its construction; an old one gets the present time.
unfoldable pub put_stat : ℕ → FileCache → Text → List Text → FileCache
unfolding set_stat_output
put_stat now c path out = elim (find c path) [
  | none ↦ put c path (set_stat_output (new_entry now) out)
  | some e ↦ put c path (record (set_stat_output e out) { timestamp = now })
]

unfoldable pub put_read_link : ℕ → FileCache → Text → List Text → FileCache
unfolding set_read_link_output
put_read_link now c path out = elim (find c path) [
  | none ↦ put c path (set_read_link_output (new_entry now) out)
  | some e ↦ put c path (record (set_read_link_output e out) { timestamp = now })
]

unfoldable pub is_valid : ℕ → Entry → Bool
is_valid now e = ltb now (e.timestamp + seconds_valid)

unfoldable pub get_stat : ℕ → FileCache → Text → Option (List Text)
unfolding is_valid
get_stat now c path = elim (find c path) [
  | none ↦ none
  | some e ↦ if is_valid now e then e.stat_output else none
]

unfoldable pub get_read_link : ℕ → FileCache → Text → Option (List Text)
unfolding is_valid
get_read_link now c path = elim (find c path) [
  | none ↦ none
  | some e ↦ if is_valid now e then e.read_link_output else none
]

unfoldable pub invalidate : FileCache → Text → FileCache
invalidate c path = elim (find c path) [ none ↦ c | some e ↦ erase c path ]
