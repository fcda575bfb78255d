-- ===== src/FileCache/History.antt =====
-- The cache against the list of the calls that were made on it, the last one first.
use adbncfs.Prelude.{
  ℕ, ◌+◌, ◌≡◌, refl, ◌∙◌, inl, inr, Bool, false, Option, none, some, List, [], ◌∷◌, arith, ltb,
  if◌then◌else◌, Option-cases, Text, text_eq, text_eq_iff, text_eq_refl,
}
use adbncfs.Prelude.Dict.{find, find-put, find-erase}
use adbncfs.FileCache.{
  Entry, FileCache, seconds_valid, put_stat, put_read_link, get_stat, get_read_link, invalidate,
}

pub data Event : Type 0 where
  stat_put : ℕ → Text → List Text → Event
  link_put : ℕ → Text → List Text → Event
  invalidated : Text → Event

abbrev pub step : FileCache → Event → FileCache
step c (stat_put now path out) = put_stat now c path out
step c (link_put now path out) = put_read_link now c path out
step c (invalidated path) = invalidate c path

unfoldable pub run : List Event → FileCache
run [] = []
run (e ∷ h) = step (run h) e

-- The time of the last call that put something for a path, since the path was last invalidated.
abbrev pub last_put : Text → List Event → Option ℕ
last_put path [] = none
last_put path (stat_put now q out ∷ h) = if text_eq q path then some now else last_put path h
last_put path (link_put now q out ∷ h) = if text_eq q path then some now else last_put path h
last_put path (invalidated q ∷ h) = if text_eq q path then none else last_put path h

-- What `stat` last printed for a path, since the path was last invalidated; for `readlink` too.
abbrev pub last_stat : Text → List Event → Option (List Text)
last_stat path [] = none
last_stat path (stat_put now q out ∷ h) = if text_eq q path then some out else last_stat path h
last_stat path (link_put now q out ∷ h) = last_stat path h
last_stat path (invalidated q ∷ h) = if text_eq q path then none else last_stat path h

abbrev pub last_link : Text → List Event → Option (List Text)
last_link path [] = none
last_link path (stat_put now q out ∷ h) = last_link path h
last_link path (link_put now q out ∷ h) = if text_eq q path then some out else last_link path h
last_link path (invalidated q ∷ h) = if text_eq q path then none else last_link path h

-- The entry that a path has after these calls.
abbrev entry_of : Option ℕ → Option (List Text) → Option (List Text) → Option Entry
entry_of none s l = none
entry_of (some t) s l = some (record { timestamp = t; stat_output = s; read_link_output = l })

pub find-put_stat :
    (now : ℕ) (c : FileCache) (q : Text) (out : List Text) (path : Text)
    → find (put_stat now c q out) path ≡ (
        if text_eq q path
        then some (record {
          timestamp = now;
          stat_output = some out;
          read_link_output = elim (find c q) [ none ↦ none | some e ↦ e.read_link_output ];
        })
        else find c path)
unfolding put_stat
find-put_stat now c q out path = elim (Option-cases (find c q)) [
  | inl e ↦ rw (e, put_stat) (simp find-put)
  | inr (r, e) ↦ rw (e, put_stat) (simp find-put)
]

find-put_read_link :
    (now : ℕ) (c : FileCache) (q : Text) (out : List Text) (path : Text)
    → find (put_read_link now c q out) path ≡ (
        if text_eq q path
        then some (record {
          timestamp = now;
          stat_output = elim (find c q) [ none ↦ none | some e ↦ e.stat_output ];
          read_link_output = some out;
        })
        else find c path)
unfolding put_read_link
find-put_read_link now c q out path = elim (Option-cases (find c q)) [
  | inl e ↦ rw (e, put_read_link) (simp find-put)
  | inr (r, e) ↦ rw (e, put_read_link) (simp find-put)
]

pub find-invalidate :
    (c : FileCache) (q path : Text)
    → find (invalidate c q) path ≡ (if text_eq q path then none else find c path)
unfolding invalidate
find-invalidate c q path = elim (Option-cases (find c q)) [
  | inl e ↦ rw (e, invalidate) (ground (arith, text_eq_iff q path))
  | inr (r, e) ↦ rw (e, invalidate) (find-erase c q path)
]

-- Nothing was put for a path that has no time.
no_put :
    (h : List Event) (path : Text)
    → last_put path h ≡ none
    → (last_stat path h ≡ none) × (last_link path h ≡ none)
no_put [] path e = (refl, refl)
no_put (stat_put now q out ∷ h) path e = ground (arith, no_put h path)
no_put (link_put now q out ∷ h) path e = ground (arith, no_put h path)
no_put (invalidated q ∷ h) path e = ground (arith, no_put h path)

find-run :
    (h : List Event) (path : Text)
    → find (run h) path ≡ entry_of (last_put path h) (last_stat path h) (last_link path h)
unfolding run
find-run [] path = unfold find in refl
find-run (stat_put now q out ∷ h) path = ground (
  arith,
  find-put_stat now (run h) q out path,
  find-run h path,
  find-run h q,
  no_put h q,
  text_eq_iff q path,
)
find-run (link_put now q out ∷ h) path = ground (
  arith,
  find-put_read_link now (run h) q out path,
  find-run h path,
  find-run h q,
  no_put h q,
  text_eq_iff q path,
)
find-run (invalidated q ∷ h) path = ground (arith, find-invalidate (run h) q path, find-run h path)

-- Less than two minutes have passed since the time.
abbrev pub is_fresh : ℕ → Option ℕ → Bool
is_fresh now none = false
is_fresh now (some t) = ltb now (t + seconds_valid)

-- After any calls, a lookup gives what the command last printed for the path since the path was last
-- invalidated, if less than two minutes have passed since something, of either command, was put for
-- the path, and NULL otherwise.
pub get-run :
    (now : ℕ) (h : List Event) (path : Text)
    → (get_stat now (run h) path
        ≡ (if is_fresh now (last_put path h) then last_stat path h else none))
      × (get_read_link now (run h) path
          ≡ (if is_fresh now (last_put path h) then last_link path h else none))
unfolding get_stat get_read_link
get-run now h path = rw (find-run h path, get_stat, get_read_link) (ground arith)

-- What `stat` printed for a path, however long ago, is served again once `readlink` is cached for it.
pub get_stat-put_read_link :
    (before now : ℕ) (h : List Event) (path : Text) (out link : List Text)
    → get_stat now (run (link_put now path link ∷ stat_put before path out ∷ h)) path ≡ some out
get_stat-put_read_link before now h path out link =
    (get-run now (link_put now path link ∷ stat_put before path out ∷ h) path).0
    ∙ ground (arith, text_eq_refl path)
