-- ===== src/FileCache/Pointers/Lifetime.antt =====
-- How long a list is there that `FileCache::getStat` of src/fileinfoCache.cpp has returned a pointer to.
use adbncfs.Prelude.{
  ℕ, ◌≡◌, refl, sym, ap, ◌∙◌, inl, inr, false, Option, none, some, List, arith, ==_refl,
  if◌then◌else◌, Bool-cases, Option-cases, Text, text_eq, text_eq_iff,
}
use adbncfs.Prelude.Dict.{Dict, find, put, find-put}
use adbncfs.FileCache.{FileCache, new_entry, set_stat_output, put_stat}
use adbncfs.FileCache.Pointers.{EntryObject, Store, put_stat_at}
use adbncfs.FileCache.Pointers.Owning.{at, owned}
use adbncfs.FileCache.Pointers.Owned.{IsOwned}
use adbncfs.FileCache.Pointers.Values.{value_at, find-values_found, pointers-found}
use adbncfs.FileCache.Pointers.Refinement.{cache_of, below_next, put_stat_at-values}

-- An entry of another path is not touched.
find-put_stat_other :
    (now : ℕ) (c : FileCache) (q k : Text) (l : List Text)
    → text_eq q k ≡ false
    → find (put_stat now c q l) k ≡ find c k
unfolding put_stat
find-put_stat_other now c q k l n = elim (Option-cases (find c q)) [
  | inl e ↦ rw (e, put_stat) (ground (arith, find-put c q (set_stat_output (new_entry now) l) k, n))
  | inr (x, e) ↦
      rw (e, put_stat)
        (ground (arith, find-put c q (record (set_stat_output x l) { timestamp = now }) k, n))
]

put_other :
    (d : Dict EntryObject) (q k : Text) (e : EntryObject)
    → text_eq q k ≡ false
    → find (put d q e) k ≡ find d k
put_other d q k e n = ground (arith, find-put d q e k, n)

find-put_stat_at_other :
    (now : ℕ) (s : Store) (q k : Text) (l : List Text)
    → text_eq q k ≡ false
    → find (put_stat_at now s q l).entries k ≡ find s.entries k
unfolding put_stat_at
find-put_stat_at_other now s q k l n = elim (Option-cases (find s.entries q)) [
  | inl e ↦ rw (e, put_stat_at) (put_other s.entries q k _ n)
  | inr (x, e) ↦ rw (e, put_stat_at) (put_other s.entries q k _ n)
]

kept_other :
    (now : ℕ) (s : Store) (q k : Text) (l : List Text) (x : EntryObject) (p : ℕ)
    → IsOwned s
    → find s.entries k ≡ some x
    → x.p_stat_output ≡ some p
    → text_eq q k ≡ false
    → (put_stat_at now s q l).heap.cell p ≡ s.heap.cell p
kept_other now s q k l x p i f g n =
    let s' = put_stat_at now s q l in
    let after =
      find-values_found s'.heap s'.entries k x (find-put_stat_at_other now s q k l n ∙ f) in
    let before = find-values_found s.heap s.entries k x f in
    let same =
      ap (λ c. find c k) (put_stat_at-values now s q l i)
      ∙ find-put_stat_other now (cache_of s) q k l n in
    let output : value_at s'.heap x.p_stat_output ≡ value_at s.heap x.p_stat_output =
      ap (λ o. elim o as (λ z. Option (List Text)) [ none ↦ none | some e ↦ e.stat_output ])
        (sym after ∙ same ∙ before) in
    ap (value_at s'.heap) (sym g) ∙ output ∙ ap (value_at s.heap) g

deleted_same :
    (now : ℕ) (s : Store) (q : Text) (l : List Text) (x : EntryObject) (p : ℕ)
    → IsOwned s
    → find s.entries q ≡ some x
    → x.p_stat_output ≡ some p
    → (put_stat_at now s q l).heap.cell p ≡ none
unfolding put_stat_at
deleted_same now s q l x p i f g =
    let one : at x.p_stat_output p ≡ 1 = rw g (rw (==_refl p) refl) in
    let has = pointers-found s.entries q x p f in
    let below = below_next s.heap (owned s.entries) p i.owns (omega (arith, one, has)) in
    rw (f, put_stat_at) (rw g (ground (arith, below, ==_refl p)))

-- The list of a pointer that getStat returned for a path is there, and is the same, behind a putStat
-- for another path; a putStat for the same path deletes it.
pub put_stat_at-lifetime :
    (now : ℕ) (s : Store) (q k : Text) (l : List Text) (x : EntryObject) (p : ℕ)
    → IsOwned s
    → find s.entries k ≡ some x
    → x.p_stat_output ≡ some p
    → (put_stat_at now s q l).heap.cell p ≡ (if text_eq q k then none else s.heap.cell p)
put_stat_at-lifetime now s q k l x p i f g = elim (Bool-cases (text_eq q k)) [
  | inl t ↦ rw t (deleted_same now s q l x p i (ap (find s.entries) ((text_eq_iff q k).0 t) ∙ f) g)
  | inr n ↦ rw n (kept_other now s q k l x p i f g n)
]
