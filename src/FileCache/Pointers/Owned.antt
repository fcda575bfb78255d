-- ===== src/FileCache/Pointers/Owned.antt =====
-- The entries of `FileCache` in src/fileinfoCache.cpp and the lists that they own.
use adbncfs.Prelude.{
  ℕ, ◌+◌, ◌≡◌, refl, sym, ap, ◌∙◌, inl, inr, false, Option, none, some, List, [], ◌∷◌, arith,
  Bool-cases, Option-cases, Text, text_eq, text_eq_iff,
}
use adbncfs.Prelude.Dict.{Dict, find, put, erase, find_head, find_behind, find-put, find-erase}
use adbncfs.FileCache.History.{Event}
use adbncfs.FileCache.History
use adbncfs.FileCache.Pointers.{
  Heap, EntryObject, null_entry, destroy_entry, copy_entry, replace_stat_output,
  replace_read_link_output, Store, insert_entry, update_entry, put_stat_at, put_read_link_at,
  invalidate_at, destroy_all, run_at,
}
use adbncfs.FileCache.Pointers.Owning.{
  live, pointers, owned, Owns, Owns-same, destroy_entry-Owns, copy_entry-Owns,
  replace_stat_output-Owns, replace_read_link_output-Owns,
}

owned-put_new :
    (d : Dict EntryObject) (k : Text) (e : EntryObject) (p : ℕ)
    → find d k ≡ none
    → owned (put d k e) p ≡ pointers e p + owned d p
unfolding find put
owned-put_new [] k e p h = refl
owned-put_new ((j, x) ∷ d) k e p h = ground (arith, owned-put_new d k e p)

owned-put_old :
    (d : Dict EntryObject) (k : Text) (e x : EntryObject) (p : ℕ)
    → find d k ≡ some x
    → pointers x p + owned (put d k e) p ≡ pointers e p + owned d p
unfolding find put
owned-put_old [] k e x p h = absurd (cc)
owned-put_old ((j, y) ∷ d) k e x p h = elim (Bool-cases (text_eq j k)) [
  | inl t ↦ let same = find_head d j k y x t h in rw t (rw same (omega arith))
  | inr f ↦
      let found = find_behind d j k y (some x) f h in
      let rest = owned-put_old d k e x p found in rw f (omega (arith, rest))
]

-- Each path has one entry.
abbrev pub IsUnique : Dict EntryObject → Type 0
IsUnique [] = Unit
IsUnique ((k, e) ∷ d) = (find d k ≡ none) × IsUnique d

IsUnique-put :
    (d : Dict EntryObject) (k : Text) (e : EntryObject) → IsUnique d → IsUnique (put d k e)
unfolding put find
IsUnique-put [] k e u = (refl, tt)
IsUnique-put ((j, x) ∷ d) k e u = elim (Bool-cases (text_eq j k)) [
  | inl t ↦ rw t u
  | inr f ↦ rw f (
    ground (arith, find-put d k e j, text_eq_iff k j, text_eq_iff j k, u.0),
    IsUnique-put d k e u.1,
  )
]

IsUnique-erase : (d : Dict EntryObject) (k : Text) → IsUnique d → IsUnique (erase d k)
unfolding erase
IsUnique-erase [] k u = tt
IsUnique-erase ((j, x) ∷ d) k u = elim (Bool-cases (text_eq j k)) [
  | inl t ↦ rw t (IsUnique-erase d k u.1)
  | inr f ↦ rw f (ground (arith, find-erase d k j, u.0), IsUnique-erase d k u.1)
]

owned-erase_absent :
    (d : Dict EntryObject) (k : Text) (p : ℕ) → find d k ≡ none → owned (erase d k) p ≡ owned d p
unfolding find erase
owned-erase_absent [] k p h = refl
owned-erase_absent ((j, x) ∷ d) k p h = ground (arith, owned-erase_absent d k p)

pub owned-erase_old :
    (d : Dict EntryObject) (k : Text) (x : EntryObject) (p : ℕ)
    → IsUnique d
    → find d k ≡ some x
    → owned d p ≡ pointers x p + owned (erase d k) p
unfolding find erase
owned-erase_old [] k x p u h = absurd (cc)
owned-erase_old ((j, y) ∷ d) k x p u h = elim (Bool-cases (text_eq j k)) [
  | inl t ↦
      let same = find_head d j k y x t h in
      let key : j ≡ k = (text_eq_iff j k).0 t in
      let gone = owned-erase_absent d k p (sym (ap (find d) key) ∙ u.0) in
      rw t (rw same (omega (arith, gone)))
  | inr f ↦
      let found = find_behind d j k y (some x) f h in
      let rest = owned-erase_old d k x p u.1 found in rw f (omega (arith, rest))
]

-- The heap holds exactly the lists that the entries own, each of them once.
pub record IsOwned (s : Store) : Type 0 where
  pub owns : Owns s.heap (owned s.entries)
  pub unique : IsUnique s.entries

-- A new entry that owns its lists moves into the map.
insert_entry-IsOwned :
    (now : ℕ) (d : Dict EntryObject) (k : Text) (r : EntryObject × Heap)
    → IsUnique d
    → find d k ≡ none
    → Owns r.1 (λ p. pointers r.0 p + owned d p)
    → IsOwned (insert_entry now d k r)
insert_entry-IsOwned now d k r u n o =
    let (e, h) = r in
    record {
      owns = destroy_entry-Owns (copy_entry h e).1 e _ (
          Owns-same _ _ _ (copy_entry-Owns h e (owned d) o)
            (λ p. let q = owned-put_new d k (copy_entry h e).0 p n in omega (arith, q)));
      unique = IsUnique-put d k (copy_entry h e).0 u;
    }

-- An entry in the map that has got a new list.
update_entry-IsOwned :
    (now : ℕ) (d : Dict EntryObject) (k : Text) (x : EntryObject) (r : EntryObject × Heap)
    (b : ℕ → ℕ)
    → IsUnique d
    → find d k ≡ some x
    → ((p : ℕ) → owned d p ≡ pointers x p + b p)
    → Owns r.1 (λ p. pointers r.0 p + b p)
    → IsOwned (update_entry now d k r)
update_entry-IsOwned now d k x r b u f split o =
    let (e, h) = r in
    record {
      owns = Owns-same h _ _ o (λ p.
          let q = owned-put_old d k (record e { time = now }) x p f in
          let r = split p in omega (arith, q, r));
      unique = IsUnique-put d k (record e { time = now }) u;
    }

put_stat_at-IsOwned :
    (now : ℕ) (s : Store) (k : Text) (l : List Text) → IsOwned s → IsOwned (put_stat_at now s k l)
unfolding put_stat_at
put_stat_at-IsOwned now s k l i = elim (Option-cases (find s.entries k)) [
  | inl n ↦
      rw (n, put_stat_at)
        (insert_entry-IsOwned now s.entries k (replace_stat_output s.heap (null_entry now) l)
          i.unique n
          (replace_stat_output-Owns s.heap (null_entry now) l (owned s.entries)
            (Owns-same _ _ _ i.owns (λ p. omega arith))))
  | inr (x, f) ↦
      let b = owned (erase s.entries k) in
      let split = λ (p : ℕ). owned-erase_old s.entries k x p i.unique f in
      rw (f, put_stat_at)
        (update_entry-IsOwned now s.entries k x (replace_stat_output s.heap x l) b i.unique f split
          (replace_stat_output-Owns s.heap x l b (Owns-same _ _ _ i.owns split)))
]

put_read_link_at-IsOwned :
    (now : ℕ) (s : Store) (k : Text) (l : List Text)
    → IsOwned s
    → IsOwned (put_read_link_at now s k l)
unfolding put_read_link_at
put_read_link_at-IsOwned now s k l i = elim (Option-cases (find s.entries k)) [
  | inl n ↦
      rw (n, put_read_link_at)
        (insert_entry-IsOwned now s.entries k (replace_read_link_output s.heap (null_entry now) l)
          i.unique n
          (replace_read_link_output-Owns s.heap (null_entry now) l (owned s.entries)
            (Owns-same _ _ _ i.owns (λ p. omega arith))))
  | inr (x, f) ↦
      let b = owned (erase s.entries k) in
      let split = λ (p : ℕ). owned-erase_old s.entries k x p i.unique f in
      rw (f, put_read_link_at)
        (update_entry-IsOwned now s.entries k x (replace_read_link_output s.heap x l) b i.unique f
          split (replace_read_link_output-Owns s.heap x l b (Owns-same _ _ _ i.owns split)))
]

invalidate_at-IsOwned : (s : Store) (k : Text) → IsOwned s → IsOwned (invalidate_at s k)
unfolding invalidate_at
invalidate_at-IsOwned s k i = elim (Option-cases (find s.entries k)) [
  | inl n ↦ rw (n, invalidate_at) i
  | inr (x, f) ↦
      rw (f, invalidate_at)
        (record {
          owns =
              destroy_entry-Owns s.heap x _
                (Owns-same _ _ _ i.owns (λ p. owned-erase_old s.entries k x p i.unique f));
          unique = IsUnique-erase s.entries k i.unique;
        })
]

-- After any history of putStat, putReadLink and invalidate, each list on the heap belongs to exactly
-- one pointer of one entry, each pointer of an entry has a list, and no list was read or deleted
-- after it had been deleted.
pub run_at-IsOwned : (h : List Event) → IsOwned (run_at h)
unfolding run_at
run_at-IsOwned [] = record {
  owns = record { sound = λ p. refl; fresh = λ p e. refl; whole = refl };
  unique = tt;
}
run_at-IsOwned (History.stat_put now k l ∷ h) =
    put_stat_at-IsOwned now (run_at h) k l (run_at-IsOwned h)
run_at-IsOwned (History.link_put now k l ∷ h) =
    put_read_link_at-IsOwned now (run_at h) k l (run_at-IsOwned h)
run_at-IsOwned (History.invalidated k ∷ h) = invalidate_at-IsOwned (run_at h) k (run_at-IsOwned h)

destroy_all-Owns :
    (d : Dict EntryObject) (h : Heap) → Owns h (owned d) → Owns (destroy_all h d) (λ p. 0)
destroy_all-Owns [] h o = o
destroy_all-Owns ((k, e) ∷ d) h o =
    destroy_all-Owns d (destroy_entry h e) (destroy_entry-Owns h e (owned d) o)

not_live : (c : Option (List Text)) → live c ≡ 0 → c ≡ none
not_live none e = refl
not_live (some l) e = ground (arith, e)

-- After any history of the calls and the destructor of FileCache, no list is left on the heap, and
-- none was read or deleted after it had been deleted.
pub destroy_all-run_at :
    (h : List Event) (p : ℕ)
    → let left = destroy_all (run_at h).heap (run_at h).entries in
      (left.cell p ≡ none) × (left.broken ≡ false)
destroy_all-run_at h p =
    let o = destroy_all-Owns (run_at h).entries (run_at h).heap (run_at-IsOwned h).owns in
    (not_live _ (o.sound p), o.whole)
