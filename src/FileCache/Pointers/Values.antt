-- ===== src/FileCache/Pointers/Values.antt =====
-- The lists behind the pointers: the entries on the heap against `FileCache.Entry`, which holds its
-- lists itself.
use adbncfs.Prelude.{
  ℕ, suc, ◌≤◌, ◌≡◌, refl, sym, ap, inl, inr, Option, none, some, List, [], ◌∷◌, arith, ==_refl,
  Bool-cases, Text, text_eq,
}
use adbncfs.Prelude.Dict.{Dict, find, put, erase, find_head, find_behind}
use adbncfs.FileCache.{Entry, FileCache}
use adbncfs.FileCache.Pointers.{Heap, EntryObject}
use adbncfs.FileCache.Pointers.Owning.{at, pointers, owned}

abbrev pub value_at : Heap → Option ℕ → Option (List Text)
value_at h none = none
value_at h (some p) = h.cell p

abbrev pub value : Heap → EntryObject → Entry
value h e = record {
  timestamp = e.time;
  stat_output = value_at h e.p_stat_output;
  read_link_output = value_at h e.p_read_link_output;
}

abbrev pub values : Heap → Dict EntryObject → FileCache
values h [] = []
values h ((k, e) ∷ d) = (k, value h e) ∷ values h d

-- Where the owners' lists stay, so do the values.
abbrev pub IsKept : Heap → Heap → (ℕ → ℕ) → Type 0
IsKept h h' b = (p : ℕ) → 1 ≤ b p → h'.cell p ≡ h.cell p

pub value_at-IsKept :
    (h h' : Heap) (q : Option ℕ) (b : ℕ → ℕ)
    → ((p : ℕ) → at q p ≤ b p)
    → IsKept h h' b
    → value_at h' q ≡ value_at h q
value_at-IsKept h h' none b l k = refl
value_at-IsKept h h' (some q) b l k = let m = l q in k q (ground (arith, m, ==_refl q))

value-IsKept :
    (h h' : Heap) (e : EntryObject) (b : ℕ → ℕ)
    → ((p : ℕ) → pointers e p ≤ b p)
    → IsKept h h' b
    → value h' e ≡ value h e
value-IsKept h h' e b l k =
    let s = value_at-IsKept h h' e.p_stat_output b (λ p. let m = l p in omega (arith, m)) k in
    let r = value_at-IsKept h h' e.p_read_link_output b (λ p. let m = l p in omega (arith, m)) k in
    rw s (rw r refl)

pub values-IsKept :
    (h h' : Heap) (d : Dict EntryObject) → IsKept h h' (owned d) → values h' d ≡ values h d
values-IsKept h h' [] k = refl
values-IsKept h h' ((j, e) ∷ d) k =
    let head = value-IsKept h h' e (owned ((j, e) ∷ d)) (λ p. omega arith) k in
    let tail = values-IsKept h h' d (λ p l. k p (omega (arith, l))) in rw head (rw tail refl)

pub find-values_absent :
    (h : Heap) (d : Dict EntryObject) (k : Text) → find d k ≡ none → find (values h d) k ≡ none
unfolding find
find-values_absent h [] k e = refl
find-values_absent h ((j, x) ∷ d) k e = ground (arith, find-values_absent h d k)

pub find-values_found :
    (h : Heap) (d : Dict EntryObject) (k : Text) (x : EntryObject)
    → find d k ≡ some x
    → find (values h d) k ≡ some (value h x)
unfolding find
find-values_found h [] k x e = absurd (cc)
find-values_found h ((j, y) ∷ d) k x e = elim (Bool-cases (text_eq j k)) [
  | inl t ↦ rw t (ap (λ z. some (value h z)) (find_head d j k y x t e))
  | inr f ↦ rw f (find-values_found h d k x (find_behind d j k y (some x) f e))
]

pub values-put :
    (h : Heap) (d : Dict EntryObject) (k : Text) (e : EntryObject)
    → values h (put d k e) ≡ put (values h d) k (value h e)
unfolding put
values-put h [] k e = refl
values-put h ((j, x) ∷ d) k e = elim (Bool-cases (text_eq j k)) [
  | inl t ↦ rw t refl
  | inr f ↦ rw f (ap (λ r. (j, value h x) ∷ r) (values-put h d k e))
]

pub values-erase :
    (h : Heap) (d : Dict EntryObject) (k : Text) → values h (erase d k) ≡ erase (values h d) k
unfolding erase
values-erase h [] k = refl
values-erase h ((j, x) ∷ d) k = elim (Bool-cases (text_eq j k)) [
  | inl t ↦ rw t (values-erase h d k)
  | inr f ↦ rw f (ap (λ r. (j, value h x) ∷ r) (values-erase h d k))
]

pub pointers-found :
    (d : Dict EntryObject) (k : Text) (x : EntryObject) (p : ℕ)
    → find d k ≡ some x
    → pointers x p ≤ owned d p
unfolding find
pointers-found [] k x p e = absurd (cc)
pointers-found ((j, y) ∷ d) k x p e = elim (Bool-cases (text_eq j k)) [
  | inl t ↦ let same = find_head d j k y x t e in rw (sym same) (omega arith)
  | inr f ↦
      let rest = pointers-found d k x p (find_behind d j k y (some x) f e) in omega (arith, rest)
]

-- An entry in the map is changed: the other entries keep their lists.
pub values-put_kept :
    (h h' : Heap) (d : Dict EntryObject) (k : Text) (e x : EntryObject)
    → find d k ≡ some x
    → ((p : ℕ) → suc (pointers x p) ≤ owned d p → h'.cell p ≡ h.cell p)
    → values h' (put d k e) ≡ put (values h d) k (value h' e)
unfolding find put
values-put_kept h h' [] k e x f g = absurd (cc)
values-put_kept h h' ((j, y) ∷ d) k e x f g = elim (Bool-cases (text_eq j k)) [
  | inl t ↦
      let same = sym (find_head d j k y x t f) in
      let tail =
        values-IsKept h h' d
          (λ p l. let eq = ap (λ z. pointers z p) same in g p (omega (arith, l, eq))) in
      rw t (ap (λ r. (j, value h' e) ∷ r) tail)
  | inr n ↦
      let found = find_behind d j k y (some x) n f in
      let head =
        value-IsKept h h' y (pointers y) (λ p. omega arith)
          (λ p l. let q = pointers-found d k x p found in g p (omega (arith, l, q))) in
      let tail = values-put_kept h h' d k e x found (λ p l. g p (omega (arith, l))) in
      rw n (rw head (rw tail refl))
]
