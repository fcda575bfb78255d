-- ===== src/Prelude/Dict.antt =====
-- `std::map<string, V>` as an association list. The program never reads the order of the keys.
use mathlib.Core.Path.{◌≡◌, refl, sym, ap, ◌∙◌}
use mathlib.Core.Bool.{true, false}
use mathlib.Core.List.{List, [], ◌∷◌}
use mathlib.Core.Option.{Option, none, some}
use native.Mathlib.Omega.{arith}
use adbncfs.Prelude.Tests.{if◌then◌else◌}
use adbncfs.Prelude.Bytes.{Text, text_eq, text_eq_iff}

abbrev pub Dict {ℓ} : Type ℓ → Type ℓ
Dict V = List (Text × V)

module _ {ℓ} {V : Type ℓ} where
  -- m.find(k)
  unfoldable pub find : Dict V → Text → Option V
  find [] k = none
  find ((j, v) ∷ m) k = if text_eq j k then some v else find m k

  -- m[k] = v
  unfoldable pub put : Dict V → Text → V → Dict V
  put [] k v = (k, v) ∷ []
  put ((j, w) ∷ m) k v = if text_eq j k then (j, v) ∷ m else (j, w) ∷ put m k v

  -- m.erase(k)
  unfoldable pub erase : Dict V → Text → Dict V
  erase [] k = []
  erase ((j, w) ∷ m) k = let rest = erase m k in if text_eq j k then rest else (j, w) ∷ rest

  -- m.insert(make_pair(k, v)), which keeps an entry that is there
  unfoldable pub insert : Dict V → Text → V → Dict V
  insert [] k v = (k, v) ∷ []
  insert ((j, w) ∷ m) k v = if text_eq j k then (j, w) ∷ m else (j, w) ∷ insert m k v

  pub find-put :
      (m : Dict V) (k : Text) (v : V) (j : Text)
      → find (put m k v) j ≡ (if text_eq k j then some v else find m j)
  unfolding find put
  find-put [] k v j = refl
  find-put ((i, w) ∷ m) k v j =
      ground (arith, text_eq_iff i k, text_eq_iff i j, text_eq_iff k j, find-put m k v j)

  -- Where a key is found: at the head of the list, or behind it.
  pub find_head :
      (m : Dict V) (j k : Text) (v w : V)
      → text_eq j k ≡ true
      → find ((j, v) ∷ m) k ≡ some w
      → v ≡ w
  unfolding find
  find_head m j k v w t e =
      let same : some v ≡ some w = sym (ap (λ b. if b then some v else find m k) t) ∙ e in cc

  pub find_behind :
      (m : Dict V) (j k : Text) (v : V) (w : Option V)
      → text_eq j k ≡ false
      → find ((j, v) ∷ m) k ≡ w
      → find m k ≡ w
  unfolding find
  find_behind m j k v w f e = sym (ap (λ b. if b then some v else find m k) f) ∙ e

  -- A value that is put again.
  pub put_same : (m : Dict V) (k : Text) (v : V) → find m k ≡ some v → put m k v ≡ m
  unfolding find put
  put_same [] k v e = cc
  put_same ((j, w) ∷ m) k v e = ground (arith, put_same m k v)

  pub find-erase :
      (m : Dict V) (k j : Text) → find (erase m k) j ≡ (if text_eq k j then none else find m j)
  unfolding find erase
  find-erase [] k j = ground arith
  find-erase ((i, w) ∷ m) k j =
      ground (arith, text_eq_iff i k, text_eq_iff i j, text_eq_iff k j, find-erase m k j)

  abbrev pub or_else : Option V → V → Option V
  or_else none v = some v
  or_else (some w) v = some w

  pub find-insert :
      (m : Dict V) (k : Text) (v : V) (j : Text)
      → find (insert m k v) j ≡ (if text_eq k j then or_else (find m j) v else find m j)
  unfolding find insert
  find-insert [] k v j = refl
  find-insert ((i, w) ∷ m) k v j =
      ground (arith, text_eq_iff i k, text_eq_iff i j, text_eq_iff k j, find-insert m k v j)

pub ruleset dict_laws = (find-put, find-erase, find-insert)
