-- ===== src/Fs/Attributes/Tokens.antt =====
-- Which outputs of `stat -t` `adbnc_getattr` can read.
use adbncfs.Prelude.{
  ℕ, zero, suc, ◌≤◌, ◌<◌, ◌≡◌, refl, inl, inr, Option, none, some, List, [], ◌∷◌, ◌++◌, arith,
  Option-cases, length, get_elem?, All, Text,
}
use adbncfs.Prelude.Int.{ℤ, pos, neg}
use adbncfs.Strings.Numbers.{stoul, stoul_hex, stol}
use adbncfs.Fs.State.{ok, fault, out_of_range, eio}
use adbncfs.Fs.Attributes.{
  Stat, zero_stat, Filling, filled, thrown, no_token, assign, in_order, first_fields,
  block_size_field, last_fields, stat_fields, fill_stat, attr_result,
}

get_elem?-some {ℓ} :
    {A : Type ℓ} (ts : List A) (i : ℕ) → i < length ts → (t : A) × (get_elem? ts i ≡ some t)
get_elem?-some [] i h = elim h [ ]
get_elem?-some (t ∷ ts) zero h = (t, refl)
get_elem?-some (t ∷ ts) (suc i) h = get_elem?-some ts i (omega arith)

get_elem?-none {ℓ} : {A : Type ℓ} (ts : List A) (i : ℕ) → length ts ≤ i → get_elem? ts i ≡ none
get_elem?-none [] i h = refl
get_elem?-none (t ∷ ts) zero h = absurd (omega arith)
get_elem?-none (t ∷ ts) (suc i) h = get_elem?-none ts i (omega arith)

-- The index was in range.
abbrev pub HasToken {ℓ} : {B : Type ℓ} → Filling B → Type 0
HasToken (filled b) = Unit
HasToken (thrown b) = Unit
HasToken no_token = ⊥

module _ {B A : Type 0} where
  pub assign-HasToken :
      (ts : List Text) (i : ℕ) (read : Text → Option A) (put : B → A → B) (b : B)
      → i < length ts
      → HasToken (assign ts i read put b)
  unfolding assign
  assign-HasToken ts i read put b h =
      let (t, e) = get_elem?-some ts i h in
      rw (e, assign)
        (elim (Option-cases (read t)) [
          | inl n ↦ rw (n, HasToken) tt
          | inr (a, n) ↦ rw (n, HasToken) tt
        ])

pub in_order-HasToken :
    {B : Type 0} (fs : List (B → Filling B)) (b : B)
    → All (λ f. (c : B) → HasToken (f c)) fs
    → HasToken (in_order fs b)
unfolding in_order
in_order-HasToken [] b h = tt
in_order-HasToken (f ∷ fs) b h = go (f b) (h.0 b) (λ c. in_order-HasToken fs c h.1)
  where
    go :
        (x : Filling _)
        → HasToken x
        → ((c : _) → HasToken (in_order fs c))
        → HasToken
            (elim x [ filled b' ↦ in_order fs b' | thrown b' ↦ thrown b' | no_token ↦ no_token ])
    go (filled c) h k = k c
    go (thrown c) h k = tt
    go no_token h k = h

stat_fields-HasToken :
    (ts : List Text) → 15 ≤ length ts → All (λ f. (c : Stat) → HasToken (f c)) (stat_fields ts)
stat_fields-HasToken ts h = (
  λ c. assign-HasToken ts 7 stoul _ c (omega arith),
  (
    λ c. assign-HasToken ts 3 stoul_hex _ c (omega arith),
    (
      λ c. assign-HasToken ts 4 stoul _ c (omega arith),
      (
        λ c. assign-HasToken ts 5 stoul _ c (omega arith),
        (
          λ c. assign-HasToken ts 6 stoul_hex _ c (omega arith),
          (
            λ c. assign-HasToken ts 1 stoul _ c (omega arith),
            (
              λ c. assign-HasToken ts 14 stol _ c (omega arith),
              (
                λ c. assign-HasToken ts 2 stoul _ c (omega arith),
                (
                  λ c. assign-HasToken ts 11 stol _ c (omega arith),
                  (
                    λ c. assign-HasToken ts 12 stol _ c (omega arith),
                    (λ c. assign-HasToken ts 13 stol _ c (omega arith), tt),
                  ),
                ),
              ),
            ),
          ),
        ),
      ),
    ),
  ),
)

-- A token that reads as a number, in both bases.
abbrev pub IsNumber : Text → Type 0
IsNumber t = ((n : ℕ) × (stoul t ≡ some n)) × ((n : ℕ) × (stoul_hex t ≡ some n))

get_elem?-All :
    (P : Text → Type 0) (ts : List Text) (i : ℕ)
    → All P ts
    → i < length ts
    → (t : Text) × (get_elem? ts i ≡ some t) × P t
get_elem?-All P [] i h n = elim n [ ]
get_elem?-All P (t ∷ ts) zero h n = (t, refl, h.0)
get_elem?-All P (t ∷ ts) (suc i) h n = get_elem?-All P ts i h.1 (omega arith)

-- An assignment that does not end the block.
abbrev Continues {ℓ} : {B : Type ℓ} → (B → Filling B) → Type ℓ
Continues {B = B} f = (c : B) → (d : B) × (f c ≡ filled d)

assign-Continues :
    (ts : List Text) (i : ℕ) (put : Stat → ℕ → Stat)
    → All IsNumber ts
    → i < length ts
    → Continues (assign ts i stoul put) × Continues (assign ts i stoul_hex put)
unfolding assign
assign-Continues ts i put h n =
    let (t, e, ((a, p), (b, q))) = get_elem?-All IsNumber ts i h n in
    (λ c. (put c a, rw (e, assign) (rw p)), λ c. (put c b, rw (e, assign) (rw q)))

in_order-no_token :
    {B : Type 0} (fs gs : List (B → Filling B)) (g : B → Filling B) (b : B)
    → All (λ f. (c : B) → (d : B) × (f c ≡ filled d)) fs
    → ((c : B) → g c ≡ no_token)
    → in_order (fs ++ g ∷ gs) b ≡ no_token
unfolding in_order
in_order-no_token [] gs g b h k = rw (k b)
in_order-no_token (f ∷ fs) gs g b h k =
    let (d, e) = h.0 b in rw (e, in_order) (in_order-no_token fs gs g d h.1 k)

fill_stat-HasToken : (ts : List Text) (b : Stat) → 15 ≤ length ts → HasToken (fill_stat ts b)
unfolding fill_stat
fill_stat-HasToken ts b h = in_order-HasToken (stat_fields ts) b (stat_fields-HasToken ts h)

result_of_filling :
    (ts : List Text) (x : Filling Stat)
    → fill_stat ts zero_stat ≡ x
    → HasToken x
    → (r : ℤ × Stat) × (attr_result (pos 0, ts) ≡ ok r)
unfolding attr_result
result_of_filling ts (filled b) e h = ((pos 0, b), rw (e, attr_result))
result_of_filling ts (thrown b) e h = ((neg eio, b), rw (e, attr_result))
result_of_filling ts no_token e h = elim h [ ]

-- With 15 tokens, the callback returns, whatever the tokens are.
pub attr_result_total :
    (ts : List Text) → 15 ≤ length ts → (r : ℤ × Stat) × (attr_result (pos 0, ts) ≡ ok r)
attr_result_total ts h =
    result_of_filling ts (fill_stat ts zero_stat) refl (fill_stat-HasToken ts zero_stat h)

-- The statements before the one that wants token 14.
first_fields-Continues :
    (ts : List Text)
    → 13 ≤ length ts
    → All IsNumber ts
    → All (λ f. (c : Stat) → (d : Stat) × (f c ≡ filled d)) (first_fields ts)
first_fields-Continues ts h n = (
  (assign-Continues ts 7 _ n (omega arith)).0,
  (
    (assign-Continues ts 3 _ n (omega arith)).1,
    (
      (assign-Continues ts 4 _ n (omega arith)).0,
      (
        (assign-Continues ts 5 _ n (omega arith)).0,
        (
          (assign-Continues ts 6 _ n (omega arith)).1,
          ((assign-Continues ts 1 _ n (omega arith)).0, tt),
        ),
      ),
    ),
  ),
)

block_size_field-no_token :
    (ts : List Text) (c : Stat) → length ts < 15 → block_size_field ts c ≡ no_token
unfolding assign
block_size_field-no_token ts c h = rw (get_elem?-none ts 14 (omega arith), assign)

-- With 13 or 14 tokens, which `doStat` lets through, and all of them numbers, the callback reads
-- behind the end of the tokens.
pub attr_result_out_of_range :
    (ts : List Text)
    → 13 ≤ length ts
    → length ts < 15
    → All IsNumber ts
    → attr_result (pos 0, ts) ≡ fault out_of_range
unfolding attr_result
attr_result_out_of_range ts h k n =
    let e : fill_stat ts zero_stat ≡ no_token =
      in_order-no_token (first_fields ts) (last_fields ts) (block_size_field ts) zero_stat
        (first_fields-Continues ts h n) (λ c. block_size_field-no_token ts c k) in
    rw (e, attr_result)
