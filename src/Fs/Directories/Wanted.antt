-- ===== src/Fs/Directories/Wanted.antt =====
-- What a call of `adbnc_readdir` is asked for, and how what two calls are asked for fits together.
use adbncfs.Prelude.{
  ℕ, zero, suc, ◌+◌, ◌≤◌, ◌<◌, ◌≡◌, refl, sym, ap, ◌∙◌, ◌≢◌, inl, inr, true, false, ◌||◌, List, [],
  ◌∷◌, ◌++◌, append_assoc, arith, ltb, lt→ltb, if◌then◌else◌, Bool-cases, take, drop, Text,
}

-- An entry in the buffer: its name, and the offset at which to go on.
abbrev pub Listed : Type 0
Listed = Text × ℕ

-- The entries of a listing that a call is asked for: all but the first two, from the offset on.
abbrev pub wanted : ℕ → List Text → ℕ → List Listed
wanted offset [] i = []
wanted offset (name ∷ names) i =
    let rest = wanted offset names (suc i) in
    if ltb i 2 || ltb i offset then rest else (name, i + 1) ∷ rest

nil-ne-cons {ℓ} : {A : Type ℓ} {a : A} {l : List A} → [] ≢ a ∷ l
nil-ne-cons e = cc

cons_eq {ℓ} : {A : Type ℓ} {a b : A} {l m : List A} → a ∷ l ≡ b ∷ m → (a ≡ b) × (l ≡ m)
cons_eq e = (cc, cc)

entry_eq : (a b : Listed) → a ≡ b → a.1 ≡ b.1
entry_eq a b e = ap (λ p. p.1) e

wanted_skip :
    (offset : ℕ) (m : Text) (names : List Text) (i : ℕ)
    → (ltb i 2 || ltb i offset) ≡ true
    → wanted offset (m ∷ names) i ≡ wanted offset names (suc i)
wanted_skip offset m names i h = rw h refl

wanted_keep :
    (offset : ℕ) (m : Text) (names : List Text) (i : ℕ)
    → (ltb i 2 || ltb i offset) ≡ false
    → wanted offset (m ∷ names) i ≡ (m, i + 1) ∷ wanted offset names (suc i)
wanted_keep offset m names i h = rw h refl

-- The offset in an entry is past the index of its name.
wanted_bound :
    (offset : ℕ) (names : List Text) (i : ℕ) (xs : List Listed) (n : Text) (o : ℕ)
    (ys : List Listed)
    → wanted offset names i ≡ xs ++ (n, o) ∷ ys
    → i < o
wanted_bound offset [] i [] n o ys e = absurd (nil-ne-cons e)
wanted_bound offset [] i (x ∷ xs) n o ys e = absurd (nil-ne-cons e)
wanted_bound offset (m ∷ names) i xs n o ys e = elim (Bool-cases (ltb i 2 || ltb i offset)) [
  | inl h ↦
      let less =
        wanted_bound offset names (suc i) xs n o ys (sym (wanted_skip offset m names i h) ∙ e) in
      omega arith
  | inr h ↦
      kept (λ zs. wanted_bound offset names (suc i) zs n o ys) xs
        (sym (wanted_keep offset m names i h) ∙ e)
]
  where
    kept :
        ((zs : List Listed) → wanted offset names (suc i) ≡ zs ++ (n, o) ∷ ys → suc i < o)
        → (xs : List Listed) → (m, i + 1) ∷ wanted offset names (suc i) ≡ xs ++ (n, o) ∷ ys
        → i < o
    kept later [] q = let same : i + 1 ≡ o = entry_eq (m, i + 1) (n, o) (cons_eq q).0 in omega arith
    kept later (x ∷ xs) q = let less = later xs (cons_eq q).1 in omega arith

wanted_above :
    (offset o : ℕ) (names : List Text) (i : ℕ)
    → offset ≤ i
    → o ≤ i
    → wanted offset names i ≡ wanted o names i
wanted_above offset o [] i h k = refl
wanted_above offset o (m ∷ names) i h k = ground (arith, wanted_above offset o names (suc i))

passed_over : (i o : ℕ) → i < o → (ltb i 2 || ltb i o) ≡ true
passed_over i o h = ground (arith, lt→ltb i o h)

not_before : (i o : ℕ) → (ltb i 2 || ltb i o) ≡ false → o ≤ i
not_before i o h = ground (arith, lt→ltb i o)

-- What follows an entry is what is wanted from its offset on.
pub wanted_resume :
    (offset : ℕ) (names : List Text) (i : ℕ) (xs : List Listed) (n : Text) (o : ℕ)
    (ys : List Listed)
    → wanted offset names i ≡ xs ++ (n, o) ∷ ys
    → wanted o names i ≡ ys
wanted_resume offset [] i [] n o ys e = absurd (nil-ne-cons e)
wanted_resume offset [] i (x ∷ xs) n o ys e = absurd (nil-ne-cons e)
wanted_resume offset (m ∷ names) i xs n o ys e =
    wanted_skip o m names i (passed_over i o (wanted_bound offset (m ∷ names) i xs n o ys e))
    ∙ elim (Bool-cases (ltb i 2 || ltb i offset)) [
      | inl h ↦
          wanted_resume offset names (suc i) xs n o ys (sym (wanted_skip offset m names i h) ∙ e)
      | inr h ↦
          kept (not_before i offset h) (λ zs. wanted_resume offset names (suc i) zs n o ys) xs
            (sym (wanted_keep offset m names i h) ∙ e)
    ]
  where
    kept :
        offset ≤ i
        → ((zs : List Listed)
            → wanted offset names (suc i) ≡ zs ++ (n, o) ∷ ys
            → wanted o names (suc i) ≡ ys)
        → (xs : List Listed) → (m, i + 1) ∷ wanted offset names (suc i) ≡ xs ++ (n, o) ∷ ys
        → wanted o names (suc i) ≡ ys
    kept above later [] q =
        let same : i + 1 ≡ o = entry_eq (m, i + 1) (n, o) (cons_eq q).0 in
        wanted_above o offset names (suc i) (omega arith) (omega arith) ∙ (cons_eq q).1
    kept above later (x ∷ xs) q = later xs (cons_eq q).1

take-drop {ℓ} : {A : Type ℓ} (k : ℕ) (l : List A) → l ≡ take k l ++ drop k l
take-drop zero l = refl
take-drop (suc k) [] = refl
take-drop (suc k) (x ∷ l) = ap (λ r. x ∷ r) (take-drop k l)

pub take_split {ℓ} :
    {A : Type ℓ} (k : ℕ) (l xs : List A) (a : A) → take k l ≡ xs ++ a ∷ [] → l ≡ xs ++ a ∷ drop k l
take_split k l xs a e =
    take-drop k l ∙ ap (λ r. r ++ drop k l) e ∙ append_assoc xs (a ∷ []) (drop k l)
