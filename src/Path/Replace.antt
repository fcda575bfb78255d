-- ===== src/Path/Replace.antt =====
-- `stringReplacer` against a replacement in one pass, and the local paths that it makes.
use adbncfs.Prelude.{
  ℕ, zero, suc, ◌+◌, ◌<◌, ◌≡◌, refl, sym, ap, ◌∙◌, ◌≢◌, ◌↔◌, inl, inr, none, some, [], ◌∷◌, ◌++◌,
  map, append_assoc, arith, ◌==◌, if◌then◌else◌, Option-cases, length, take, drop, length-drop, All,
  Text, starts_with,
}
use adbncfs.Path.{slash, dash, index_of, replace_loop, string_replacer, make_local_path}

-- The pattern has at least one byte, `p`.
module _ (p : ℕ) (ps rep : Text) where
  -- Every place where the pattern stands, from the left and with none inside another, is replaced.
  -- The number counts the bytes of a pattern that are still to be passed over.
  unfoldable pub replace_all : ℕ → Text → Text
  replace_all skip [] = []
  replace_all (suc skip) (c ∷ s) = replace_all skip s
  replace_all zero (c ∷ s) =
      let hit = rep ++ replace_all (length ps) s in
      let miss = c ∷ replace_all zero s in if starts_with (p ∷ ps) (c ∷ s) then hit else miss

  replace_all-drop : (k : ℕ) (s : Text) → replace_all k s ≡ replace_all zero (drop k s)
  unfolding replace_all
  replace_all-drop zero s = refl
  replace_all-drop (suc k) [] = refl
  replace_all-drop (suc k) (c ∷ s) = replace_all-drop k s

  replace_all-none : (s : Text) → index_of (p ∷ ps) s ≡ none → replace_all zero s ≡ s
  unfolding replace_all index_of
  replace_all-none [] h = refl
  replace_all-none (c ∷ s) h = ground (arith, replace_all-none s)

  replace_all_hit :
      (s : Text) (i : ℕ)
      → index_of (p ∷ ps) s ≡ some i
      → replace_all zero s ≡ take i s ++ (rep ++ replace_all zero (drop (i + length (p ∷ ps)) s))
  unfolding replace_all index_of
  replace_all_hit [] i h = ground arith
  replace_all_hit (c ∷ s) zero h = ground (arith, replace_all-drop (length ps) s)
  replace_all_hit (c ∷ s) (suc i) h =
      let n : suc i + length (p ∷ ps) ≡ suc (i + length (p ∷ ps)) = omega arith in
      rw n (ground (arith, replace_all_hit s i))

  index_of-lt : (s : Text) (i : ℕ) → index_of (p ∷ ps) s ≡ some i → i < length s
  unfolding index_of
  index_of-lt [] i h = ground arith
  index_of-lt (c ∷ s) zero h = omega arith
  index_of-lt (c ∷ s) (suc i) h = ground (arith, index_of-lt s i)

  replace_loop_step :
      (fuel : ℕ) (front rest : Text) (i : ℕ)
      → index_of (p ∷ ps) rest ≡ some i
      → replace_loop (p ∷ ps) rep (suc fuel) front rest
        ≡ replace_loop
            (p ∷ ps)
            rep
            fuel
            ((front ++ take i rest) ++ rep)
            (drop (i + length (p ∷ ps)) rest)
  unfolding replace_loop
  replace_loop_step fuel front rest i e = ground arith

  -- From any point of the text on, with more fuel than there are bytes left, the loop ends at the
  -- text with every occurrence replaced.
  pub replace_loop-replace_all :
      (fuel : ℕ) (front rest : Text)
      → length rest < fuel
      → replace_loop (p ∷ ps) rep fuel front rest ≡ front ++ replace_all zero rest
  replace_loop-replace_all zero front rest h = absurd (omega arith)
  replace_loop-replace_all (suc fuel) front rest h = elim (Option-cases (index_of (p ∷ ps) rest)) [
    | inl e ↦ unfold replace_loop in ground (arith, replace_all-none rest e)
    | inr (i, e) ↦
        let rest' = drop (i + length (p ∷ ps)) rest in
        let front' = (front ++ take i rest) ++ rep in
        let n : length rest' < fuel =
          omega (arith, length-drop (i + length (p ∷ ps)) rest, index_of-lt rest i e) in
        replace_loop_step fuel front rest i e
        ∙ replace_loop-replace_all fuel front' rest' n
        ∙ append_assoc (front ++ take i rest) rep (replace_all zero rest')
        ∙ append_assoc front (take i rest) (rep ++ replace_all zero rest')
        ∙ ap (λ s. front ++ s) (sym (replace_all_hit rest i e))
  ]

-- What a byte of a path becomes in the name of the local copy.
abbrev pub flat : ℕ → ℕ
flat c = if c == slash then dash else c

replace_all-map : (s : Text) → replace_all slash [] (dash ∷ []) zero s ≡ map flat s
unfolding replace_all starts_with
replace_all-map [] = refl
replace_all-map (c ∷ s) = ground (arith, replace_all-map s)

pub make_local_path-map : (dir path : Text) → make_local_path dir path ≡ dir ++ map flat path
unfolding make_local_path
make_local_path-map dir path =
    ap (λ s. dir ++ s)
      (replace_loop-replace_all slash [] (dash ∷ []) (suc (length path)) [] path (omega arith)
        ∙ replace_all-map path)

-- The text that `stringReplacer` leaves is the text with every occurrence of the pattern replaced,
-- if the pattern is not empty.
pub string_replacer-replace_all :
    (p : ℕ) (ps rep source : Text)
    → string_replacer source (p ∷ ps) rep ≡ replace_all p ps rep zero source
unfolding string_replacer
string_replacer-replace_all p ps rep source =
    replace_loop-replace_all p ps rep (suc (length source)) [] source (omega arith)

flat-injective : (c d : ℕ) → c ≢ dash → d ≢ dash → flat c ≡ flat d → c ≡ d
flat-injective c d hc hd e = ground arith

map-flat-injective :
    (s t : Text) → All (λ c. c ≢ dash) s → All (λ c. c ≢ dash) t → map flat s ≡ map flat t → s ≡ t
map-flat-injective [] [] hs ht e = refl
map-flat-injective [] (d ∷ t) hs ht e = cc
map-flat-injective (c ∷ s) [] hs ht e = cc
map-flat-injective (c ∷ s) (d ∷ t) hs ht e =
    cc (flat-injective c d hs.0 ht.0 (cc), map-flat-injective s t hs.1 ht.1 (cc))

append_cancel : (dir s t : Text) → dir ++ s ≡ dir ++ t → s ≡ t
append_cancel [] s t e = e
append_cancel (c ∷ dir) s t e = append_cancel dir s t cc

-- Two paths have one local copy exactly if they agree once each slash is a dash.
pub make_local_path-same_iff :
    (dir p q : Text) → (make_local_path dir p ≡ make_local_path dir q) ↔ (map flat p ≡ map flat q)
make_local_path-same_iff dir p q = (
  λ e.
      append_cancel dir (map flat p) (map flat q)
        (sym (make_local_path-map dir p) ∙ e ∙ make_local_path-map dir q),
  λ e. make_local_path-map dir p ∙ ap (λ s. dir ++ s) e ∙ sym (make_local_path-map dir q),
)

-- Paths with no dash in them have different local copies, if they differ.
pub make_local_path-injective :
    (dir p q : Text)
    → All (λ c. c ≢ dash) p
    → All (λ c. c ≢ dash) q
    → make_local_path dir p ≡ make_local_path dir q
    → p ≡ q
make_local_path-injective dir p q hp hq e =
    map-flat-injective p q hp hq ((make_local_path-same_iff dir p q).0 e)
