-- ===== src/Strings/Tokens/Scan.antt =====
-- The token loop against a reading of the text in one pass.
use adbncfs.Prelude.{
  ℕ, zero, suc, ◌≤◌, ◌<◌, ◌≡◌, refl, ◌∙◌, inl, inr, false, List, [], ◌∷◌, ◌++◌, append-nil,
  append_assoc, arith, if◌then◌else◌, Bool-cases, length, Text, is_delim,
}
use adbncfs.Strings.Tokens.{skip, word, after, token_loop, tokens}

-- What is read so far is a token unless it is empty.
abbrev pub keep : Text → List Text → List Text
keep [] ws = ws
keep (c ∷ s) ws = (c ∷ s) ∷ ws

-- The words of a text: the longest runs of bytes that are no delimiters.
unfoldable pub words : Text → Text → Text → List Text
words ds cur [] = keep cur []
words ds cur (c ∷ s) =
    let cut = keep cur (words ds [] s) in
    let grow = words ds (cur ++ c ∷ []) s in if is_delim ds c then cut else grow

length-skip : (ds s : Text) → length (skip ds s) ≤ length s
unfolding skip
length-skip ds [] = omega arith
length-skip ds (c ∷ s) = ground (arith, length-skip ds s)

length-after : (ds : Text) (c : ℕ) (s : Text) → length (after ds (c ∷ s)) ≤ length s
unfolding after
length-after ds c [] = ground arith
length-after ds c (d ∷ s) = ground (arith, length-after ds d s)

words-skip : (ds s : Text) → words ds [] (skip ds s) ≡ words ds [] s
unfolding words skip
words-skip ds [] = refl
words-skip ds (c ∷ s) = ground (arith, words-skip ds s)

words-word :
    (ds : Text) (b : ℕ) (cur s : Text)
    → words ds (b ∷ cur) s ≡ ((b ∷ cur) ++ word ds s) ∷ words ds [] (after ds s)
unfolding words word after
words-word ds b cur [] = ground (arith, append-nil (b ∷ cur))
words-word ds b cur (c ∷ s) = ground (
  arith,
  words-word ds b (cur ++ c ∷ []) s,
  append-nil (b ∷ cur),
  append_assoc (b ∷ cur) (c ∷ []) (word ds s),
)

-- The front of a text behind `skip` is no delimiter.
abbrev Ready : Text → Text → Type 0
Ready ds [] = Unit
Ready ds (c ∷ s) = is_delim ds c ≡ false

skip-Ready : (ds s : Text) → Ready ds (skip ds s)
unfolding skip
skip-Ready ds [] = tt
skip-Ready ds (c ∷ s) = elim (Bool-cases (is_delim ds c)) [
  | inl yes' ↦ rw yes' (skip-Ready ds s)
  | inr no' ↦ rw no' no'
]

words_front :
    (ds : Text) (c : ℕ) (s : Text)
    → is_delim ds c ≡ false
    → words ds [] (c ∷ s) ≡ word ds (c ∷ s) ∷ words ds [] (after ds (c ∷ s))
unfolding words word after
words_front ds c s h = ground (arith, words-word ds c [] s)

loop_step :
    (ds : Text) (fuel : ℕ) (s : Text)
    → ((r : Text) → length r < fuel → token_loop ds fuel r ≡ words ds [] r)
    → (t : Text) → skip ds s ≡ t
    → Ready ds t
    → length t ≤ fuel
    → token_loop ds (suc fuel) s ≡ words ds [] t
unfolding token_loop
loop_step ds fuel s ih [] e h n = unfold words in rw (e, token_loop)
loop_step ds fuel s ih (c ∷ t) e h n =
    let n' : length (after ds (c ∷ t)) < fuel = omega (arith, length-after ds c t) in
    ground (arith, words_front ds c t h, ih (after ds (c ∷ t)) n')

-- The loop makes a call for each token and one more, and finds the words of the text.
pub token_loop-words :
    (ds : Text) (fuel : ℕ) (s : Text) → length s < fuel → token_loop ds fuel s ≡ words ds [] s
token_loop-words ds zero s h = absurd (omega arith)
token_loop-words ds (suc fuel) s h =
    loop_step ds fuel s (token_loop-words ds fuel) (skip ds s) refl (skip-Ready ds s)
      (omega (arith, length-skip ds s))
    ∙ words-skip ds s

pub tokens-words : (ds s : Text) → tokens ds s ≡ words ds [] s
unfolding tokens
tokens-words ds s = token_loop-words ds (suc (length s)) s (omega arith)
