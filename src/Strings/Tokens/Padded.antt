-- ===== src/Strings/Tokens/Padded.antt =====
-- The token loop on a line whose columns are filled up with delimiters, as `df` prints it.
use adbncfs.Prelude.{
  ℕ, ◌≡◌, refl, ap, ◌∙◌, ◌≢◌, true, List, [], ◌∷◌, ◌++◌, map, All, Text, is_delim,
}
use adbncfs.Strings.Tokens.{tokens}
use adbncfs.Strings.Tokens.Scan.{words, tokens-words}
use adbncfs.Strings.Tokens.Join.{IsWord, words_last, words_at_sep}

-- A text between two words: one delimiter or more.
abbrev pub IsGap : Text → Text → Type 0
IsGap ds g = (g ≢ []) × All (λ c. is_delim ds c ≡ true) g

-- A column of a line: the word, and the delimiters that fill the line up to it.
abbrev pub IsColumn : Text → Text × Text → Type 0
IsColumn ds (gap, w) = IsGap ds gap × IsWord ds w

-- A line of columns behind a first word.
abbrev pub padded : Text → List (Text × Text) → Text
padded w [] = w
padded w ((gap, v) ∷ columns) = w ++ (gap ++ padded v columns)

words_delim :
    (ds : Text) (c : ℕ) (s : Text) → is_delim ds c ≡ true → words ds [] (c ∷ s) ≡ words ds [] s
unfolding words
words_delim ds c s h = rw h

words-gap :
    (ds gap s : Text) → All (λ c. is_delim ds c ≡ true) gap → words ds [] (gap ++ s) ≡ words ds [] s
words-gap ds [] s h = refl
words-gap ds (c ∷ gap) s h = words_delim ds c (gap ++ s) h.0 ∙ words-gap ds gap s h.1

words-padded :
    (ds w : Text) (columns : List (Text × Text))
    → IsWord ds w
    → All (IsColumn ds) columns
    → words ds [] (padded w columns) ≡ w ∷ map (λ p. p.1) columns
words-padded ds w [] h hs = words_last ds w h
words-padded ds w (([], v) ∷ columns) h hs = absurd (hs.0.0.0 refl)
words-padded ds w ((c ∷ gap, v) ∷ columns) h hs =
    words_at_sep ds c w (gap ++ padded v columns) hs.0.0.1.0 h
    ∙ ap (λ vs. w ∷ vs)
        (words-gap ds gap (padded v columns) hs.0.0.1.1 ∙ words-padded ds v columns hs.0.1 hs.1)

-- The tokens of a line of columns are its words, however many delimiters fill the columns.
pub tokens-padded :
    (ds w : Text) (columns : List (Text × Text))
    → IsWord ds w
    → All (IsColumn ds) columns
    → tokens ds (padded w columns) ≡ w ∷ map (λ p. p.1) columns
tokens-padded ds w columns h hs =
    tokens-words ds (padded w columns) ∙ words-padded ds w columns h hs
