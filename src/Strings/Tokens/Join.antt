-- ===== src/Strings/Tokens/Join.antt =====
-- The token loop takes apart what was put together from words.
use adbncfs.Prelude.{
  ℕ, ◌≤◌, ◌≡◌, refl, sym, ap, ◌∙◌, ◌≢◌, true, false, some, List, [], ◌∷◌, ◌++◌, append-nil,
  append_assoc, arith, length, All, Text, is_delim,
}
use adbncfs.Strings.Tokens.{skip, word, after, strtok_at, strtok, tokens}
use adbncfs.Strings.Tokens.Scan.{words, keep, tokens-words}

-- A word that `strtok_r` returns whole: not empty, and with no delimiter in it.
abbrev pub IsWord : Text → Text → Type 0
IsWord ds w = (w ≢ []) × All (λ c. is_delim ds c ≡ false) w

-- The words of a line, one separator between two of them.
abbrev pub join : ℕ → List Text → Text
join sep [] = []
join sep (w ∷ []) = w
join sep (w ∷ v ∷ ws) = w ++ sep ∷ join sep (v ∷ ws)

words-append :
    (ds cur w s : Text)
    → All (λ c. is_delim ds c ≡ false) w
    → words ds cur (w ++ s) ≡ words ds (cur ++ w) s
unfolding words
words-append ds cur [] s h = rw append-nil
words-append ds cur (c ∷ w) s h =
    ground (arith, words-append ds (cur ++ c ∷ []) w s, append_assoc cur (c ∷ []) w)

keep-word : (w : Text) (ws : List Text) → w ≢ [] → keep w ws ≡ w ∷ ws
keep-word [] ws h = absurd (h refl)
keep-word (c ∷ w) ws h = refl

pub words_at_sep :
    (ds : Text) (sep : ℕ) (w s : Text)
    → is_delim ds sep ≡ true
    → IsWord ds w
    → words ds [] (w ++ sep ∷ s) ≡ w ∷ words ds [] s
words_at_sep ds sep w s d h =
    words-append ds [] w (sep ∷ s) h.1 ∙ unfold words in rw d (keep-word w _ h.0)

pub words_last : (ds w : Text) → IsWord ds w → words ds [] w ≡ w ∷ []
words_last ds w h =
    ap (words ds []) (sym (append-nil w))
    ∙ words-append ds [] w [] h.1
    ∙ unfold words in keep-word w [] h.0

words-join :
    (ds : Text) (sep : ℕ) (ws : List Text)
    → is_delim ds sep ≡ true
    → All (IsWord ds) ws
    → words ds [] (join sep ws) ≡ ws
words-join ds sep [] d h = unfold words in refl
words-join ds sep (w ∷ []) d h = words_last ds w h.0
words-join ds sep (w ∷ v ∷ ws) d h =
    words_at_sep ds sep w (join sep (v ∷ ws)) d h.0
    ∙ ap (λ vs. w ∷ vs) (words-join ds sep (v ∷ ws) d h.1)

-- The tokens of words that stand behind one another, with a delimiter between two of them, are the
-- words, if none is empty and none holds a delimiter.
pub tokens-join :
    (ds : Text) (sep : ℕ) (ws : List Text)
    → is_delim ds sep ≡ true
    → All (IsWord ds) ws
    → tokens ds (join sep ws) ≡ ws
tokens-join ds sep ws d h = tokens-words ds (join sep ws) ∙ words-join ds sep ws d h

skip-word : (ds w s : Text) → IsWord ds w → skip ds (w ++ s) ≡ w ++ s
unfolding skip
skip-word ds [] s h = absurd (h.0 refl)
skip-word ds (c ∷ w) s h = rw h.1.0

word-word :
    (ds w : Text) (sep : ℕ) (s : Text)
    → All (λ c. is_delim ds c ≡ false) w
    → is_delim ds sep ≡ true
    → (word ds (w ++ sep ∷ s) ≡ w) × (after ds (w ++ sep ∷ s) ≡ s)
unfolding word after
word-word ds [] sep s h d = (rw d, rw d)
word-word ds (c ∷ w) sep s h d =
    let (p, q) = word-word ds w sep s h.1 d in (rw (h.0, p), rw (h.0, q))

strtok-ready :
    (ds w : Text) (sep : ℕ) (s : Text)
    → IsWord ds w
    → is_delim ds sep ≡ true
    → strtok_at ds (w ++ sep ∷ s) ≡ (some w, s)
strtok-ready ds [] sep s h d = absurd (h.0 refl)
strtok-ready ds (c ∷ w) sep s h d =
    let (p, q) = word-word ds (c ∷ w) sep s h.1 d in unfold strtok_at in rw (p, q)

-- A call of `strtok_r` at a word that a delimiter ends returns the word, and goes on behind the
-- delimiter.
pub strtok-word :
    (ds w : Text) (sep : ℕ) (s : Text)
    → IsWord ds w
    → is_delim ds sep ≡ true
    → strtok ds (w ++ sep ∷ s) ≡ (some w, s)
unfolding strtok
strtok-word ds w sep s h d =
    ap (strtok_at ds) (skip-word ds w (sep ∷ s) h) ∙ strtok-ready ds w sep s h d

words_end :
    (ds cur s : Text) (d : ℕ) → is_delim ds d ≡ true → words ds cur (s ++ d ∷ []) ≡ words ds cur s
unfolding words
words_end ds [] [] d h = rw h
words_end ds (b ∷ cur) [] d h = rw h
words_end ds cur (c ∷ s) d h =
    ground (arith, words_end ds [] s d h, words_end ds (cur ++ c ∷ []) s d h)

-- A delimiter behind the last word adds no token.
pub tokens_end :
    (ds s : Text) (d : ℕ) → is_delim ds d ≡ true → tokens ds (s ++ d ∷ []) ≡ tokens ds s
tokens_end ds s d h =
    tokens-words ds (s ++ d ∷ []) ∙ words_end ds [] s d h ∙ sym (tokens-words ds s)

word_whole :
    (ds w : Text) → All (λ c. is_delim ds c ≡ false) w → (word ds w ≡ w) × (after ds w ≡ [])
unfolding word after
word_whole ds [] h = (refl, refl)
word_whole ds (c ∷ w) h = let (p, q) = word_whole ds w h.1 in (rw (h.0, p), rw (h.0, q))

strtok_at_last : (ds w : Text) → IsWord ds w → strtok_at ds w ≡ (some w, [])
strtok_at_last ds [] h = absurd (h.0 refl)
strtok_at_last ds (c ∷ w) h =
    let (p, q) = word_whole ds (c ∷ w) h.1 in unfold strtok_at in rw (p, q)

skip_delim :
    (ds : Text) (d : ℕ) (w : Text) → IsWord ds w → is_delim ds d ≡ true → skip ds (d ∷ w) ≡ w
unfolding skip
skip_delim ds d [] h e = absurd (h.0 refl)
skip_delim ds d (c ∷ w) h e = rw (e, h.1.0)

-- A call at the last word returns it, and nothing is left. A delimiter before the word is skipped.
pub strtok_last :
    (ds : Text) (d : ℕ) (w : Text)
    → IsWord ds w
    → is_delim ds d ≡ true
    → strtok ds (d ∷ w) ≡ (some w, [])
unfolding strtok
strtok_last ds d w h e = ap (strtok_at ds) (skip_delim ds d w h e) ∙ strtok_at_last ds w h

words_append_sep :
    (ds cur s : Text) (d : ℕ) (t : Text)
    → is_delim ds d ≡ true
    → words ds cur (s ++ d ∷ t) ≡ words ds cur s ++ words ds [] t
unfolding words
words_append_sep ds [] [] d t h = rw h
words_append_sep ds (b ∷ cur) [] d t h = rw h
words_append_sep ds [] (c ∷ s) d t h =
    ground (arith, words_append_sep ds [] s d t h, words_append_sep ds (c ∷ []) s d t h)
words_append_sep ds (b ∷ cur) (c ∷ s) d t h =
    ground
      (arith, words_append_sep ds [] s d t h, words_append_sep ds ((b ∷ cur) ++ c ∷ []) s d t h)

-- A delimiter separates the tokens before it from those behind it.
pub tokens-append :
    (ds s : Text) (d : ℕ) (t : Text)
    → is_delim ds d ≡ true
    → tokens ds (s ++ d ∷ t) ≡ tokens ds s ++ tokens ds t
tokens-append ds s d t h =
    tokens-words ds (s ++ d ∷ t)
    ∙ words_append_sep ds [] s d t h
    ∙ sym (rw (tokens-words ds s, tokens-words ds t))

length-keep : (cur : Text) (ws : List Text) → length ws ≤ length (keep cur ws)
length-keep [] ws = omega arith
length-keep (c ∷ cur) ws = omega arith

-- How many words there are does not depend on what the first one begins with.
length-words_start :
    (ds : Text) (a b : ℕ) (s t u : Text) → length (words ds (a ∷ s) u) ≡ length (words ds (b ∷ t) u)
unfolding words
length-words_start ds a b s t [] = refl
length-words_start ds a b s t (c ∷ u) =
    ground (arith, length-words_start ds a b (s ++ c ∷ []) (t ++ c ∷ []) u)

length-words_more : (ds cur s : Text) → length (words ds [] s) ≤ length (words ds cur s)
unfolding words
length-words_more ds cur [] = omega arith
length-words_more ds [] (c ∷ s) = omega arith
length-words_more ds (b ∷ cur) (c ∷ s) =
    ground
      (arith, length-keep (b ∷ cur) (words ds [] s), length-words_start ds c b [] (cur ++ c ∷ []) s)

length-words_front :
    (ds cur front s : Text) → length (words ds [] s) ≤ length (words ds cur (front ++ s))
unfolding words
length-words_front ds cur [] s = length-words_more ds cur s
length-words_front ds cur (c ∷ front) s = ground (
  arith,
  length-words_front ds [] front s,
  length-words_front ds (cur ++ c ∷ []) front s,
  length-keep cur (words ds [] (front ++ s)),
)

-- Text in front takes no token away.
pub length-tokens_front :
    (ds front s : Text) → length (tokens ds s) ≤ length (tokens ds (front ++ s))
length-tokens_front ds front s =
    rw (tokens-words ds s, tokens-words ds (front ++ s)) (length-words_front ds [] front s)
