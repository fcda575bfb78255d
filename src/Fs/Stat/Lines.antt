-- ===== src/Fs/Stat/Lines.antt =====
-- What `doStat` makes of a line of `stat -t`, whatever the name of the file.
use mathlib.Core.List.{cons-ne-nil}
use adbncfs.Prelude.{
  ℕ, suc, ◌-◌, ◌≤◌, ◌<◌, ◌≡◌, refl, sym, ap, ◌∙◌, ◌≢◌, false, List, [], ◌∷◌, ◌++◌, append_assoc,
  arith, ltb, length, drop, length-append, All, Text, codes,
}
use adbncfs.Prelude.Int.{pos}
use adbncfs.Strings.Tokens.{tokens, tokenize}
use adbncfs.Strings.Tokens.Join.{IsWord, join, tokens-join, tokens-append, length-tokens_front}
use adbncfs.Fs.Stat.{append_lines, stat_line, last_15, stat_result}

-- The delimiters of `tokenize`.
abbrev pub blanks : Text
blanks = codes " \t"

-- The text with some other text before it.
abbrev EndsWith : Text → Text → Type 0
EndsWith s t = (front : Text) × (s ≡ front ++ t)

append_lines-EndsWith :
    (front : Text) (lines : List Text) (last : Text)
    → EndsWith (append_lines front (lines ++ last ∷ [])) last
unfolding append_lines
append_lines-EndsWith front [] last = (front, refl)
append_lines-EndsWith front (line ∷ lines) last = append_lines-EndsWith (front ++ line) lines last

-- The line that is tokenized ends with the last line of the output.
stat_line-EndsWith :
    (first : Text) (lines : List Text) (last : Text)
    → EndsWith (stat_line first (lines ++ last ∷ [])) last
unfolding stat_line
stat_line-EndsWith first [] last = append_lines-EndsWith (first ++ first) [] last
stat_line-EndsWith first (line ∷ lines) last =
    append_lines-EndsWith (first ++ first) (line ∷ lines) last

pos-ne-nil : (ts : List Text) → 0 < length ts → ts ≢ []
pos-ne-nil [] h = absurd (omega arith)
pos-ne-nil (t ∷ ts) h = cons-ne-nil t ts

not_short : (n : ℕ) → 13 ≤ n → ltb n 13 ≡ false
not_short n h = ground arith

-- Of tokens with 14 behind them, one is left over.
keep_one : (ts ws : List Text) → ts ≢ [] → (t : Text) × (drop (length ts - 1) (ts ++ ws) ≡ t ∷ ws)
keep_one [] ws h = absurd (h refl)
keep_one (t ∷ []) ws h = (t, refl)
keep_one (t ∷ u ∷ ts) ws h =
    let (v, e) = keep_one (u ∷ ts) ws (cons-ne-nil u ts) in
    let n : length (t ∷ u ∷ ts) - 1 ≡ suc (length (u ∷ ts) - 1) = omega arith in (v, rw n e)

last_15-append :
    (ts ws : List Text) → ts ≢ [] → length ws ≡ 14 → (t : Text) × (last_15 (ts ++ ws) ≡ t ∷ ws)
unfolding last_15
last_15-append ts ws h n =
    let (t, e) = keep_one ts ws h in
    let m : length (ts ++ ws) - 15 ≡ length ts - 1 = omega (arith, length-append ts ws) in
    (t, rw m e)

result_line :
    (line : Text) (lines : List Text) (front name : Text) (fields : List Text)
    → All (IsWord blanks) fields
    → length fields ≡ 14
    → 0 < length (tokenize name)
    → stat_line line lines ≡ front ++ (name ++ 32 ∷ join 32 fields)
    → (t : Text) × (stat_result (line ∷ lines) ≡ (pos 0, t ∷ fields))
unfolding stat_result tokenize
result_line line lines front name fields h n k e =
    let split : tokens blanks (stat_line line lines) ≡ tokens blanks (front ++ name) ++ fields =
      ap (tokens blanks) (e ∙ sym (append_assoc front name (32 ∷ join 32 fields)))
      ∙ tokens-append blanks (front ++ name) 32 (join 32 fields) refl
      ∙ ap (λ ts. tokens blanks (front ++ name) ++ ts) (tokens-join blanks 32 fields refl h) in
    let m : 0 < length (tokens blanks (front ++ name)) =
      omega (arith, length-tokens_front blanks front name) in
    let long : ltb (length (tokens blanks (front ++ name) ++ fields)) 13 ≡ false =
      not_short _ (omega (arith, length-append (tokens blanks (front ++ name)) fields)) in
    let (t, last) = last_15-append (tokens blanks (front ++ name)) fields (pos-ne-nil _ m) n in
    (t, rw (split, long) (ap (λ ts. (pos 0, ts)) last))

-- If the last line that `stat -t` prints for a file ends in 14 fields behind the end of the name, and
-- that end is not all blanks, the fields are the tokens 1 to 14, however many lines and blanks the
-- name takes.
pub stat_result_fields :
    (lines : List Text) (name : Text) (fields : List Text)
    → All (IsWord blanks) fields
    → length fields ≡ 14
    → 0 < length (tokenize name)
    → (t : Text) × (stat_result (lines ++ (name ++ 32 ∷ join 32 fields) ∷ []) ≡ (pos 0, t ∷ fields))
stat_result_fields [] name fields h n k =
    result_line (name ++ 32 ∷ join 32 fields) [] [] name fields h n k (unfold stat_line in refl)
stat_result_fields (first ∷ lines) name fields h n k =
    let last = name ++ 32 ∷ join 32 fields in
    let (front, e) = stat_line-EndsWith first lines last in
    result_line first (lines ++ last ∷ []) front name fields h n k e
