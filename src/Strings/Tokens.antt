-- ===== src/Strings/Tokens.antt =====
-- `strtok_r`, and the loop that collects all tokens (`tokenize` of src/adbncfs.cpp).
pub mod Scan
pub mod Join
pub mod Padded
use adbncfs.Prelude.{
  ℕ, zero, suc, ◌+◌, ◌≤◌, ◌<◌, ◌≡◌, refl, List, [], ◌∷◌, ◌++◌, Option, none, some, arith, Text,
  codes, is_delim, length, if◌then◌else◌,
}

-- The text behind the delimiters at its front.
unfoldable pub skip : Text → Text → Text
skip ds [] = []
skip ds (c ∷ s) = let rest = skip ds s in if is_delim ds c then rest else c ∷ s

-- The bytes up to the next delimiter.
unfoldable pub word : Text → Text → Text
word ds [] = []
word ds (c ∷ s) = if is_delim ds c then [] else c ∷ word ds s

-- The text behind the next delimiter.
unfoldable pub after : Text → Text → Text
after ds [] = []
after ds (c ∷ s) = let rest = after ds s in if is_delim ds c then s else rest

-- The token that begins at a byte that is no delimiter, and the new save pointer.
unfoldable pub strtok_at : Text → Text → Option Text × Text
unfolding word after
strtok_at ds [] = (none, [])
strtok_at ds (c ∷ s) = (some (word ds (c ∷ s)), after ds (c ∷ s))

-- `strtok_r`: the delimiters, the text at the save pointer; the token or NULL, and the new pointer.
unfoldable pub strtok : Text → Text → Option Text × Text
unfolding skip strtok_at
strtok ds s = strtok_at ds (skip ds s)

-- `while (pch != NULL) { use(pch); pch = strtok_r(NULL, …); }`, the tokens in order. The fuel is
-- the number of calls at most.
unfoldable pub token_loop : Text → ℕ → Text → List Text
unfolding strtok
token_loop ds zero s = []
token_loop ds (suc fuel) s =
    let (pch, save) = strtok ds s in elim pch [ none ↦ [] | some t ↦ t ∷ token_loop ds fuel save ]

-- One call more than there are bytes is enough (`token_loop-words`).
unfoldable pub tokens : Text → Text → List Text
unfolding token_loop
tokens ds s = token_loop ds (suc (length s)) s

-- `tokenize`
unfoldable pub tokenize : Text → List Text
unfolding tokens
tokenize s = tokens (codes " \t") s
