-- ===== src/Prelude/Bytes.antt =====
-- Text as lists of bytes, and what the program uses of `std::string` and `<string.h>`.
-- No byte of a text is 0: every text of the program has passed through a C string.
use Prim.Native.Nat.{ℕ}
use Prim.Native.Char.{code}
use Prim.Native.String.{String}
use mathlib.Core.Path.{◌≡◌, refl}
use mathlib.Core.Logic.{◌↔◌}
use mathlib.Core.Bool.{Bool, true, false, ◌&&◌, ◌||◌}
use mathlib.Core.List.{List, [], ◌∷◌}
use native.Mathlib.Omega.{arith}
use adbncfs.Prelude.Tests.{◌==◌}

abbrev pub Text : Type 0
Text = List ℕ

-- The code points of a literal; these are its bytes when the text is ASCII.
abbrev pub codes : String → Text
codes String.[] = []
codes (String.◌∷◌ c s) = code c ∷ codes s

-- `operator==` and `strcmp(a, b) == 0`.
unfoldable pub text_eq : Text → Text → Bool
text_eq [] [] = true
text_eq [] (d ∷ t) = false
text_eq (c ∷ s) [] = false
text_eq (c ∷ s) (d ∷ t) = (c == d) && text_eq s t

pub text_eq_iff : (s t : Text) → (text_eq s t ≡ true) ↔ (s ≡ t)
unfolding text_eq
text_eq_iff [] [] = ground arith
text_eq_iff [] (d ∷ t) = ground arith
text_eq_iff (c ∷ s) [] = ground arith
text_eq_iff (c ∷ s) (d ∷ t) = ground (arith, text_eq_iff s t)

pub text_eq_refl : (s : Text) → text_eq s s ≡ true
text_eq_refl s = (text_eq_iff s s).1 refl

-- Whether `p` stands at the front of `s`.
unfoldable pub starts_with : Text → Text → Bool
starts_with [] s = true
starts_with (d ∷ p) [] = false
starts_with (d ∷ p) (c ∷ s) = (d == c) && starts_with p s

-- `s.find(p) != string::npos`.
unfoldable pub contains : Text → Text → Bool
unfolding starts_with
contains [] p = starts_with p []
contains (c ∷ s) p = starts_with p (c ∷ s) || contains s p

-- Whether a byte is one of the delimiters of `strtok_r`.
abbrev pub is_delim : Text → ℕ → Bool
is_delim [] c = false
is_delim (d ∷ ds) c = (d == c) || is_delim ds c
