-- ===== src/Strings/Numbers.antt =====
-- `atoi`, `std::stoi`, `std::stol` and `std::stoul`; `none` is a thrown exception. A number is read
-- behind white space and a sign, up to the first byte that is no digit.
use adbncfs.Prelude.{
  ℕ, ◌+◌, ◌-◌, ◌*◌, ◌%◌, ◌^◌, ◌≡◌, refl, Bool, true, false, ◌&&◌, ◌||◌, Option, none, some, [], ◌∷◌,
  ltb, leb, ◌==◌, if◌then◌else◌, Text, codes,
}
use adbncfs.Prelude.Int.{ℤ, pos, negsuc, neg}

-- `isspace`
unfoldable pub is_space : ℕ → Bool
is_space c = c == 32 || leb 9 c && leb c 13

unfoldable pub skip_space : Text → Text
unfolding is_space
skip_space [] = []
skip_space (c ∷ s) = let rest = skip_space s in if is_space c then rest else c ∷ s

-- The value of a digit, in bases up to 16.
unfoldable pub digit : ℕ → ℕ → Option ℕ
digit base c =
    if leb b'0' c && leb c b'9' && ltb (c - b'0') base
    then some (c - b'0')
    else if leb b'a' c && leb c b'f' && ltb (c - b'a' + 10) base
    then some (c - b'a' + 10)
    else if leb b'A' c && leb c b'F' && ltb (c - b'A' + 10) base
    then some (c - b'A' + 10)
    else none

-- The number that the digits at the front spell, behind those read already.
unfoldable pub value : ℕ → ℕ → Text → ℕ
unfolding digit
value base acc [] = acc
value base acc (c ∷ s) = elim (digit base c) [ none ↦ acc | some d ↦ value base (acc * base + d) s ]

-- What is read first has to be a digit.
unfoldable pub magnitude : ℕ → Text → Option ℕ
unfolding digit value
magnitude base [] = none
magnitude base (c ∷ s) = elim (digit base c) [ none ↦ none | some d ↦ some (value base d s) ]

-- The prefix `0x` of base 16, which counts only before a digit.
unfoldable pub hex : Text → Option ℕ
unfolding magnitude
hex (z ∷ x ∷ s) =
    if z == b'0' && (x == b'x' || x == b'X')
    then elim (magnitude 16 s) [ none ↦ some 0 | some n ↦ some n ]
    else magnitude 16 (z ∷ x ∷ s)
hex s = magnitude 16 s

-- The sign and the magnitude; `read` is `magnitude 10` or `hex`.
unfoldable pub signed : (Text → Option ℕ) → Text → Option (Bool × ℕ)
signed read [] = none
signed read (c ∷ s) =
    if c == b'-'
    then elim (read s) [ none ↦ none | some n ↦ some (true, n) ]
    else elim (read (if c == b'+' then s else c ∷ s)) [ none ↦ none | some n ↦ some (false, n) ]

abbrev pub from_signed : Bool × ℕ → ℤ
from_signed (true, n) = neg n
from_signed (false, n) = pos n

-- `atoi`: no digit reads as 0. A number beyond the range of `int`, for which C defines no result,
-- is read as it stands.
unfoldable pub atoi : Text → ℤ
unfolding skip_space signed magnitude
atoi s = elim (signed (magnitude 10) (skip_space s)) [ none ↦ pos 0 | some r ↦ from_signed r ]

-- A signed type of `w` bits throws `out_of_range`.
unfoldable pub in_range : ℕ → Bool × ℕ → Option ℤ
in_range w (true, n) = if leb n (2 ^ (w - 1)) then some (neg n) else none
in_range w (false, n) = if ltb n (2 ^ (w - 1)) then some (pos n) else none

-- `std::stoi` and `std::stol`
unfoldable pub stoi : Text → Option ℤ
unfolding skip_space signed magnitude in_range
stoi s = elim (signed (magnitude 10) (skip_space s)) [ none ↦ none | some r ↦ in_range 32 r ]

unfoldable pub stol : Text → Option ℤ
unfolding skip_space signed magnitude in_range
stol s = elim (signed (magnitude 10) (skip_space s)) [ none ↦ none | some r ↦ in_range 64 r ]

-- `strtoul` negates modulo 2^64 behind a minus sign.
unfoldable pub unsigned : Bool × ℕ → Option ℕ
unsigned (minus, n) =
    if ltb n (2 ^ 64) then some (if minus then (2 ^ 64 - n) % 2 ^ 64 else n) else none

-- `std::stoul(s)` and `std::stoul(s, NULL, 16)`
unfoldable pub stoul : Text → Option ℕ
unfolding skip_space signed magnitude unsigned
stoul s = elim (signed (magnitude 10) (skip_space s)) [ none ↦ none | some r ↦ unsigned r ]

unfoldable pub stoul_hex : Text → Option ℕ
unfolding skip_space signed hex unsigned
stoul_hex s = elim (signed hex (skip_space s)) [ none ↦ none | some r ↦ unsigned r ]

-- The conversion of an `unsigned long` to `unsigned int`, and to a signed type of 64 bits.
abbrev pub to_u32 : ℕ → ℕ
to_u32 n = n % 2 ^ 32

unfoldable pub to_i64 : ℕ → ℤ
to_i64 n = let m = n % 2 ^ 64 in if ltb m (2 ^ 63) then pos m else negsuc (2 ^ 64 - 1 - m)

read_numbers :
    (atoi (codes "2000(shell)") ≡ pos 2000)
    × (atoi (codes "-7") ≡ neg 7)
    × (stoul (codes "18446744073709551616") ≡ none)
    × (stoul (codes "x") ≡ none)
    × (stoul_hex (codes "41ed") ≡ some 0x41ed)
    × (stoi (codes "2147483648") ≡ none)
    × (stoi (codes "-2147483648") ≡ some (neg 2147483648))
unfolding atoi stoul stoul_hex stoi
read_numbers = (refl, refl, refl, refl, refl, refl, refl)
