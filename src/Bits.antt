-- ===== src/Bits.antt =====
-- Facts about the bit operations of the native numbers at the masks that the program uses.
use Prim.Native.Nat.{min, bit_and, digits, bit_and-bitwise}
use adbncfs.Prelude.{ℕ, zero, suc, ◌+◌, ◌*◌, ◌/◌, ◌%◌, ◌≤◌, ◌<◌, ◌≡◌, refl, ap, ◌∙◌, ◌↔◌, arith}

-- The binary digits that two numbers share, looked for in so many rounds.
abbrev shared : ℕ → ℕ → ℕ → ℕ
shared rounds x y = digits (λ rest. 0) min rounds x y

shared-nothing : (rounds y : ℕ) → shared rounds 0 y ≡ 0
shared-nothing zero y = refl
shared-nothing (suc rounds) y = refl

-- A number has fewer digits than it counts, so further rounds find nothing.
shared_enough : (few many x y : ℕ) → x ≤ few → few ≤ many → shared many x y ≡ shared few x y
shared_enough few many zero y enough more =
    omega (arith, shared-nothing few y, shared-nothing many y)
shared_enough zero many (suc x) y enough more = absurd (omega arith)
shared_enough (suc few) zero (suc x) y enough more = absurd (omega arith)
shared_enough (suc few) (suc many) (suc x) y enough more =
    let half : suc x / 2 ≤ few = omega arith in
    ap (λ upper. upper * 2 + min (suc x % 2) (y % 2))
      (shared_enough few many (suc x / 2) (y / 2) half (omega arith))

-- The lowest digit of the result, and the digits above it.
pub bit_and_step : (x y : ℕ) → bit_and x y ≡ min (x % 2) (y % 2) + 2 * bit_and (x / 2) (y / 2)
bit_and_step zero y = omega (arith, bit_and-bitwise zero y, bit_and-bitwise zero (y / 2))
bit_and_step (suc x) y =
    let half : suc x / 2 ≤ x = omega arith in
    omega (
      arith,
      shared_enough (suc x / 2) x (suc x / 2) (y / 2) (omega arith) half,
      bit_and-bitwise (suc x / 2) (y / 2),
      bit_and-bitwise (suc x) y,
    )

shared-zero : (rounds x : ℕ) → shared rounds x 0 ≡ 0
shared-zero zero x = refl
shared-zero (suc rounds) zero = refl
shared-zero (suc rounds) (suc x) = omega (arith, shared-zero rounds (suc x / 2))

pub bit_and-zero : (x : ℕ) → bit_and x 0 ≡ 0
bit_and-zero x = bit_and-bitwise x 0 ∙ shared-zero x x

pub bit_and_low : (a : ℕ) → bit_and a 7 ≡ a % 8
bit_and_low a = omega (
  arith,
  bit_and_step a 7,
  bit_and_step (a / 2) 3,
  bit_and_step (a / 2 / 2) 1,
  bit_and-zero (a / 2 / 2 / 2),
)

pub bit_and_middle : (a : ℕ) → bit_and a 56 ≡ (a / 8) % 8 * 8
bit_and_middle a = omega (
  arith,
  bit_and_step a 56,
  bit_and_step (a / 2) 28,
  bit_and_step (a / 2 / 2) 14,
  bit_and_low (a / 2 / 2 / 2),
)

pub bit_and_high : (a : ℕ) → bit_and a 448 ≡ (a / 64) % 8 * 64
bit_and_high a = omega (
  arith,
  bit_and_step a 448,
  bit_and_step (a / 2) 224,
  bit_and_step (a / 2 / 2) 112,
  bit_and_middle (a / 2 / 2 / 2),
)

-- Every one of three requested bits is set.
abbrev pub Covers : ℕ → ℕ → Type 0
Covers have want =
    (want % 2 ≤ have % 2) × ((want / 2) % 2 ≤ (have / 2) % 2) × ((want / 4) % 2 ≤ (have / 4) % 2)

pub bit_and-Covers : (have want : ℕ) → want < 8 → (bit_and have want ≡ want) ↔ Covers have want
bit_and-Covers have want h =
    let e : bit_and (have / 2 / 2 / 2) (want / 2 / 2 / 2) ≡ 0 =
      let z : want / 2 / 2 / 2 ≡ 0 = omega arith in rw z (bit_and-zero (have / 2 / 2 / 2)) in
    let s0 = bit_and_step have want in
    let s1 = bit_and_step (have / 2) (want / 2) in
    let s2 = bit_and_step (have / 2 / 2) (want / 2 / 2) in
    (λ p. (omega arith, omega arith, omega arith), λ c. omega arith)
