-- ===== src/UserInfo/Access.antt =====
-- What `UserInfo::access` grants.
use Prim.Native.Nat.{bit_and}
use adbncfs.Prelude.{
  ℕ, ◌/◌, ◌%◌, ◌<◌, ◌≡◌, ◌↔◌, ◌⊎◌, inl, inr, arith, ◌==◌, if◌then◌else◌, Bool-cases,
}
use adbncfs.Prelude.Int.{ℤ, int_eq}
use adbncfs.Bits.{Covers, bit_and_low, bit_and_middle, bit_and_high, bit_and-Covers}
use adbncfs.UserInfo.{UserInfo, eacces, belongs_to_group, test_access, access}

-- The three permission bits that count for this user and this file: the owner's, the group's or
-- the others'.
abbrev pub class_bits : UserInfo → ℤ → ℤ → ℕ → ℕ
class_bits u uid gid mode =
    if int_eq u.uid uid
    then (mode / 64) % 8
    else if belongs_to_group u gid
    then (mode / 8) % 8
    else mode % 8

test_access_iff : (have want : ℕ) → want < 8 → (test_access have want ≡ 0) ↔ Covers have want
unfolding test_access
test_access_iff have want h =
    let (f, g) = bit_and-Covers have want h in
    (λ p. f (ground arith), λ c. let e = g c in ground arith)

access-class_bits :
    (u : UserInfo) (uid gid : ℤ) (mode mask : ℕ)
    → access u uid gid mode mask ≡ test_access (class_bits u uid gid mode) mask
unfolding access
access-class_bits u uid gid mode mask =
    let e1 : bit_and mode 448 / 64 ≡ (mode / 64) % 8 = omega (arith, bit_and_high mode) in
    let e2 : bit_and mode 56 / 8 ≡ (mode / 8) % 8 = omega (arith, bit_and_middle mode) in
    rw (e1, e2, bit_and_low mode) (ground arith)

test_access_range : (have want : ℕ) → (test_access have want ≡ 0) ⊎ (test_access have want ≡ eacces)
unfolding test_access
test_access_range have want = elim (Bool-cases (bit_and have want == want)) [
  | inl e ↦ inl (rw e)
  | inr e ↦ inr (rw e)
]

-- Access is granted exactly if each requested bit is set among the three bits of the class (owner,
-- group or others) that the user is in, and the result is 0 or EACCES. The user's being root
-- does not count.
pub access_iff :
    (u : UserInfo) (uid gid : ℤ) (mode mask : ℕ)
    → mask < 8
    → ((access u uid gid mode mask ≡ 0) ↔ Covers (class_bits u uid gid mode) mask)
      × ((access u uid gid mode mask ≡ 0) ⊎ (access u uid gid mode mask ≡ eacces))
access_iff u uid gid mode mask h = rw (access-class_bits u uid gid mode mask) (
  test_access_iff (class_bits u uid gid mode) mask h,
  test_access_range (class_bits u uid gid mode) mask,
)
