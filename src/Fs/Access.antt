-- ===== src/Fs/Access.antt =====
-- `adbnc_access`: whether the user may read, write or run a file of the device.
use Prim.Native.Nat.{bit_and}
pub mod Grants
pub mod Total
use adbncfs.Prelude.{
  ℕ, zero, suc, ◌+◌, ◌-◌, ◌*◌, ◌/◌, ◌%◌, ◌^◌, ◌≤◌, ◌<◌, ◌≡◌, refl, sym, ap, ◌∙◌, fun_ext, ◌≢◌, ◌↔◌,
  ◌⊎◌, inl, inr, Bool, true, false, not, ◌&&◌, ◌||◌, Option, none, some, List, [], ◌∷◌, ◌++◌, map,
  append-nil, append_assoc, arith, ltb, leb, ◌==◌, ==_iff, ==_refl, ltb→lt, lt→ltb, leb→le, tests,
  if◌then◌else◌, Bool-cases, Option-cases, length, get_elem?, take, drop, is_empty, length-append,
  length-drop, All, All-append, Text, codes, text_eq, text_eq_iff, text_eq_refl, starts_with,
  contains, is_delim,
}
use adbncfs.Prelude.Int.{ℤ, pos, neg, is_ok}
use adbncfs.Strings.Numbers.{stoul_hex, stoi, to_u32}
use adbncfs.UserInfo
use adbncfs.UserInfo.{UserInfo}
use adbncfs.MountInfo.{MountInfo, is_mounted_ro, is_mounted_noexec}
use adbncfs.Fs.State.{
  Env, State, M, Result, ok, Fault, fault, no_return, out_of_range, pure, raise, ◌>>=◌, eio, eacces,
  enoent,
}
use adbncfs.Fs.Stat.{do_stat}

-- unistd.h
abbrev pub f_ok : ℕ
f_ok = 0

abbrev pub x_ok : ℕ
x_ok = 1

abbrev pub w_ok : ℕ
w_ok = 2

abbrev pub r_ok : ℕ
r_ok = 4

-- The mode and the two ids of a file, as `adbnc_access` reads them.
pub record Owner : Type 0 where
  pub mode : ℕ
  pub uid : ℤ
  pub gid : ℤ

-- The `try` block: `none` if one of the readers throws.
unfoldable pub read_owner : Text → Text → Text → Option Owner
read_owner mode uid gid = elim (stoul_hex mode) [
  | none ↦ none
  | some m ↦ elim (stoi uid) [
    | none ↦ none
    | some u ↦ elim (stoi gid) [
      | none ↦ none
      | some g ↦ some (record { mode = to_u32 m; uid = u; gid = g })
    ]
  ]
]

-- A mount that has the option refuses what is asked for; a search that does not end is a fault.
unfoldable pub refuse_if : Option Bool → Result ℤ → Result ℤ
refuse_if none rest = fault no_return
refuse_if (some true) rest = ok (neg eacces)
refuse_if (some false) rest = rest

-- The tests of the mount options.
unfoldable pub mount_access : Option MountInfo → Text → ℕ → Result ℤ
unfolding refuse_if
mount_access none path mask = ok (pos 0)
mount_access (some m) path mask =
    let run =
      if bit_and mask x_ok == 0
      then ok (pos 0)
      else refuse_if (is_mounted_noexec m path) (ok (pos 0)) in
    if bit_and mask w_ok == 0 then run else refuse_if (is_mounted_ro m path) run

-- The tests of the permission bits, and then of the mount options.
unfoldable pub user_access : Option UserInfo → Option MountInfo → Text → ℕ → Owner → Result ℤ
user_access none m path mask o = ok (pos 0)
user_access (some u) m path mask o =
    let denied = UserInfo.access u o.uid o.gid o.mode mask in
    if denied == 0 then mount_access m path mask else ok (neg denied)

unfoldable pub owner_access :
    Option UserInfo → Option MountInfo → Text → ℕ → Option Owner → Result ℤ
owner_access u m path mask none = ok (neg eio)
owner_access u m path mask (some o) = user_access u m path mask o

-- The tokens 3, 4 and 5. `doStat` gives 13 tokens at least, so the index is in range.
unfoldable pub tokens_access : Option UserInfo → Option MountInfo → Text → ℕ → List Text → Result ℤ
tokens_access u m path mask (t0 ∷ t1 ∷ t2 ∷ mode ∷ uid ∷ gid ∷ ts) =
    owner_access u m path mask (read_owner mode uid gid)
tokens_access u m path mask ts = fault out_of_range

-- What `adbnc_access` makes of the result and the tokens of `doStat`.
unfoldable pub access_result :
    Option UserInfo → Option MountInfo → Text → ℕ → ℤ × List Text → Result ℤ
access_result u m path mask (r, ts) =
    if is_ok r
    then (if mask == f_ok then ok (pos 0) else tokens_access u m path mask ts)
    else ok (if mask == f_ok then neg enoent else r)

module _ (env : Env) where
  open env use {World}

  -- `adbnc_access`
  unfoldable pub adbnc_access : Text → ℕ → M World ℤ
  adbnc_access path mask = do
    found ← do_stat env path
    λ s. (access_result s.user_info s.mount_info path mask found, s)
