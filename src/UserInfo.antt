-- ===== src/UserInfo.antt =====
-- src/userInfo.cpp and src/userInfo.h: the ids of the user on the device, read from a line that
-- `busybox id` prints, and the test of a file's permission bits.
use Prim.Native.Nat.{bit_and}
pub mod Access
pub mod Parse
use adbncfs.Prelude.{
  ℕ, zero, suc, ◌+◌, ◌-◌, ◌*◌, ◌/◌, ◌%◌, ◌^◌, ◌≤◌, ◌<◌, ◌≡◌, refl, sym, ap, ◌∙◌, fun_ext, ◌≢◌, ◌↔◌,
  ◌⊎◌, inl, inr, Bool, true, false, not, ◌&&◌, ◌||◌, Option, none, some, List, [], ◌∷◌, ◌++◌, map,
  append-nil, append_assoc, arith, ltb, leb, ◌==◌, ==_iff, ==_refl, ltb→lt, lt→ltb, leb→le, tests,
  if◌then◌else◌, Bool-cases, Option-cases, length, get_elem?, take, drop, is_empty, length-append,
  length-drop, All, All-append, Text, codes, text_eq, text_eq_iff, text_eq_refl, starts_with,
  contains, is_delim,
}
use adbncfs.Prelude.Int.{ℤ, pos, neg, int_eq}
use adbncfs.Strings.Tokens.{strtok, tokens}
use adbncfs.Strings.Numbers.{atoi}

-- The set of groups is only searched, so a list serves, in which a group may stand twice.
pub record UserInfo : Type 0 where
  pub uid : ℤ
  pub gid : ℤ
  pub groups : List ℤ

-- errno
abbrev pub eacces : ℕ
eacces = 13

-- `m_Groups.find(i) != m_Groups.end()`
unfoldable pub has_group : List ℤ → ℤ → Bool
has_group [] g = false
has_group (h ∷ gs) g = int_eq h g || has_group gs g

unfoldable pub belongs_to_group : UserInfo → ℤ → Bool
unfolding has_group
belongs_to_group u g = int_eq u.gid g || has_group u.groups g

-- `testAccesss`
unfoldable pub test_access : ℕ → ℕ → ℕ
test_access mode mask = if bit_and mode mask == mask then 0 else eacces

-- `UserInfo::access`. The source first sets the result to 0 for root and to EACCES for others; each
-- of the three branches below overwrites it.
unfoldable pub access : UserInfo → ℤ → ℤ → ℕ → ℕ → ℕ
unfolding test_access belongs_to_group
access u uid gid mode mask =
    let initial = if int_eq u.uid (pos 0) && int_eq u.gid (pos 0) then 0 else eacces in
    if int_eq u.uid uid
    then test_access (bit_and mode 0o700 / 2 ^ 6) mask
    else if belongs_to_group u gid
    then test_access (bit_and mode 0o070 / 2 ^ 3) mask
    else test_access (bit_and mode 0o007) mask

-- The members, the current token (`pch`) and the save pointer.
pub record Cursor : Type 0 where
  pub info : UserInfo
  pub pch : Option Text
  pub save : Text

-- `pch && strcmp(pch, s) == 0`
unfoldable pub is_token : Option Text → Text → Bool
unfolding text_eq
is_token none s = false
is_token (some t) s = text_eq t s

abbrev pub equal_delim : Text
equal_delim = codes "= "

-- The value of `gid`, and the token behind it.
unfoldable pub parse_gid_value : UserInfo → Text → Cursor
parse_gid_value info s =
    let (pch, save) = strtok equal_delim s in
    elim pch [
      | none ↦ record { info = info; pch = none; save = save }
      | some t ↦
          let (pch', save') = strtok equal_delim save in
          record { info = record info { gid = atoi t }; pch = pch'; save = save' }
    ]

unfoldable pub parse_gid : UserInfo → Text → Cursor
unfolding is_token
parse_gid info s =
    let (pch, save) = strtok equal_delim s in
    if is_token pch (codes "gid")
    then parse_gid_value info save
    else record { info = info; pch = pch; save = save }

-- The value of `uid`, and what stands behind it.
unfoldable pub parse_uid_value : UserInfo → Text → Cursor
parse_uid_value info s =
    let (pch, save) = strtok equal_delim s in
    elim pch [
      | none ↦ record { info = info; pch = none; save = save }
      | some t ↦ parse_gid (record info { uid = atoi t }) save
    ]

unfoldable pub parse_ids : UserInfo → Text → Cursor
unfolding is_token
parse_ids info s =
    let (pch, save) = strtok equal_delim s in
    if is_token pch (codes "uid")
    then parse_uid_value info save
    else record { info = info; pch = pch; save = save }

-- `parseUserInfoString`, on the members as the constructor finds them: it does not set `m_iUid` and
-- `m_iGid` before, so what they hold if the line has no ids is any value.
unfoldable pub parse_user_info : UserInfo → Text → UserInfo
unfolding is_token
parse_user_info memory s =
    let c = parse_ids (record memory { groups = [] }) s in
    if is_token c.pch (codes "groups")
    then record c.info { groups = map atoi (tokens (codes ",") c.save) }
    else c.info
