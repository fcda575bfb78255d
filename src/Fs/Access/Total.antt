-- ===== src/Fs/Access/Total.antt =====
-- What `adbnc_access` makes of the tokens is a result, if the searches of a mount point end.
use Prim.Native.Nat.{bit_and}
use adbncfs.Prelude.{
  ℕ, zero, suc, ◌-◌, ◌≤◌, ◌≡◌, refl, Bool, true, false, Option, none, some, List, [], ◌∷◌, arith,
  ◌==◌, if◌then◌else◌, length, length-drop, Text,
}
use adbncfs.Prelude.Int.{ℤ, pos, negsuc}
use adbncfs.Strings.Tokens.{tokenize}
use adbncfs.UserInfo.{UserInfo}
use adbncfs.UserInfo
use adbncfs.MountInfo.{
  Entry, MountInfo, mount_point, is_mounted, is_mounted_ro, is_mounted_noexec, is_mounted_ro_entry,
  is_mounted_noexec_entry,
}
use adbncfs.Fs.State.{Result, ok}
use adbncfs.Fs.Stat.{last_15, stat_line, stat_result}
use adbncfs.Fs.Access.{
  x_ok, w_ok, Owner, read_owner, refuse_if, mount_access, user_access, owner_access, tokens_access,
  access_result,
}

-- A result that is no fault.
abbrev pub Returns : {A : Type 0} → Result A → Type 0
Returns {A} r = (a : A) × (r ≡ ok a)

refuse_if-Returns :
    (o : Option Bool) (b : Bool) (rest : Result ℤ)
    → o ≡ some b
    → Returns rest
    → Returns (refuse_if o rest)
unfolding refuse_if
refuse_if-Returns none b rest e h = absurd (cc)
refuse_if-Returns (some true) b rest e h = (_, refl)
refuse_if-Returns (some false) b rest e h = h

if-Returns : (b : Bool) (r q : Result ℤ) → Returns r → Returns q → Returns (if b then r else q)
if-Returns true r q h g = h
if-Returns false r q h g = g

mounted_known :
    (test : Entry → Bool) (m : MountInfo) (path : Text) (o : Option Entry)
    → mount_point m path ≡ some o
    → (b : Bool) × (is_mounted test (mount_point m path) ≡ some b)
unfolding is_mounted
mounted_known test m path none e = (false, rw (e, is_mounted) refl)
mounted_known test m path (some x) e = (test x, rw (e, is_mounted) refl)

module _ (u : Option UserInfo) (path : Text) (mask : ℕ) where
  mount_access-Returns :
      (m : Option MountInfo)
      → ((t : MountInfo) → (o : Option Entry) × (mount_point t path ≡ some o))
      → Returns (mount_access m path mask)
  unfolding mount_access is_mounted_ro is_mounted_noexec
  mount_access-Returns none h = (_, refl)
  mount_access-Returns (some t) h =
      let (o, e) = h t in
      let (ro, f) = mounted_known is_mounted_ro_entry t path o e in
      let (noexec, g) = mounted_known is_mounted_noexec_entry t path o e in
      let run =
        if-Returns (bit_and mask x_ok == 0) (ok (pos 0)) _ (_, refl)
          (refuse_if-Returns (is_mounted_noexec t path) noexec (ok (pos 0)) g (_, refl)) in
      if-Returns (bit_and mask w_ok == 0) _ _ run
        (refuse_if-Returns (is_mounted_ro t path) ro _ f run)

  module _ (m : Option MountInfo)
      (ends : (t : MountInfo) → (o : Option Entry) × (mount_point t path ≡ some o)) where
    user_access-Returns : (v : Option UserInfo) (o : Owner) → Returns (user_access v m path mask o)
    unfolding user_access
    user_access-Returns none o = (_, refl)
    user_access-Returns (some v) o =
        if-Returns (UserInfo.access v o.uid o.gid o.mode mask == 0) _ _
          (mount_access-Returns m ends) (_, refl)

    owner_access-Returns : (o : Option Owner) → Returns (owner_access u m path mask o)
    unfolding owner_access
    owner_access-Returns none = (_, refl)
    owner_access-Returns (some o) = user_access-Returns u o

    tokens_access-Returns :
        (ts : List Text) → 6 ≤ length ts → Returns (tokens_access u m path mask ts)
    unfolding tokens_access
    tokens_access-Returns (t0 ∷ t1 ∷ t2 ∷ mode ∷ uid ∷ gid ∷ ts) h =
        owner_access-Returns (read_owner mode uid gid)
    tokens_access-Returns ts h = absurd (omega (arith, h))

    pub access_result-Returns :
        (found : ℤ × List Text)
        → (found.0 ≡ pos 0 → 6 ≤ length found.1)
        → Returns (access_result u m path mask found)
    unfolding access_result
    access_result-Returns (pos zero, ts) h =
        if-Returns (mask == 0) _ _ (_, refl) (tokens_access-Returns ts (h refl))
    access_result-Returns (pos (suc n), ts) h =
        let fails : (suc n == 0) ≡ false = ground arith in rw fails (_, refl)
    access_result-Returns (negsuc n, ts) h = (_, refl)

-- doStat that returns 0 leaves 13 to 15 tokens.
pub stat_result-length :
    (output : List Text) → (stat_result output).0 ≡ pos 0 → 6 ≤ length (stat_result output).1
unfolding stat_result last_15
stat_result-length [] e = absurd (cc)
stat_result-length (line ∷ lines) e =
    let ts = tokenize (stat_line line lines) in ground (arith, e, length-drop (length ts - 15) ts)
