-- ===== src/Fs/Access/Grants.antt =====
-- What `adbnc_access` grants on a mounted file system of the device.
use Prim.Native.Nat.{bit_and}
use adbncfs.Prelude.{
  ℕ, ◌<◌, ◌≡◌, refl, ap, ◌∙◌, ◌↔◌, ◌⊎◌, inl, inr, Bool, true, false, not, ◌&&◌, ◌||◌, Option, none,
  some, List, ◌∷◌, arith, ◌==◌, if◌then◌else◌, All, Text,
}
use adbncfs.Prelude.Int.{ℤ, pos, neg}
use adbncfs.Bits.{Covers}
use adbncfs.Path.Parent.{IsName}
use adbncfs.UserInfo
use adbncfs.UserInfo.{UserInfo}
use adbncfs.UserInfo.Access.{class_bits, access_iff}
use adbncfs.MountInfo.{
  Entry, MountInfo, is_mounted, is_mounted_ro_entry, is_mounted_noexec_entry, is_mounted_ro,
  is_mounted_noexec,
}
use adbncfs.MountInfo.Lookup.{path_of, nearest, mount_point-nearest}
use adbncfs.Fs.State.{ok, eacces}
use adbncfs.Fs.Access.{
  Owner, x_ok, w_ok, read_owner, mount_access, user_access, owner_access, tokens_access,
  access_result,
}

-- Whether the nearest mount point has an option.
abbrev pub on_mount : (Entry → Bool) → Option Entry → Bool
on_mount test none = false
on_mount test (some e) = test e

-- Whether the mount refuses what is asked for: writing where it is read-only, running where it is
-- `noexec`.
abbrev pub mount_refuses : MountInfo → List Text → ℕ → Bool
mount_refuses m cs mask =
    not (bit_and mask w_ok == 0) && on_mount is_mounted_ro_entry (nearest m cs)
    || not (bit_and mask x_ok == 0) && on_mount is_mounted_noexec_entry (nearest m cs)

is_mounted-on_mount :
    (test : Entry → Bool) (e : Option Entry) → is_mounted test (some e) ≡ some (on_mount test e)
unfolding is_mounted
is_mounted-on_mount test none = refl
is_mounted-on_mount test (some e) = refl

-- What the two tests make together.
abbrev verdict : ℕ → Bool → ℤ
verdict denied refuses = if denied == 0 then (if refuses then neg eacces else pos 0) else neg denied

verdict_iff :
    (denied : ℕ) (refuses : Bool)
    → (denied ≡ 0) ⊎ (denied ≡ eacces)
    → ((verdict denied refuses ≡ pos 0) ↔ ((denied ≡ 0) × (refuses ≡ false)))
      × ((verdict denied refuses ≡ pos 0) ⊎ (verdict denied refuses ≡ neg eacces))
verdict_iff denied true (inl z) = rw z ((λ e. cc, λ e. cc), inr refl)
verdict_iff denied false (inl z) = rw z ((λ e. (refl, refl), λ e. refl), inl refl)
verdict_iff denied refuses (inr z) = rw z ((λ e. cc, λ e. cc), inr refl)

module _ (m : MountInfo) (cs : List Text) (names : All IsName cs) where
  ro_lem : is_mounted_ro m (path_of cs) ≡ some (on_mount is_mounted_ro_entry (nearest m cs))
  unfolding is_mounted_ro
  ro_lem =
      ap (is_mounted is_mounted_ro_entry) (mount_point-nearest m cs names)
      ∙ is_mounted-on_mount is_mounted_ro_entry (nearest m cs)

  noexec_lem :
      is_mounted_noexec m (path_of cs) ≡ some (on_mount is_mounted_noexec_entry (nearest m cs))
  unfolding is_mounted_noexec
  noexec_lem =
      ap (is_mounted is_mounted_noexec_entry) (mount_point-nearest m cs names)
      ∙ is_mounted-on_mount is_mounted_noexec_entry (nearest m cs)

  mount_access_lem :
      (mask : ℕ)
      → mount_access (some m) (path_of cs) mask
        ≡ ok (if mount_refuses m cs mask then neg eacces else pos 0)
  unfolding mount_access
  mount_access_lem mask = rw (ro_lem, noexec_lem) (ground arith)

  user_access_lem :
      (u : UserInfo) (o : Owner) (mask : ℕ)
      → user_access (some u) (some m) (path_of cs) mask o
        ≡ ok (verdict (UserInfo.access u o.uid o.gid o.mode mask) (mount_refuses m cs mask))
  unfolding user_access
  user_access_lem u o mask = rw (mount_access_lem mask) (ground arith)

  tokens_lem :
      (u : UserInfo) (o : Owner) (mask : ℕ) (t0 t1 t2 mode uid gid : Text) (ts : List Text)
      → 0 < mask
      → read_owner mode uid gid ≡ some o
      → access_result
          (some u)
          (some m)
          (path_of cs)
          mask
          (pos 0, t0 ∷ t1 ∷ t2 ∷ mode ∷ uid ∷ gid ∷ ts)
        ≡ ok (verdict (UserInfo.access u o.uid o.gid o.mode mask) (mount_refuses m cs mask))
  unfolding access_result tokens_access owner_access
  tokens_lem u o mask t0 t1 t2 mode uid gid ts p e = ground (arith, e, user_access_lem u o mask)

  -- The result is 0 or -EACCES, and it is 0 exactly if every requested permission bit is set in the
  -- user's class, and the mount point that is nearest to the path is neither read-only, where writing
  -- is asked for, nor `noexec`, where running is.
  pub access_result_iff :
      (u : UserInfo) (o : Owner) (mask : ℕ) (t0 t1 t2 mode uid gid : Text) (ts : List Text)
      → 0 < mask
      → mask < 8
      → read_owner mode uid gid ≡ some o
      → (r : ℤ) × (access_result
            (some u)
            (some m)
            (path_of cs)
            mask
            (pos 0, t0 ∷ t1 ∷ t2 ∷ mode ∷ uid ∷ gid ∷ ts)
          ≡ ok r)
        × ((r ≡ pos 0)
            ↔ (Covers (class_bits u o.uid o.gid o.mode) mask × (mount_refuses m cs mask ≡ false)))
        × ((r ≡ pos 0) ⊎ (r ≡ neg eacces))
  access_result_iff u o mask t0 t1 t2 mode uid gid ts p h e =
      let denied = UserInfo.access u o.uid o.gid o.mode mask in
      let (granted, range) = access_iff u o.uid o.gid o.mode mask h in
      let (both, result) = verdict_iff denied (mount_refuses m cs mask) range in
      (
        verdict denied (mount_refuses m cs mask),
        tokens_lem u o mask t0 t1 t2 mode uid gid ts p e,
        (λ z. let (a, b) = both.0 z in (granted.0 a, b), λ c. both.1 (granted.1 c.0, c.1)),
        result,
      )
