-- ===== src/Fs/Attributes.antt =====
-- `adbnc_getattr`: the `stat` structure from the tokens of `stat -t`.
pub mod Tokens
use Prim.Native.Nat.{bit_or}
use adbncfs.Prelude.{
  ℕ, zero, suc, ◌+◌, ◌-◌, ◌*◌, ◌/◌, ◌%◌, ◌^◌, ◌≤◌, ◌<◌, ◌≡◌, refl, sym, ap, ◌∙◌, fun_ext, ◌≢◌, ◌↔◌,
  ◌⊎◌, inl, inr, Bool, true, false, not, ◌&&◌, ◌||◌, Option, none, some, List, [], ◌∷◌, ◌++◌, map,
  append-nil, append_assoc, arith, ltb, leb, ◌==◌, ==_iff, ==_refl, ltb→lt, lt→ltb, leb→le, tests,
  if◌then◌else◌, Bool-cases, Option-cases, length, get_elem?, take, drop, is_empty, length-append,
  length-drop, All, All-append, Text, codes, text_eq, text_eq_iff, text_eq_refl, starts_with,
  contains, is_delim,
}
use adbncfs.Prelude.Int.{ℤ, pos, negsuc, neg}
use adbncfs.Strings.Numbers.{stoul, stoul_hex, stol, to_u32, to_i64}
use adbncfs.Fs.State.{
  Env, State, M, Result, ok, Fault, fault, out_of_range, pure, raise, ◌>>=◌, eio,
}
use adbncfs.Fs.Stat.{do_stat}

-- `struct stat`, the fields that are set
pub record Stat : Type 0 where
  pub st_ino : ℕ
  pub st_mode : ℕ
  pub st_nlink : ℕ
  pub st_uid : ℕ
  pub st_gid : ℕ
  pub st_rdev : ℕ
  pub st_size : ℤ
  pub st_blksize : ℤ
  pub st_blocks : ℤ
  pub st_atime : ℤ
  pub st_mtime : ℤ
  pub st_ctime : ℤ

-- `memset(pStatBuf, 0, …)`
abbrev pub zero_stat : Stat
zero_stat = record {
  st_ino = 0;
  st_mode = 0;
  st_nlink = 0;
  st_uid = 0;
  st_gid = 0;
  st_rdev = 0;
  st_size = pos 0;
  st_blksize = pos 0;
  st_blocks = pos 0;
  st_atime = pos 0;
  st_mtime = pos 0;
  st_ctime = pos 0;
}

-- What a `try` block leaves behind in the buffer that it fills: all of it, what was filled before an
-- exception, or the index that is behind the end of the tokens.
pub data Filling {ℓ} (B : Type ℓ) : Type ℓ where
  filled : B → Filling B
  thrown : B → Filling B
  no_token : Filling B

-- The statements of the block, in their order.
unfoldable pub in_order {ℓ} : {B : Type ℓ} → List (B → Filling B) → B → Filling B
in_order [] b = filled b
in_order (f ∷ fs) b = elim (f b) [
  | filled b' ↦ in_order fs b'
  | thrown b' ↦ thrown b'
  | no_token ↦ no_token
]

-- `field = read(tokens[i]);`
unfoldable pub assign {ℓ κ} :
    {B : Type ℓ} {A : Type κ} → List Text → ℕ → (Text → Option A) → (B → A → B) → B → Filling B
assign ts i read put b = elim (get_elem? ts i) [
  | none ↦ no_token
  | some t ↦ elim (read t) [ none ↦ thrown b | some a ↦ filled (put b a) ]
]

-- The `try` block: the statements up to the first that wants token 14, that one, and the others.
-- `st_mode` gets the rights of the owner, whoever that is; `st_nlink` is 1.
abbrev pub first_fields : List Text → List (Stat → Filling Stat)
first_fields ts =
    assign ts 7 stoul (λ r n. record r { st_ino = n })
    ∷ assign ts 3 stoul_hex (λ r n. record r { st_mode = bit_or (to_u32 n) 0o700; st_nlink = 1 })
    ∷ assign ts 4 stoul (λ r n. record r { st_uid = to_u32 n })
    ∷ assign ts 5 stoul (λ r n. record r { st_gid = to_u32 n })
    ∷ assign ts 6 stoul_hex (λ r n. record r { st_rdev = to_u32 n })
    ∷ assign ts 1 stoul (λ r n. record r { st_size = to_i64 n })
    ∷ []

abbrev pub block_size_field : List Text → Stat → Filling Stat
block_size_field ts = assign ts 14 stol (λ r n. record r { st_blksize = n })

abbrev pub last_fields : List Text → List (Stat → Filling Stat)
last_fields ts =
    assign ts 2 stoul (λ r n. record r { st_blocks = to_i64 n })
    ∷ assign ts 11 stol (λ r n. record r { st_atime = n })
    ∷ assign ts 12 stol (λ r n. record r { st_mtime = n })
    ∷ assign ts 13 stol (λ r n. record r { st_ctime = n })
    ∷ []

abbrev pub stat_fields : List Text → List (Stat → Filling Stat)
stat_fields ts = first_fields ts ++ block_size_field ts ∷ last_fields ts

unfoldable pub fill_stat : List Text → Stat → Filling Stat
unfolding assign in_order
fill_stat ts b = in_order (stat_fields ts) b

-- The result of the callback and what it leaves in the buffer.
unfoldable pub attr_result : ℤ × List Text → Result (ℤ × Stat)
unfolding fill_stat
attr_result (pos zero, ts) = elim (fill_stat ts zero_stat) [
  | filled b ↦ ok (pos 0, b)
  | thrown b ↦ ok (neg eio, b)
  | no_token ↦ fault out_of_range
]
attr_result (r, ts) = ok (r, zero_stat)

module _ (env : Env) where
  open env use {World}

  -- `adbnc_getattr`
  unfoldable pub adbnc_getattr : Text → M World (ℤ × Stat)
  unfolding do_stat attr_result
  adbnc_getattr path = do found ← do_stat env path; λ s. (attr_result found, s)
