-- ===== src/Fs/Space.antt =====
-- `adbnc_statfs`: the space and the inodes of a file system of the device.
pub mod Numbers
use adbncfs.Prelude.{ℕ, List, [], ◌∷◌, ◌++◌, ltb, if◌then◌else◌, length, Text, codes, text_eq}
use adbncfs.Prelude.Int.{ℤ, pos, neg, is_ok}
use adbncfs.Path.{slash}
use adbncfs.Strings.Numbers.{stoul}
use adbncfs.Strings.Tokens.{tokenize}
use adbncfs.Fs.State.{Env, M, Result, ok, fault, out_of_range, pure, ◌>>=◌, eio}
use adbncfs.Fs.Shell.{adbnc_shell}
use adbncfs.Fs.Stat.{quoted}
use adbncfs.Fs.Attributes.{Filling, filled, thrown, no_token, assign, in_order}

-- `struct statvfs`, the fields that are set
pub record Statvfs : Type 0 where
  pub f_bsize : ℕ
  pub f_frsize : ℕ
  pub f_blocks : ℕ
  pub f_bfree : ℕ
  pub f_bavail : ℕ
  pub f_files : ℕ
  pub f_ffree : ℕ
  pub f_favail : ℕ
  pub f_namemax : ℕ

-- `memset(pFst, 0, …)`
abbrev pub zero_statvfs : Statvfs
zero_statvfs = record {
  f_bsize = 0;
  f_frsize = 0;
  f_blocks = 0;
  f_bfree = 0;
  f_bavail = 0;
  f_files = 0;
  f_ffree = 0;
  f_favail = 0;
  f_namemax = 0;
}

-- The two `try` blocks.
unfoldable pub fill_blocks : List Text → Statvfs → Filling Statvfs
unfolding assign in_order
fill_blocks ts b =
    in_order
      ((λ r. filled (record r { f_bsize = 4096 }))
        ∷ assign ts 1 stoul (λ r n. record r { f_blocks = n; f_frsize = r.f_bsize })
        ∷ assign ts 3 stoul (λ r n. record r { f_bfree = n; f_bavail = n })
        ∷ [])
      b

unfoldable pub fill_inodes : List Text → Statvfs → Filling Statvfs
unfolding assign in_order
fill_inodes ts b =
    in_order
      (assign ts 1 stoul (λ r n. record r { f_files = n })
        ∷ assign ts 3 stoul (λ r n. record r { f_ffree = n; f_favail = n })
        ∷ [])
      b

abbrev pub from_filling : Filling Statvfs → Result (ℤ × Statvfs)
from_filling (filled b) = ok (pos 0, b)
from_filling (thrown b) = ok (neg eio, b)
from_filling no_token = fault out_of_range

-- The output of `df`: a header, and a line with the numbers; fewer than six tokens are passed over.
unfoldable pub df_result :
    (List Text → Statvfs → Filling Statvfs) → Statvfs → List Text → Result (ℤ × Statvfs)
unfolding tokenize
df_result fill b (header ∷ line ∷ lines) =
    let ts = tokenize line in if ltb (length ts) 6 then ok (pos 0, b) else from_filling (fill ts b)
df_result fill b output = ok (neg eio, b)

module _ (env : Env) where
  open env use {World}

  unfoldable pub block_info : Text → Statvfs → M World (ℤ × Statvfs)
  unfolding df_result
  block_info path b = do
    output ← adbnc_shell env (codes "df -P -B 4096 " ++ quoted path)
    λ s. (df_result fill_blocks b output, s)

  unfoldable pub inode_info : Text → Statvfs → M World (ℤ × Statvfs)
  unfolding df_result
  inode_info path b = do
    output ← adbnc_shell env (codes "df -P -i " ++ quoted path)
    (r, b') ← (λ s. (df_result fill_inodes b output, s))
    pure (r, record b' { f_namemax = 1024 })

  -- `adbnc_statfs`
  unfoldable pub adbnc_statfs : Text → M World (ℤ × Statvfs)
  unfolding text_eq
  adbnc_statfs path = if text_eq path (slash ∷ []) then pure (pos 0, zero_statvfs) else (do
    (r, b) ← block_info path zero_statvfs
    if is_ok r then inode_info path b else pure (r, b))
