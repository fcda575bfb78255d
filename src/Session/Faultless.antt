-- ===== src/Session/Faultless.antt =====
-- Which outputs of the device and which paths lead to a result, and not to an index behind the end of
-- the tokens or to a search that does not end.
use adbncfs.Prelude.{
  ℕ, zero, suc, ◌≤◌, ◌≡◌, refl, sym, ap, ◌∙◌, inl, inr, Option, List, [], ◌∷◌, arith, ltb,
  Bool-cases, length, All, Text,
}
use adbncfs.Prelude.Int.{ℤ, pos, negsuc}
use mathlib.Core.Path.{subst}
use adbncfs.Strings.Tokens.{tokenize}
use adbncfs.Strings.Numbers.{stoul}
use adbncfs.Path.{parent}
use adbncfs.Path.Parent.{IsName, parent_root, parent-append}
use adbncfs.MountInfo.{MountInfo}
use adbncfs.UserInfo.{UserInfo}
use adbncfs.MountInfo.Lookup.{directory, path_of, above_cons, mount_point-nearest}
use adbncfs.Fs.Stat.{stat_result}
use adbncfs.Fs.Attributes.{attr_result, Filling, filled, thrown, no_token, assign}
use adbncfs.Fs.Attributes.Tokens.{HasToken, assign-HasToken, in_order-HasToken, attr_result_total}
use adbncfs.Fs.Access.{access_result}
use adbncfs.Fs.Access.Total.{Returns, access_result-Returns, stat_result-length}
use adbncfs.Fs.Space.{Statvfs, fill_blocks, fill_inodes, from_filling, df_result}

-- The absolute path of a file, as FUSE gives it: no name on the way is empty.
abbrev pub IsPath : Text → Type 0
IsPath path = (cs : List Text) × All IsName cs × (path_of cs ≡ path)

pub parent-IsPath : (path : Text) → IsPath path → IsPath (parent path)
parent-IsPath path ([], h, e) = ([], tt, sym parent_root ∙ ap parent e)
parent-IsPath path (c ∷ cs, h, e) = (
  cs,
  h.1,
  sym (parent-append (directory cs) c h.0).0 ∙ ap parent (sym (above_cons (directory cs) c) ∙ e),
)

-- What is taken for the attributes of a file has all 15 of them.
abbrev pub IsWhole : List Text → Type 0
IsWhole output = (stat_result output).0 ≡ pos 0 → 15 ≤ length (stat_result output).1

attr_result-found :
    (r : ℤ) (ts : List Text) → (r ≡ pos 0 → 15 ≤ length ts) → Returns (attr_result (r, ts))
attr_result-found (pos zero) ts h = attr_result_total ts (h refl)
attr_result-found (pos (suc n)) ts h = unfold attr_result in (_, refl)
attr_result-found (negsuc n) ts h = unfold attr_result in (_, refl)

pub attr_result-Returns :
    (output : List Text) → IsWhole output → Returns (attr_result (stat_result output))
attr_result-Returns output h = attr_result-found (stat_result output).0 (stat_result output).1 h

pub access_path-Returns :
    (u : Option UserInfo) (m : Option MountInfo) (path : Text) (mask : ℕ) (output : List Text)
    → IsPath path
    → Returns (access_result u m path mask (stat_result output))
access_path-Returns u m path mask output (cs, h, e) =
    subst (λ p. Returns (access_result u m p mask (stat_result output))) e
      (access_result-Returns u (path_of cs) mask m (λ t. (_, mount_point-nearest t cs h))
        (stat_result output) (stat_result-length output))

fill_blocks-HasToken : (ts : List Text) (b : Statvfs) → 6 ≤ length ts → HasToken (fill_blocks ts b)
unfolding fill_blocks
fill_blocks-HasToken ts b h =
    in_order-HasToken
      ((λ r. filled (record r { f_bsize = 4096 }))
        ∷ assign ts 1 stoul (λ r n. record r { f_blocks = n; f_frsize = r.f_bsize })
        ∷ assign ts 3 stoul (λ r n. record r { f_bfree = n; f_bavail = n })
        ∷ [])
      b
      (
        λ c. tt,
        (
          λ c.
              assign-HasToken ts 1 stoul (λ r n. record r { f_blocks = n; f_frsize = r.f_bsize }) c
                (omega arith),
          (
            λ c.
                assign-HasToken ts 3 stoul (λ r n. record r { f_bfree = n; f_bavail = n }) c
                  (omega arith),
            tt,
          ),
        ),
      )

fill_inodes-HasToken : (ts : List Text) (b : Statvfs) → 6 ≤ length ts → HasToken (fill_inodes ts b)
unfolding fill_inodes
fill_inodes-HasToken ts b h =
    in_order-HasToken
      (assign ts 1 stoul (λ r n. record r { f_files = n })
        ∷ assign ts 3 stoul (λ r n. record r { f_ffree = n; f_favail = n })
        ∷ [])
      b
      (
        λ c. assign-HasToken ts 1 stoul (λ r n. record r { f_files = n }) c (omega arith),
        (
          λ c.
              assign-HasToken ts 3 stoul (λ r n. record r { f_ffree = n; f_favail = n }) c
                (omega arith),
          tt,
        ),
      )

from_filling-Returns : (x : Filling Statvfs) → HasToken x → Returns (from_filling x)
from_filling-Returns (filled b) h = (_, refl)
from_filling-Returns (thrown b) h = (_, refl)
from_filling-Returns no_token h = absurd h

df_result-Returns :
    (fill : List Text → Statvfs → Filling Statvfs)
    → ((ts : List Text) (b : Statvfs) → 6 ≤ length ts → HasToken (fill ts b))
    → (b : Statvfs) (output : List Text) → Returns (df_result fill b output)
unfolding df_result
df_result-Returns fill h b [] = (_, refl)
df_result-Returns fill h b (header ∷ []) = (_, refl)
df_result-Returns fill h b (header ∷ line ∷ lines) =
    elim (Bool-cases (ltb (length (tokenize line)) 6)) [
      | inl e ↦ rw e (_, refl)
      | inr e ↦
          rw e (
            from_filling-Returns (fill (tokenize line) b) (h (tokenize line) b (ground (arith, e))))
    ]

pub fill_blocks-Returns :
    (b : Statvfs) (output : List Text) → Returns (df_result fill_blocks b output)
fill_blocks-Returns = df_result-Returns fill_blocks fill_blocks-HasToken

pub fill_inodes-Returns :
    (b : Statvfs) (output : List Text) → Returns (df_result fill_inodes b output)
fill_inodes-Returns = df_result-Returns fill_inodes fill_inodes-HasToken
