-- ===== src/Fs/Links/Resolving.antt =====
-- Where the relative target of `adbnc_readlink` leads, and how much of the buffer it takes.
use adbncfs.Prelude.{
  ℕ, zero, suc, ◌+◌, ◌-◌, ◌≤◌, ◌≡◌, refl, ap, ◌∙◌, ◌≢◌, Option, none, some, List, [], ◌∷◌, ◌++◌,
  arith, length, All, Text, codes,
}
use adbncfs.Prelude.Int.{pos}
use adbncfs.Path.{slash}
use adbncfs.Path.Parent.{IsName}
use adbncfs.MountInfo.Lookup.{directory}
use adbncfs.Fs.Links.{slashes, go_up, relative_target, copy_target, link_result}

-- The front of a relative path: so many times `../` from a directory, which is given by the names on
-- the way to it from the mount point, the last one first. Above the mount point there is the host,
-- so no directory of the device is reached.
abbrev pub climb : ℕ → List Text → Option (List Text)
climb zero cs = some cs
climb (suc n) [] = none
climb (suc n) (c ∷ cs) = climb n cs

-- `../` so many times.
abbrev pub dots : ℕ → Text
dots zero = []
dots (suc n) = codes "../" ++ dots n

-- `target` leads from `cs` to `there`, behind which `rest` remains: it is `../` some times, then
-- `rest`, and no `../` leaves the mount point.
pub record Leads (cs : List Text) (target : Text) (there : List Text) (rest : Text) : Type 0 where
  pub times : ℕ
  pub spelled : target ≡ dots times ++ rest
  pub arrives : climb times cs ≡ some there

dots_comm : (n : ℕ) (t : Text) → dots n ++ (codes "../" ++ t) ≡ codes "../" ++ (dots n ++ t)
dots_comm zero t = refl
dots_comm (suc n) t = ap (λ s. codes "../" ++ s) (dots_comm n t)

go_up-dots : (n : ℕ) (t : Text) → go_up n t ≡ dots n ++ t
unfolding go_up
go_up-dots zero t = refl
go_up-dots (suc n) t = go_up-dots n (codes "../" ++ t) ∙ dots_comm n t

slashes-append : (s t : Text) → slashes (s ++ t) ≡ slashes s + slashes t
unfolding slashes
slashes-append [] t = omega arith
slashes-append (c ∷ s) t = ground (arith, slashes-append s t)

slashes-name : (s : Text) → All (λ c. c ≢ slash) s → slashes s ≡ 0
unfolding slashes
slashes-name [] h = refl
slashes-name (c ∷ s) h = ground (arith, slashes-name s h.1)

slashes_name : (s : Text) → All (λ c. c ≢ slash) s → slashes (slash ∷ s) ≡ 1
slashes_name s h = unfold slashes in rw (slashes-name s h)

slashes-directory : (cs : List Text) → All IsName cs → slashes (directory cs) ≡ length cs
slashes-directory [] h = unfold slashes in refl
slashes-directory (c ∷ cs) h = omega (
  arith,
  slashes-append (directory cs) (slash ∷ c),
  slashes_name c h.0.1,
  slashes-directory cs h.1,
)

climb-length : (cs : List Text) → climb (length cs) cs ≡ some []
climb-length [] = refl
climb-length (c ∷ cs) = climb-length cs

-- adbnc_readlink turns an absolute target into a relative one: `../` as many times as lead from the
-- link's directory to the mount point and not above it, then the target without its first slash, if
-- the link's path is a slash and a name without slashes, once or more, and no name is empty.
pub relative_target-Leads :
    (c : Text) (cs : List Text) (target : Text)
    → All IsName (c ∷ cs)
    → Leads cs (relative_target (directory (c ∷ cs)) (slash ∷ target)) [] target
unfolding relative_target
relative_target-Leads c cs target h =
    let n : slashes (directory (c ∷ cs)) - 1 ≡ length cs =
      omega (arith, slashes-directory (c ∷ cs) h) in
    record {
      times = length cs;
      spelled = rw n (go_up-dots (length cs) target);
      arrives = climb-length cs;
    }

copy_target_fits :
    (target : Text) (size : ℕ) (t : Text)
    → (copy_target target size).1 ≡ some t
    → (length t + 1 ≤ size) × ((copy_target target size).0 ≡ pos 0)
unfolding copy_target
copy_target_fits target size t e = ground arith

-- What is put into the buffer fits, with the byte behind it, and comes with the result 0.
pub link_result_fits :
    (path : Text) (size : ℕ) (output : List Text) (t : Text)
    → (link_result path size output).1 ≡ some t
    → (length t + 1 ≤ size) × ((link_result path size output).0 ≡ pos 0)
unfolding link_result
link_result_fits path size [] t e = ground arith
link_result_fits path size (line ∷ lines) t e =
    copy_target_fits (relative_target path line) size t e
