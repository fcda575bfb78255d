-- ===== src/Path/Parent.antt =====
-- The laws of `parent`: the directory of a name, and that going up from an absolute path ends.
use adbncfs.Prelude.{
  ℕ, zero, suc, ◌+◌, ◌-◌, ◌≤◌, ◌<◌, ◌≡◌, refl, ap, ◌∙◌, ◌≢◌, ◌⊎◌, inl, inr, false, none, some, [],
  ◌∷◌, ◌++◌, append_assoc, arith, ◌==◌, if◌then◌else◌, Bool-cases, Option-cases, length, take,
  length-append, All, Text, text_eq_iff, text_eq_refl,
}
use mathlib.Core.List.{cons-ne-nil}
use adbncfs.Path.{slash, dot, byte_at, rfind_slash, strip_slash, cut_name, parent}

-- No byte of a name is a slash.
abbrev pub IsName : Text → Type 0
IsName s = (s ≢ []) × All (λ c. c ≢ slash) s

length-take-le : (n : ℕ) (s : Text) → length (take n s) ≤ n
length-take-le zero s = omega arith
length-take-le (suc n) [] = omega arith
length-take-le (suc n) (c ∷ s) = omega (arith, length-take-le n s)

length-take-le_length : (n : ℕ) (s : Text) → length (take n s) ≤ length s
length-take-le_length zero s = omega arith
length-take-le_length (suc n) [] = omega arith
length-take-le_length (suc n) (c ∷ s) = omega (arith, length-take-le_length n s)

rfind_slash-lt : (s : Text) (i : ℕ) → rfind_slash s ≡ some i → i < length s
unfolding rfind_slash
rfind_slash-lt [] i h = ground arith
rfind_slash-lt (c ∷ s) zero h = omega arith
rfind_slash-lt (c ∷ s) (suc i) h = ground (arith, rfind_slash-lt s i)

rfind_slash-ne-none : (s : Text) → rfind_slash (slash ∷ s) ≢ none
unfolding rfind_slash
rfind_slash-ne-none s = ground arith

-- A text that begins with a slash, shorter than the one that it is made from.
abbrev Below : Text → ℕ → Type 0
Below s n = (t : Text) × (s ≡ slash ∷ t) × (length t ≤ n)

strip_slash_absolute : (s : Text) → s ≢ [] → Below (strip_slash (slash ∷ s)) (length s)
unfolding strip_slash
strip_slash_absolute [] h = absurd (h refl)
strip_slash_absolute (c ∷ s) h =
    let n : length (slash ∷ c ∷ s) - 1 ≡ suc (length s) = omega arith in
    elim (Bool-cases (byte_at (slash ∷ c ∷ s) (length (slash ∷ c ∷ s) - 1) == slash)) [
      | inl e ↦
          (take (length s) (c ∷ s), rw (e, n), omega (arith, length-take-le (length s) (c ∷ s)))
      | inr e ↦ (c ∷ s, rw e, omega arith)
    ]

cut_at : (i : ℕ) (t : Text) → take (if suc i == 0 then 1 else suc i) t ≡ take (suc i) t
cut_at i t = ground arith

cut_name_absolute :
    (t : Text)
    → (u : Text) × (cut_name (slash ∷ t) ≡ slash ∷ u) × ((u ≡ []) ⊎ (length u < length t))
unfolding cut_name
cut_name_absolute t = elim (Option-cases (rfind_slash (slash ∷ t))) [
  | inl e ↦ absurd (rfind_slash-ne-none t e)
  | inr (zero, e) ↦ ([], rw (e, cut_name), inl refl)
  | inr (suc i, e) ↦ (
    take i t,
    rw (e, cut_name) (cut_at i (slash ∷ t)),
    inr (omega (arith, length-take-le i t, rfind_slash-lt (slash ∷ t) (suc i) e)),
  )
]

-- The general case of `parent`: the name is cut off, and something was cut off.
parent_cut :
    (path up : Text)
    → 2 ≤ length path
    → cut_name (strip_slash path) ≡ up
    → up ≢ path
    → parent path ≡ up
unfolding parent
parent_cut path up n e h = ground (arith, text_eq_iff up path)

pub shorter-ne : (s t : Text) → length s < length t → s ≢ t
shorter-ne s t h e = absurd (omega (arith, ap (λ (x : Text). length x) e))

-- The parent of an absolute path other than the root is an absolute path, and shorter.
pub parent_absolute :
    (s : Text) → s ≢ [] → (t : Text) × (parent (slash ∷ s) ≡ slash ∷ t) × (length t < length s)
parent_absolute [] h = absurd (h refl)
parent_absolute (c ∷ s) h =
    let (t, e, n) = strip_slash_absolute (c ∷ s) h in
    let (u, e', n') = cut_name_absolute t in
    let m : length u < length (c ∷ s) = elim n' [
      | inl z ↦ omega (arith, ap (λ (x : Text). length x) z)
      | inr l ↦ omega arith
    ] in
    (
      u,
      parent_cut (slash ∷ c ∷ s) (slash ∷ u) (omega arith) (ap cut_name e ∙ e')
          (shorter-ne (slash ∷ u) (slash ∷ c ∷ s) (omega arith)),
      m,
    )

pub parent_root : parent (slash ∷ []) ≡ slash ∷ []
unfolding parent
parent_root = refl

-- The lone dot is its own parent: from a relative path, going up never comes to the root.
pub parent-dot : parent dot ≡ dot
unfolding parent
parent-dot = refl

rfind_slash-none : (s : Text) → All (λ c. c ≢ slash) s → rfind_slash s ≡ none
unfolding rfind_slash
rfind_slash-none [] h = refl
rfind_slash-none (c ∷ s) h = ground (arith, rfind_slash-none s h.1)

rfind_slash-append :
    (dir name : Text)
    → All (λ c. c ≢ slash) name
    → rfind_slash (dir ++ slash ∷ name) ≡ some (length dir)
unfolding rfind_slash
rfind_slash-append [] name h = rw (rfind_slash-none name h)
rfind_slash-append (c ∷ dir) name h = rw (rfind_slash-append dir name h)

take-append : (s t : Text) → take (length s) (s ++ t) ≡ s
take-append [] t = refl
take-append (c ∷ s) t = ap (λ x. c ∷ x) (take-append s t)

byte_at-append : (s : Text) (c : ℕ) (t : Text) → byte_at (s ++ c ∷ t) (length s) ≡ c
byte_at-append [] c t = refl
byte_at-append (d ∷ s) c t = byte_at-append s c t

-- What stands above a name: the directory, or the root if nothing stands before the slash.
abbrev pub above : Text → Text
above [] = slash ∷ []
above (c ∷ s) = c ∷ s

cut_name-append :
    (dir name : Text) → All (λ c. c ≢ slash) name → cut_name (dir ++ slash ∷ name) ≡ above dir
unfolding cut_name
cut_name-append [] name h = rw (rfind_slash-append [] name h, cut_name)
cut_name-append (c ∷ dir) name h =
    rw (rfind_slash-append (c ∷ dir) name h, cut_name)
      (cut_at (length dir) ((c ∷ dir) ++ slash ∷ name) ∙ take-append (c ∷ dir) (slash ∷ name))

pub length-above : (dir : Text) → length (above dir) ≤ length dir + 1
length-above [] = omega arith
length-above (c ∷ s) = omega arith

last_byte :
    (front name : Text)
    → IsName name
    → (byte_at (front ++ name) (length (front ++ name) - 1) == slash) ≡ false
last_byte front [] h = absurd (h.0 refl)
last_byte front (c ∷ []) h =
    let n : length (front ++ c ∷ []) - 1 ≡ length front =
      omega (arith, length-append front (c ∷ [])) in
    rw (n, byte_at-append front c []) (ground (arith, h.1.0))
last_byte front (c ∷ d ∷ name) h =
    rw (← append_assoc front (c ∷ []) (d ∷ name))
      (last_byte (front ++ c ∷ []) (d ∷ name) (cons-ne-nil d name, h.1.1))

strip_slash_name : (front name : Text) → IsName name → strip_slash (front ++ name) ≡ front ++ name
unfolding strip_slash
strip_slash_name front name h = rw (last_byte front name h)

strip_slash_end : (s : Text) → strip_slash (s ++ slash ∷ []) ≡ s
unfolding strip_slash
strip_slash_end s =
    let n : length (s ++ slash ∷ []) - 1 ≡ length s = omega (arith, length-append s (slash ∷ [])) in
    rw (n, byte_at-append s slash []) (take-append s (slash ∷ []))

pub length-name : (dir name : Text) → IsName name → length dir + 2 ≤ length (dir ++ slash ∷ name)
length-name dir [] h = absurd (h.0 refl)
length-name dir (c ∷ name) h = omega (arith, length-append dir (slash ∷ c ∷ name))

-- The parent of a name in a directory is the directory, or the root for a name in the root, also
-- if the name is followed by a slash.
pub parent-append :
    (dir name : Text)
    → IsName name
    → (parent (dir ++ slash ∷ name) ≡ above dir)
      × (parent ((dir ++ slash ∷ name) ++ slash ∷ []) ≡ above dir)
parent-append dir name h =
    let path = dir ++ slash ∷ name in
    let n : length dir + 2 ≤ length path = length-name dir name h in
    let e : strip_slash path ≡ path =
      rw (← append_assoc dir (slash ∷ []) name) (strip_slash_name (dir ++ slash ∷ []) name h) in
    let m : length (path ++ slash ∷ []) ≡ length path + 1 = length-append path (slash ∷ []) in
    (
      parent_cut path (above dir) (omega arith) (ap cut_name e ∙ cut_name-append dir name h.1)
          (shorter-ne (above dir) path (omega (arith, length-above dir))),
      parent_cut (path ++ slash ∷ []) (above dir) (omega arith)
          (ap cut_name (strip_slash_end path) ∙ cut_name-append dir name h.1)
          (shorter-ne (above dir) (path ++ slash ∷ []) (omega (arith, length-above dir))),
    )

first_byte : (name : Text) → IsName name → (byte_at name 0 == slash) ≡ false
first_byte [] h = absurd (h.0 refl)
first_byte (c ∷ name) h = ground (arith, h.1.0)

length-pos : (s : Text) → s ≢ [] → 0 < length s
length-pos [] h = absurd (h refl)
length-pos (c ∷ s) h = omega arith

-- The general case of `parent` where nothing was cut off.
parent_whole :
    (path : Text)
    → 0 < length path
    → (byte_at path 0 == slash) ≡ false
    → cut_name (strip_slash path) ≡ path
    → parent path ≡ dot
unfolding parent
parent_whole path n f e = ground (arith, text_eq_refl path)

-- The parent of a name with no directory before it is the dot.
pub parent-name : (name : Text) → IsName name → parent name ≡ dot
parent-name name h =
    let e : cut_name (strip_slash name) ≡ name =
      ap cut_name (strip_slash_name [] name h)
      ∙ (unfold cut_name in rw (rfind_slash-none name h.1, cut_name)) in
    parent_whole name (length-pos name h.0) (first_byte name h) e
