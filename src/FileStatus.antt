-- ===== src/FileStatus.antt =====
-- `FileStatus` of src/fileInfoCache.h and src/fileinfoCache.cpp: which files were read, written or
-- truncated since they were opened, and what `flush` and `release` do with that.
pub mod History
pub mod Results
use adbncfs.Prelude.{
  ℕ, zero, suc, ◌+◌, ◌-◌, ◌*◌, ◌/◌, ◌%◌, ◌^◌, ◌≤◌, ◌<◌, ◌≡◌, refl, sym, ap, ◌∙◌, fun_ext, ◌≢◌, ◌↔◌,
  ◌⊎◌, inl, inr, Bool, true, false, not, ◌&&◌, ◌||◌, Option, none, some, List, [], ◌∷◌, ◌++◌, map,
  append-nil, append_assoc, arith, ltb, leb, ◌==◌, ==_iff, ==_refl, ltb→lt, lt→ltb, leb→le, tests,
  if◌then◌else◌, Bool-cases, Option-cases, length, get_elem?, take, drop, is_empty, length-append,
  length-drop, All, All-append, Text, codes, text_eq, text_eq_iff, text_eq_refl, starts_with,
  contains, is_delim,
}
use adbncfs.Prelude.Dict.{Dict, find, put, insert}
use adbncfs.Prelude.Int.{ℤ, pos, negsuc, neg, int_eq}

-- `FileStatus::Entry`
pub record Entry : Type 0 where
  pub is_pending : Bool
  pub for_write : Bool
  pub is_truncated : Bool
  pub renamed_from_local : Text

abbrev pub FileStatus : Type 0
FileStatus = Dict Entry

-- The default constructor of an entry.
abbrev pub new_entry : Entry
new_entry = record {
  is_pending = false;
  for_write = false;
  is_truncated = false;
  renamed_from_local = [];
}

-- The setters of an entry: `pendingOpen` with two flags and with a path, and `truncated`.
unfoldable pub set_pending : Entry → Bool → Bool → Entry
set_pending e pending write = record e { is_pending = pending; for_write = write }

unfoldable pub set_renamed : Entry → Text → Entry
set_renamed e local = record e { is_pending = true; renamed_from_local = local }

unfoldable pub set_truncated : Entry → Bool → Entry
set_truncated e b = record e { is_truncated = b }

-- What the three setters of the map have in common: change the entry, or insert a changed new one.
unfoldable pub change : FileStatus → Text → (Entry → Entry) → FileStatus
change m path f = elim (find m path) [
  | none ↦ insert m path (f new_entry)
  | some e ↦ put m path (f e)
]

unfoldable pub pending_open : FileStatus → Text → Bool → Bool → FileStatus
unfolding change set_pending
pending_open m path pending write = change m path (λ e. set_pending e pending write)

unfoldable pub pending_open_renamed : FileStatus → Text → Text → FileStatus
unfolding change set_renamed
pending_open_renamed m path local = change m path (λ e. set_renamed e local)

unfoldable pub truncated : FileStatus → Text → Bool → FileStatus
unfolding change set_truncated
truncated m path b = change m path (λ e. set_truncated e b)

unfoldable pub is_pending_open : FileStatus → Text → Bool
is_pending_open m path = elim (find m path) [ none ↦ false | some e ↦ e.is_pending ]

unfoldable pub is_truncated : FileStatus → Text → Bool
is_truncated m path = elim (find m path) [ none ↦ false | some e ↦ e.is_truncated ]

-- errno
abbrev pub ebadf : ℕ
ebadf = 9

-- `iRes` is -EBADF from the start, and a close that fails makes it -errno.
unfoldable pub close_result : Option ℕ → ℤ
close_result none = neg ebadf
close_result (some errno) = neg errno

module _ {ℓ} {W : Type ℓ} where
  -- `FileStatus::Entry::flush`, given `adbncPush` as a function of the local and the remote path.
  unfoldable pub flush_entry : (Text → Text → W → ℤ × W) → Entry → Text → Text → W → ℤ × Entry × W
  unfolding set_pending
  flush_entry push e from to w =
      if e.is_pending
      then (let source = if is_empty e.renamed_from_local then from else e.renamed_from_local in
          let (r, w') = (if e.for_write then push source to w else (pos 0, w)) in
          (r, set_pending (record e { renamed_from_local = [] }) false false, w'))
      else (pos 0, e, w)

  -- `FileStatus::flush`
  unfoldable pub flush :
      (Text → Text → W → ℤ × W) → FileStatus → Text → Text → W → ℤ × FileStatus × W
  flush push m path from w = elim (find m path) [
    | none ↦ (pos 0, m, w)
    | some e ↦ let (r, e', w') = flush_entry push e from path w in (r, put m path e', w')
  ]

  -- `FileStatus::Entry::release`, given `::close`, with `none` for a close that returns 0 and the
  -- errno of one that returns -1.
  unfoldable pub release_entry : (ℤ → W → Option ℕ × W) → Entry → ℤ → W → ℤ × Entry × W
  unfolding set_pending
  release_entry close e fh w =
      let e' = set_pending e false false in
      if int_eq fh (negsuc 0)
      then (neg ebadf, e', w)
      else (let (failed, w') = close fh w in (close_result failed, e', w'))

  -- `FileStatus::release`
  unfoldable pub release : (ℤ → W → Option ℕ × W) → FileStatus → Text → ℤ → W → ℤ × FileStatus × W
  release close m path fh w = elim (find m path) [
    | none ↦ (pos 0, m, w)
    | some e ↦ let (r, e', w') = release_entry close e fh w in (r, put m path e', w')
  ]
