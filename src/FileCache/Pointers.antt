-- ===== src/FileCache/Pointers.antt =====
-- The pointers of `FileCache::Entry` in src/fileInfoCache.h and src/fileinfoCache.cpp: each entry owns
-- two lists on the heap, which the constructors, the assignment, the setters and the destructor make
-- and delete.
pub mod Owning
pub mod Owned
pub mod Values
pub mod Refinement
pub mod Lifetime
use adbncfs.Prelude.{
  ℕ, zero, suc, ◌+◌, ◌-◌, ◌*◌, ◌/◌, ◌%◌, ◌^◌, ◌≤◌, ◌<◌, ◌≡◌, refl, sym, ap, ◌∙◌, fun_ext, ◌≢◌, ◌↔◌,
  ◌⊎◌, inl, inr, Bool, true, false, not, ◌&&◌, ◌||◌, Option, none, some, List, [], ◌∷◌, ◌++◌, map,
  append-nil, append_assoc, arith, ltb, leb, ◌==◌, ==_iff, ==_refl, ltb→lt, lt→ltb, leb→le, tests,
  if◌then◌else◌, Bool-cases, Option-cases, length, get_elem?, take, drop, is_empty, length-append,
  length-drop, All, All-append, Text, codes, text_eq, text_eq_iff, text_eq_refl, starts_with,
  contains, is_delim,
}
use adbncfs.Prelude.Dict.{Dict, find, put, erase}
use adbncfs.FileCache.History.{Event}
use adbncfs.FileCache.History

-- The lists that `new` has made: `cell` has `none` behind a pointer that is not valid, and `next` is the
-- pointer that `new` gives. `broken` is set where C++ gives no meaning to the program, by a `delete`
-- or a read of a list that is not there.
pub record Heap : Type 0 where
  pub next : ℕ
  pub cell : ℕ → Option (List Text)
  pub broken : Bool

abbrev pub is_none {ℓ} : {A : Type ℓ} → Option A → Bool
is_none none = true
is_none (some a) = false

-- `new deque<string>(list)`
abbrev pub new_list : Heap → List Text → Heap
new_list h l = record h { next = suc h.next; cell = λ p. if p == h.next then some l else h.cell p }

-- `if (p) delete p;`
abbrev pub delete_list : Heap → Option ℕ → Heap
delete_list h none = h
delete_list h (some p) = record h {
  cell = λ q. if q == p then none else h.cell q;
  broken = h.broken || is_none (h.cell p);
}

abbrev pub copy_cell : Heap → Option (List Text) → Option ℕ × Heap
copy_cell h none = (none, record h { broken = true })
copy_cell h (some l) = (some h.next, new_list h l)

-- `if (p) q = new deque<string>(*p);`, where `q` is NULL before
abbrev pub copy_list : Heap → Option ℕ → Option ℕ × Heap
copy_list h none = (none, h)
copy_list h (some p) = copy_cell h (h.cell p)

-- `FileCache::Entry`
pub record EntryObject : Type 0 where
  pub time : ℕ
  pub p_stat_output : Option ℕ
  pub p_read_link_output : Option ℕ

-- The default constructor.
abbrev pub null_entry : ℕ → EntryObject
null_entry now = record { time = now; p_stat_output = none; p_read_link_output = none }

-- The destructor.
abbrev pub destroy_entry : Heap → EntryObject → Heap
destroy_entry h e = delete_list (delete_list h e.p_stat_output) e.p_read_link_output

-- The copy constructor.
abbrev pub copy_entry : Heap → EntryObject → EntryObject × Heap
copy_entry h orig =
    let (s, h1) = copy_list h orig.p_stat_output in
    let (l, h2) = copy_list h1 orig.p_read_link_output in
    (record { time = orig.time; p_stat_output = s; p_read_link_output = l }, h2)

-- `operator=`, where `orig` is another object
abbrev pub assign_entry : Heap → EntryObject → EntryObject → EntryObject × Heap
assign_entry h this orig = copy_entry (destroy_entry h this) orig

-- The setters `statOutput` and `readLinkOutput`.
abbrev pub replace_stat_output : Heap → EntryObject → List Text → EntryObject × Heap
replace_stat_output h e output =
    let h1 = delete_list h e.p_stat_output in
    (record e { p_stat_output = some h1.next }, new_list h1 output)

abbrev pub replace_read_link_output : Heap → EntryObject → List Text → EntryObject × Heap
replace_read_link_output h e output =
    let h1 = delete_list h e.p_read_link_output in
    (record e { p_read_link_output = some h1.next }, new_list h1 output)

-- `FileCache` with its heap
pub record Store : Type 0 where
  pub heap : Heap
  pub entries : Dict EntryObject

-- `m_Entries[pcPath] = entry;` for a path that has no entry, and the end of the scope of `entry`:
-- `operator[]` makes a new entry with the default constructor.
abbrev pub insert_entry : ℕ → Dict EntryObject → Text → EntryObject × Heap → Store
insert_entry now d path (entry, h) =
    let (placed, h1) = assign_entry h (null_entry now) entry in
    record { heap = destroy_entry h1 entry; entries = put d path placed }

-- The setter has run on the entry in the map, and `timeStamp` follows.
abbrev pub update_entry : ℕ → Dict EntryObject → Text → EntryObject × Heap → Store
update_entry now d path (entry, h) = record {
  heap = h;
  entries = put d path (record entry { time = now });
}

unfoldable pub put_stat_at : ℕ → Store → Text → List Text → Store
put_stat_at now s path output = elim (find s.entries path) [
  | none ↦ insert_entry now s.entries path (replace_stat_output s.heap (null_entry now) output)
  | some e ↦ update_entry now s.entries path (replace_stat_output s.heap e output)
]

unfoldable pub put_read_link_at : ℕ → Store → Text → List Text → Store
put_read_link_at now s path output = elim (find s.entries path) [
  | none ↦ insert_entry now s.entries path (replace_read_link_output s.heap (null_entry now) output)
  | some e ↦ update_entry now s.entries path (replace_read_link_output s.heap e output)
]

-- `m_Entries.erase(it)` destroys the entry.
unfoldable pub invalidate_at : Store → Text → Store
invalidate_at s path = elim (find s.entries path) [
  | none ↦ s
  | some e ↦ record { heap = destroy_entry s.heap e; entries = erase s.entries path }
]

-- `~FileCache` destroys every entry.
abbrev pub destroy_all : Heap → Dict EntryObject → Heap
destroy_all h [] = h
destroy_all h ((k, e) ∷ d) = destroy_all (destroy_entry h e) d

abbrev pub empty : Store
empty = record { heap = record { next = 0; cell = λ p. none; broken = false }; entries = [] }

abbrev pub step_at : Store → Event → Store
step_at s (History.stat_put now path output) = put_stat_at now s path output
step_at s (History.link_put now path output) = put_read_link_at now s path output
step_at s (History.invalidated path) = invalidate_at s path

-- A history of calls, the last one first, from a cache with no entry.
unfoldable pub run_at : List Event → Store
run_at [] = empty
run_at (e ∷ h) = step_at (run_at h) e
