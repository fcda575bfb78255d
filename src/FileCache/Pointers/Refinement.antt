-- ===== src/FileCache/Pointers/Refinement.antt =====
-- The operations of `FileCache` on the heap of src/fileinfoCache.cpp do what those on the values do.
use adbncfs.Prelude.{
  ◌+◌, ℕ, suc, ◌≤◌, ◌<◌, ◌≡◌, refl, ap, ◌∙◌, inl, inr, Option, none, some, List, [], ◌∷◌, arith,
  ltb, ==_refl, Bool-cases, Option-cases, Text,
}
use adbncfs.Prelude.Dict.{Dict, find, put, erase}
use adbncfs.FileCache.{
  Entry, FileCache, set_stat_output, set_read_link_output, put_stat, put_read_link, invalidate,
}
use adbncfs.FileCache.History.{Event, step, run}
use adbncfs.FileCache.History
use adbncfs.FileCache.Pointers.{
  Heap, new_list, delete_list, copy_list, EntryObject, null_entry, destroy_entry,
  replace_stat_output, replace_read_link_output, Store, insert_entry, put_stat_at, put_read_link_at,
  invalidate_at, run_at,
}
use adbncfs.FileCache.Pointers.Owning.{live, at, pointers, owned, Owns}
use adbncfs.FileCache.Pointers.Owned.{IsOwned, run_at-IsOwned, owned-erase_old}
use adbncfs.FileCache.Pointers.Values.{
  value_at, value, values, value_at-IsKept, values-IsKept, find-values_absent, find-values_found,
  values-put, values-erase, pointers-found, values-put_kept,
}

-- A list that has an owner stands below the pointer that `new` gives.
pub below_next : (h : Heap) (b : ℕ → ℕ) (p : ℕ) → Owns h b → 1 ≤ b p → p < h.next
below_next h b p o l = elim (Bool-cases (ltb p h.next)) [
  | inl t ↦ ground (arith, t)
  | inr f ↦
      let s = o.sound p in
      let e = ap live (o.fresh p (ground (arith, f))) in absurd (omega (arith, s, e, l))
]

-- A new list, and one in the place of another.
replaced_kept :
    (h : Heap) (q : Option ℕ) (l : List Text) (p : ℕ)
    → at q p ≡ 0
    → p < h.next
    → (new_list (delete_list h q) l).cell p ≡ h.cell p
replaced_kept h none l p e b = ground (arith, e, b)
replaced_kept h (some q) l p e b = ground (arith, e, b)

replaced_new :
    (h : Heap) (q : Option ℕ) (l : List Text)
    → value_at (new_list (delete_list h q) l) (some (delete_list h q).next) ≡ some l
replaced_new h q l = ground (arith, ==_refl (delete_list h q).next)

copied :
    (h : Heap) (l : List Text)
    → copy_list (new_list h l) (some h.next) ≡ (some (suc h.next), new_list (new_list h l) l)
copied h l = rw (==_refl h.next) refl

-- The heap once an entry with one list has been copied and destroyed.
moved : Heap → List Text → Heap
moved h l = delete_list (new_list (new_list h l) l) (some h.next)

moved_kept : (h : Heap) (l : List Text) (p : ℕ) → p < h.next → (moved h l).cell p ≡ h.cell p
unfolding moved
moved_kept h l p e = ground (arith, e)

moved_new : (h : Heap) (l : List Text) → (moved h l).cell (suc h.next) ≡ some l
unfolding moved
moved_new h l = ground (arith, ==_refl (suc h.next))

values-heap_kept :
    (h : Heap) (d : Dict EntryObject) (l : List Text)
    → Owns h (owned d)
    → values (moved h l) d ≡ values h d
values-heap_kept h d l o =
    values-IsKept h (moved h l) d (λ p e. moved_kept h l p (below_next h (owned d) p o e))

insert_stat :
    (now : ℕ) (d : Dict EntryObject) (k : Text) (h : Heap) (l : List Text)
    → insert_entry now d k (replace_stat_output h (null_entry now) l) ≡ record {
      heap = moved h l;
      entries =
          put d k
            (record { time = now; p_stat_output = some (suc h.next); p_read_link_output = none });
    }
unfolding moved
insert_stat now d k h l =
    ap
      (λ (r : Option ℕ × Heap). record {
        heap = delete_list r.1 (some h.next);
        entries = put d k (record { time = now; p_stat_output = r.0; p_read_link_output = none });
      })
      (copied h l)

insert_read_link :
    (now : ℕ) (d : Dict EntryObject) (k : Text) (h : Heap) (l : List Text)
    → insert_entry now d k (replace_read_link_output h (null_entry now) l) ≡ record {
      heap = moved h l;
      entries =
          put d k
            (record { time = now; p_stat_output = none; p_read_link_output = some (suc h.next) });
    }
unfolding moved
insert_read_link now d k h l =
    ap
      (λ (r : Option ℕ × Heap). record {
        heap = delete_list r.1 (some h.next);
        entries = put d k (record { time = now; p_stat_output = none; p_read_link_output = r.0 });
      })
      (copied h l)

inserted :
    (h : Heap) (d : Dict EntryObject) (k : Text) (l : List Text) (e : EntryObject) (v : Entry)
    → Owns h (owned d)
    → value (moved h l) e ≡ v
    → values (moved h l) (put d k e) ≡ put (values h d) k v
inserted h d k l e v o q =
    rw (values-put (moved h l) d k e) (rw (values-heap_kept h d l o) (rw q refl))

live_le : (c : Option (List Text)) → live c ≤ 1
live_le none = omega arith
live_le (some l) = omega arith

one_owner : (h : Heap) (b : ℕ → ℕ) (p : ℕ) → Owns h b → b p ≤ 1
one_owner h b p o = let l = live_le (h.cell p) in let s = o.sound p in omega (arith, l, s)

-- A setter on an entry in the map: the other entries keep their lists, and so does its other pointer.
replaced_rest :
    (h : Heap) (d : Dict EntryObject) (k : Text) (x e : EntryObject) (q o : Option ℕ)
    (l : List Text)
    → Owns h (owned d)
    → find d k ≡ some x
    → ((p : ℕ) → pointers x p ≡ at q p + at o p)
    → let h1 = new_list (delete_list h q) l in
      (values h1 (put d k e) ≡ put (values h d) k (value h1 e)) × (value_at h1 o ≡ value_at h o)
replaced_rest h d k x e q o l owns f split =
    let h1 = new_list (delete_list h q) l in
    (
      values-put_kept h h1 d k e x f (λ p g.
          let one = one_owner h (owned d) p owns in
          let parts = split p in
          replaced_kept h q l p (omega (arith, one, g, parts))
            (below_next h (owned d) p owns (omega (arith, g)))),
      value_at-IsKept h h1 o (at o) (λ p. omega arith)
          (λ p g.
            let has = pointers-found d k x p f in
            let one = one_owner h (owned d) p owns in
            let parts = split p in
            replaced_kept h q l p (omega (arith, has, one, g, parts))
              (below_next h (owned d) p owns (omega (arith, has, g, parts)))),
    )

updated_stat :
    (now : ℕ) (h : Heap) (d : Dict EntryObject) (k : Text) (x : EntryObject) (l : List Text)
    → Owns h (owned d)
    → find d k ≡ some x
    → let (e, h1) = replace_stat_output h x l in
      values h1 (put d k (record e { time = now }))
      ≡ put (values h d) k (record {
        timestamp = now;
        stat_output = some l;
        read_link_output = value_at h x.p_read_link_output;
      })
updated_stat now h d k x l owns f =
    let (e, h1) = replace_stat_output h x l in
    let (others, old) =
      replaced_rest h d k x (record e { time = now }) x.p_stat_output x.p_read_link_output l owns f
        (λ p. refl) in
    rw others (rw (replaced_new h x.p_stat_output l) (rw old refl))

updated_read_link :
    (now : ℕ) (h : Heap) (d : Dict EntryObject) (k : Text) (x : EntryObject) (l : List Text)
    → Owns h (owned d)
    → find d k ≡ some x
    → let (e, h1) = replace_read_link_output h x l in
      values h1 (put d k (record e { time = now }))
      ≡ put (values h d) k (record {
        timestamp = now;
        stat_output = value_at h x.p_stat_output;
        read_link_output = some l;
      })
updated_read_link now h d k x l owns f =
    let (e, h1) = replace_read_link_output h x l in
    let (others, old) =
      replaced_rest h d k x (record e { time = now }) x.p_read_link_output x.p_stat_output l owns f
        (λ p. omega arith) in
    rw others (rw (replaced_new h x.p_read_link_output l) (rw old refl))

-- The value of a cache.
abbrev pub cache_of : Store → FileCache
cache_of s = values s.heap s.entries

pub put_stat_at-values :
    (now : ℕ) (s : Store) (k : Text) (l : List Text)
    → IsOwned s
    → cache_of (put_stat_at now s k l) ≡ put_stat now (cache_of s) k l
unfolding put_stat_at put_stat set_stat_output
put_stat_at-values now s k l i = elim (Option-cases (find s.entries k)) [
  | inl n ↦
      rw (n, put_stat_at)
        (rw (find-values_absent s.heap s.entries k n, put_stat)
          (ap cache_of (insert_stat now s.entries k s.heap l)
            ∙ inserted s.heap s.entries k l _ _ i.owns (rw (moved_new s.heap l) refl)))
  | inr (x, f) ↦
      rw (f, put_stat_at)
        (rw (find-values_found s.heap s.entries k x f, put_stat)
          (updated_stat now s.heap s.entries k x l i.owns f))
]

put_read_link_at-values :
    (now : ℕ) (s : Store) (k : Text) (l : List Text)
    → IsOwned s
    → cache_of (put_read_link_at now s k l) ≡ put_read_link now (cache_of s) k l
unfolding put_read_link_at put_read_link set_read_link_output
put_read_link_at-values now s k l i = elim (Option-cases (find s.entries k)) [
  | inl n ↦
      rw (n, put_read_link_at)
        (rw (find-values_absent s.heap s.entries k n, put_read_link)
          (ap cache_of (insert_read_link now s.entries k s.heap l)
            ∙ inserted s.heap s.entries k l _ _ i.owns (rw (moved_new s.heap l) refl)))
  | inr (x, f) ↦
      rw (f, put_read_link_at)
        (rw (find-values_found s.heap s.entries k x f, put_read_link)
          (updated_read_link now s.heap s.entries k x l i.owns f))
]

deleted_kept : (h : Heap) (q : Option ℕ) (p : ℕ) → at q p ≡ 0 → (delete_list h q).cell p ≡ h.cell p
deleted_kept h none p e = refl
deleted_kept h (some q) p e = ground (arith, e)

destroyed_kept :
    (h : Heap) (e : EntryObject) (p : ℕ) → pointers e p ≡ 0 → (destroy_entry h e).cell p ≡ h.cell p
destroyed_kept h e p z =
    deleted_kept (delete_list h e.p_stat_output) e.p_read_link_output p (omega (arith, z))
    ∙ deleted_kept h e.p_stat_output p (omega (arith, z))

invalidate_at-values :
    (s : Store) (k : Text) → IsOwned s → cache_of (invalidate_at s k) ≡ invalidate (cache_of s) k
unfolding invalidate_at invalidate
invalidate_at-values s k i = elim (Option-cases (find s.entries k)) [
  | inl n ↦ rw (n, invalidate_at) (rw (find-values_absent s.heap s.entries k n, invalidate) refl)
  | inr (x, f) ↦
      rw (f, invalidate_at)
        (rw (find-values_found s.heap s.entries k x f, invalidate)
          (values-IsKept s.heap (destroy_entry s.heap x) (erase s.entries k) (λ p g.
              let split = owned-erase_old s.entries k x p i.unique f in
              let one = one_owner s.heap (owned s.entries) p i.owns in
              destroyed_kept s.heap x p (omega (arith, g, split, one)))
            ∙ values-erase s.heap s.entries k))
]

-- After any history of putStat, putReadLink and invalidate, the lists behind the pointers are those of
-- the cache whose entries hold their lists themselves.
pub run_at-run : (h : List Event) → cache_of (run_at h) ≡ run h
unfolding run_at run
run_at-run [] = refl
run_at-run (History.stat_put now k l ∷ h) =
    put_stat_at-values now (run_at h) k l (run_at-IsOwned h)
    ∙ ap (λ c. put_stat now c k l) (run_at-run h)
run_at-run (History.link_put now k l ∷ h) =
    put_read_link_at-values now (run_at h) k l (run_at-IsOwned h)
    ∙ ap (λ c. put_read_link now c k l) (run_at-run h)
run_at-run (History.invalidated k ∷ h) =
    invalidate_at-values (run_at h) k (run_at-IsOwned h) ∙ ap (λ c. invalidate c k) (run_at-run h)
