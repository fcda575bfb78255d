-- ===== src/FileCache/Pointers/Owning.antt =====
-- A heap and the pointers that refer to its lists, counted.
use adbncfs.Prelude.{
  ℕ, suc, ◌+◌, ◌-◌, ◌≤◌, ◌≡◌, refl, ◌∙◌, false, Option, none, some, List, [], ◌∷◌, arith, ◌==◌,
  ==_iff, ==_refl, if◌then◌else◌, Text,
}
use adbncfs.Prelude.Dict.{Dict}
use adbncfs.FileCache.Pointers.{
  Heap, is_none, new_list, delete_list, copy_cell, copy_list, EntryObject, destroy_entry,
  copy_entry, replace_stat_output, replace_read_link_output,
}

abbrev pub live : Option (List Text) → ℕ
live none = 0
live (some l) = 1

-- How often a pointer is `p`.
abbrev pub at : Option ℕ → ℕ → ℕ
at none p = 0
at (some q) p = if p == q then 1 else 0

abbrev pub pointers : EntryObject → ℕ → ℕ
pointers e p = at e.p_stat_output p + at e.p_read_link_output p

abbrev pub owned : Dict EntryObject → ℕ → ℕ
owned [] p = 0
owned ((k, e) ∷ d) p = pointers e p + owned d p

-- Each list has one owner, each owner has a list, and nothing without a meaning has been done.
pub record Owns (h : Heap) (owners : ℕ → ℕ) : Type 0 where
  pub sound : (p : ℕ) → live (h.cell p) ≡ owners p
  pub fresh : (p : ℕ) → h.next ≤ p → h.cell p ≡ none
  pub whole : h.broken ≡ false

pub Owns-same : (h : Heap) (b b' : ℕ → ℕ) → Owns h b → ((p : ℕ) → b p ≡ b' p) → Owns h b'
Owns-same h b b' o e = record { sound = λ p. o.sound p ∙ e p; fresh = o.fresh; whole = o.whole }

new_sound :
    (c : Option (List Text)) (l : List Text) (n p b : ℕ)
    → live c ≡ b
    → (n ≤ p → c ≡ none)
    → live (if p == n then some l else c) ≡ at (some n) p + b
new_sound none l n p b e f = ground arith
new_sound (some x) l n p b e f = ground (arith, ==_iff p n)

new_fresh :
    (c : Option (List Text)) (l : List Text) (n p : ℕ)
    → (n ≤ p → c ≡ none)
    → suc n ≤ p
    → (if p == n then some l else c) ≡ none
new_fresh c l n p f e = ground (arith, ==_iff p n)

pub new_list-Owns :
    (h : Heap) (l : List Text) (b : ℕ → ℕ)
    → Owns h b
    → Owns (new_list h l) (λ p. at (some h.next) p + b p)
new_list-Owns h l b o = record {
  sound = λ p. new_sound (h.cell p) l h.next p (b p) (o.sound p) (o.fresh p);
  fresh = λ p e. new_fresh (h.cell p) l h.next p (o.fresh p) e;
  whole = o.whole;
}

delete_sound :
    (c : Option (List Text)) (p q b : ℕ)
    → live c ≡ at (some q) p + b
    → live (if p == q then none else c) ≡ b
delete_sound none p q b e = ground arith
delete_sound (some x) p q b e = ground arith

owner_some : (c : Option (List Text)) (q b : ℕ) → live c ≡ at (some q) q + b → is_none c ≡ false
owner_some none q b e = ground (arith, ==_refl q)
owner_some (some x) q b e = refl

pub delete_list-Owns :
    (h : Heap) (q : Option ℕ) (b : ℕ → ℕ) → Owns h (λ p. at q p + b p) → Owns (delete_list h q) b
delete_list-Owns h none b o = Owns-same h _ _ o (λ p. omega arith)
delete_list-Owns h (some q) b o = record {
  sound = λ p. delete_sound (h.cell p) p q (b p) (o.sound p);
  fresh = λ p e. let f = o.fresh p e in ground (arith, f);
  whole = let w = owner_some (h.cell q) q (b q) (o.sound q) in ground (arith, o.whole, w);
}

copy_cell-Owns :
    (h : Heap) (c : Option (List Text)) (b : ℕ → ℕ)
    → Owns h b
    → is_none c ≡ false
    → Owns (copy_cell h c).1 (λ p. at (copy_cell h c).0 p + b p)
copy_cell-Owns h none b o e = absurd (cc)
copy_cell-Owns h (some l) b o e = new_list-Owns h l b o

-- A copy of a list that has an owner has an owner of its own.
pub copy_list-Owns :
    (h : Heap) (q : Option ℕ) (b : ℕ → ℕ)
    → Owns h b
    → ((p : ℕ) → at q p ≤ b p)
    → Owns (copy_list h q).1 (λ p. at (copy_list h q).0 p + b p)
copy_list-Owns h none b o e = Owns-same h _ _ o (λ p. omega arith)
copy_list-Owns h (some q) b o e = copy_cell-Owns h (h.cell q) b o (
    owner_some (h.cell q) q (b q - at (some q) q)
      (let s = o.sound q in let l = e q in omega (arith, s, l)))

-- The operations of an entry.
pub destroy_entry-Owns :
    (h : Heap) (e : EntryObject) (b : ℕ → ℕ)
    → Owns h (λ p. pointers e p + b p)
    → Owns (destroy_entry h e) b
destroy_entry-Owns h e b o =
    delete_list-Owns (delete_list h e.p_stat_output) e.p_read_link_output b (
      delete_list-Owns h e.p_stat_output (λ p. at e.p_read_link_output p + b p)
        (Owns-same h _ _ o (λ p. omega arith)))

pub copy_entry-Owns :
    (h : Heap) (e : EntryObject) (b : ℕ → ℕ)
    → Owns h (λ p. pointers e p + b p)
    → Owns (copy_entry h e).1 (λ p. pointers (copy_entry h e).0 p + (pointers e p + b p))
copy_entry-Owns h e b o =
    let s = copy_list-Owns h e.p_stat_output _ o (λ p. omega arith) in
    let l =
      copy_list-Owns (copy_list h e.p_stat_output).1 e.p_read_link_output _ s (λ p. omega arith) in
    Owns-same _ _ _ l (λ p. omega arith)

pub replace_stat_output-Owns :
    (h : Heap) (e : EntryObject) (l : List Text) (b : ℕ → ℕ)
    → Owns h (λ p. pointers e p + b p)
    → Owns (replace_stat_output h e l).1 (λ p. pointers (replace_stat_output h e l).0 p + b p)
replace_stat_output-Owns h e l b o =
    let d =
      delete_list-Owns h e.p_stat_output (λ p. at e.p_read_link_output p + b p)
        (Owns-same h _ _ o (λ p. omega arith)) in
    Owns-same _ _ _ (new_list-Owns _ l _ d) (λ p. omega arith)

pub replace_read_link_output-Owns :
    (h : Heap) (e : EntryObject) (l : List Text) (b : ℕ → ℕ)
    → Owns h (λ p. pointers e p + b p)
    → Owns
        (replace_read_link_output h e l).1
        (λ p. pointers (replace_read_link_output h e l).0 p + b p)
replace_read_link_output-Owns h e l b o =
    let d =
      delete_list-Owns h e.p_read_link_output (λ p. at e.p_stat_output p + b p)
        (Owns-same h _ _ o (λ p. omega arith)) in
    Owns-same _ _ _ (new_list-Owns _ l _ d) (λ p. omega arith)
