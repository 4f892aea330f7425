-- ===== src/Inspect/Pages.antt =====
-- verify_heap of rtcoalesce.c, on the pages and the objects of a heap.
use rtgc.Common.{
  ℕ, zero, suc, ◌+◌, ◌-◌, ◌/◌, ◌%◌, ◌≤◌, ◌<◌, ◌≡◌, ◌⊎◌, inl, inr, refl, sym, Bool, true, false,
  ◌||◌, List, [], ◌∷◌, head_or, ◌∈◌, mem-append, mem-append_left, mem-append_right, Run, ok, ◌>>◌,
  guard, assertion, leb, lt→ltb, ltb-false, arith,
}
use mathlib.Core.Path.{subst}
use rtgc.InfoBits.{Mem, Ptr, prev_link, next_link, get_link_pointer}
use rtgc.InfoBits.Words.{get_link_pointer_lem}
use rtgc.Chain.{IsChain, cons}
use rtgc.Group.View.{View, main, IsLinked}
use rtgc.Group.Frame.{objects_of}
use rtgc.Heap.{Heap, page_index_to_ptr}
use rtgc.Heap.Groups.{InRange, AreGroups, uniform}
use rtgc.Room.Conserved.{IsTiled, end, empty, small, large}
use rtgc.Inspect.{verify_pages, verify_heap}

-- What verify_heap expects of a link word: no pointer, or none before the partition.
abbrev IsLink : Heap → ℕ → Type 0
IsLink h link = (leb link 16 || leb h.first_partition_ptr link) ≡ true

-- A pointer of a chain is NULL or leads to one of its members.
abbrev IsIn : List Ptr → Ptr → Type 0
IsIn xs p = (p ≡ 0) ⊎ (p ∈ xs)

IsIn-cons : (y p : Ptr) (xs : List Ptr) → IsIn xs p → IsIn (y ∷ xs) p
IsIn-cons y p xs (inl e) = inl e
IsIn-cons y p xs (inr m) = inr (inr m)

head_or-IsIn : (xs : List Ptr) → IsIn xs (head_or xs 0)
head_or-IsIn [] = inl refl
head_or-IsIn (x ∷ xs) = inr (inl refl)

-- The links of the members of a chain.
links_of :
    (m : Mem) (before : Ptr) (xs : List Ptr)
    → IsChain m before xs 0
    → (x : Ptr) → x ∈ xs
    → ((prev_link m x ≡ before) ⊎ (prev_link m x ∈ xs)) × IsIn xs (next_link m x)
links_of m before [] c x k = absurd k
links_of m before (y ∷ xs) (cons p n c) x (inl e) =
    subst
      (λ z. ((prev_link m z ≡ before) ⊎ (prev_link m z ∈ (y ∷ xs))) × IsIn (y ∷ xs) (next_link m z))
      (sym e) (inl p, IsIn-cons y _ xs (subst (λ z. IsIn xs z) (sym n) (head_or-IsIn xs)))
links_of m before (y ∷ xs) (cons p n c) x (inr k) =
    let l = links_of m y xs c x k in
    (elim l.0 [ inl e ↦ inr (inl e) | inr q ↦ inr (inr q) ], IsIn-cons y _ xs l.1)

-- All links of the objects of a group lead to objects of the group.
object_links :
    (mk un : ℕ) (m : Mem) (v : View)
    → IsLinked mk un m v
    → (x : Ptr) → x ∈ objects_of v
    → IsIn (objects_of v) (prev_link m x) × IsIn (objects_of v) (next_link m x)
object_links mk un m v l x k = elim (mem-append x v.whites (main v) k) [
  | inl w ↦ let q = links_of m 0 v.whites l.white_chain x w in (left _ q.0, left _ q.1)
  | inr w ↦ let q = links_of m 0 (main v) l.main_chain x w in (right _ q.0, right _ q.1)
]
  where
    left : (p : Ptr) → IsIn v.whites p → IsIn (objects_of v) p
    left p (inl e) = inl e
    left p (inr q) = inr (mem-append_left p v.whites (main v) q)

    right : (p : Ptr) → IsIn (main v) p → IsIn (objects_of v) p
    right p (inl e) = inl e
    right p (inr q) = inr (mem-append_right p v.whites (main v) q)

-- The first page of every large object has the header of an object of its group.
abbrev pub HaveHeaders : (h : Heap) (views : ℕ → View) {page : ℕ} → IsTiled h page → Type 0
HaveHeaders h views (end e) = Unit
HaveHeaders h views (empty l e t) = HaveHeaders h views t
HaveHeaders h views (small i l e r s d t) = HaveHeaders h views t
HaveHeaders h views (large {page} i e r s d l t) =
    (page_index_to_ptr h page ∈ objects_of (views i)) × HaveHeaders h views t

links_pass :
    (h : Heap) (a b : ℕ) (rest : Run (Unit {0}))
    → IsLink h a
    → IsLink h b
    → rest ≡ ok tt
    → (guard (leb a 16 || leb h.first_partition_ptr a) assertion
        >> guard (leb b 16 || leb h.first_partition_ptr b) assertion
        >> rest)
      ≡ ok tt
links_pass h a b rest p q e = rw (p, q) e

module _ (h : Heap) (views : ℕ → View)
    (groups : AreGroups h (uniform h.marked_color h.unmarked_color views))
    (inside : (i x : ℕ) → InRange i → x ∈ objects_of (views i) → h.first_partition_ptr ≤ x) where
  word-IsLink :
      (i w : ℕ) → InRange i → IsIn (objects_of (views i)) (get_link_pointer w) → IsLink h w
  word-IsLink i w r (inl e) =
      or_left _ (leb h.first_partition_ptr w) (low (get_link_pointer_lem w) e)
    where
      low : {p : ℕ} → p ≡ w - w % 16 → p ≡ 0 → leb w 16 ≡ true
      low e f = ground (arith, small e f)
        where
          small : {p : ℕ} → p ≡ w - w % 16 → p ≡ 0 → w ≤ 16
          small e f = omega arith

      or_left : (a b : Bool) → a ≡ true → (a || b) ≡ true
      or_left a b e = rw e refl
  word-IsLink i w r (inr m) = or_right (leb w 16) (high (get_link_pointer_lem w) (inside i _ r m))
    where
      high :
          {p : ℕ} → p ≡ w - w % 16 → h.first_partition_ptr ≤ p → leb h.first_partition_ptr w ≡ true
      high e f = ground (arith, above e f)
        where
          above : {p : ℕ} → p ≡ w - w % 16 → h.first_partition_ptr ≤ p → h.first_partition_ptr ≤ w
          above e f = omega arith

      or_right : (a : Bool) {b : Bool} → b ≡ true → (a || b) ≡ true
      or_right true e = refl
      or_right false e = e

  header_links :
      (i x : ℕ)
      → InRange i
      → x ∈ objects_of (views i)
      → IsLink h (h.mem x) × IsLink h (h.mem (x + 8))
  unfolding prev_link next_link
  header_links i x r m =
      let l =
        object_links h.marked_color h.unmarked_color h.mem (views i) (groups.group i r).linked x
          m in
      (word-IsLink i (h.mem x) r l.0, word-IsLink i (h.mem (x + 8)) r l.1)

  verify_pages-eq-ok :
      (fuel page : ℕ) (t : IsTiled h page)
      → HaveHeaders h views t
      → h.total_partition_pages - page < fuel
      → verify_pages fuel page h ≡ ok tt
  unfolding verify_pages
  verify_pages-eq-ok zero page t k l = absurd (omega arith)
  verify_pages-eq-ok (suc fuel) page (end e) k l =
      rw (ltb-false page h.total_partition_pages (at_most e)) refl
    where
      at_most : {a b : ℕ} → a ≡ b → b ≤ a
      at_most e = omega arith
  verify_pages-eq-ok (suc fuel) page (empty u e t) k l =
      rw (lt→ltb page h.total_partition_pages u, e)
        (verify_pages-eq-ok fuel (page + 1) t k (omega arith))
  verify_pages-eq-ok (suc fuel) page (small i u e r s d t) k l =
      rw (lt→ltb page h.total_partition_pages u, e, s)
        (verify_pages-eq-ok fuel (page + 1) t k (omega arith))
  verify_pages-eq-ok (suc fuel) page (large i e r s d u t) (m, k) l =
      let n = at_least ((h.groups i).size) s in
      let links = header_links i (page_index_to_ptr h page) r m in
      rw (lt→ltb page h.total_partition_pages (room n u), e, s)
        (links_pass h (h.mem (page_index_to_ptr h page)) (h.mem (page_index_to_ptr h page + 8))
          (verify_pages fuel (page + (h.groups i).size / 4096) h) links.0 links.1
          (verify_pages-eq-ok fuel (page + (h.groups i).size / 4096) t k (later n u)))
    where
      at_least : (size : ℕ) → leb size 4096 ≡ false → 1 ≤ size / 4096
      at_least size s = large_enough (not_leb size s)
        where
          not_leb : (size : ℕ) → leb size 4096 ≡ false → 4096 < size
          not_leb size s = ground arith

          large_enough : 4096 < size → 1 ≤ size / 4096
          large_enough a = omega arith

      room : {n : ℕ} → 1 ≤ n → page + n ≤ h.total_partition_pages → page < h.total_partition_pages
      room a b = omega arith

      later :
          {n : ℕ}
          → 1 ≤ n
          → page + n ≤ h.total_partition_pages
          → h.total_partition_pages - (page + n) < fuel
      later a b = omega (arith, l)

  -- In a heap whose groups represent their lists, with no object before the partition, whose pages
  -- are empty, full of small objects or those of large objects, and where the first page of every
  -- large object has the header of an object in the lists of its group, verify_heap terminates with
  -- more fuel than there are pages and all its assertions hold.
  pub verify_heap-eq-ok :
      (fuel : ℕ) (t : IsTiled h 0)
      → HaveHeaders h views t
      → h.total_partition_pages < fuel
      → verify_heap fuel h ≡ ok tt
  unfolding verify_heap
  verify_heap-eq-ok fuel t k l = verify_pages-eq-ok fuel 0 t k (omega arith)
