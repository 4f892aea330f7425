-- ===== src/Concurrent/Mutators.antt =====
-- RTwrite_barrier of rtgc.c by a mutator, while the collector marks.
use rtgc.Common.{
  ℕ, ◌+◌, ◌-◌, ◌*◌, ◌/◌, ◌%◌, ◌≤◌, ◌<◌, ◌≡◌, ◌⊎◌, inl, inr, refl, sym, ap, ◌∙◌, Bool, true, false,
  ◌&&◌, ◌∈◌, Option, none, some, ok, stopped, debugger, ◌>>=◌, ◌==◌, if◌then◌else◌, Bool-cases,
  eq_of_==, mem-append_left, arith,
}
use mathlib.Core.Path.{subst}
use rtgc.Common.Bits.{test_bit, test_bit-bit_or}
use rtgc.InfoBits.{Ptr}
use rtgc.Group.View.{View}
use rtgc.Group.Frame.{objects_of}
use rtgc.Heap.{
  Heap, PageGroup, empty_page, free_page, system_page, external_page, group_page, in_group, whitep,
  in_partition, ptr_to_page_index, page_group, interior_to_gcptr, interior_to_gcptr_3,
  valid_interior_ptr,
}
use rtgc.Heap.Groups.{InRange}
use rtgc.Heap.Target.{choose, target}
use rtgc.Trace.Words.{is_white}
use rtgc.Trace.Total.{total}
use rtgc.WriteBarrier.{locked_long_or, mark_write_vector, mark_overwritten}
use rtgc.WriteBarrier.Marks.{marked, mark_write_vector-marked}
use rtgc.Concurrent.Vector.{revector-IsSnapshot}
use rtgc.Concurrent.Snapshot.{AreMarkable, place, IsObject, IsSnapshot, Later, weight}

-- What the marking part of the barrier does for the target of the overwritten word.
abbrev pub mark_target : Heap → Option (ℕ × Ptr) → Heap
mark_target h none = h
mark_target h (some (i, base)) = if whitep h base then mark_write_vector base h else h

by_cases :
    (h : Heap) (b : Bool) (g : PageGroup) (valid : Ptr → Bool) (base : ℕ → Ptr)
    → elim (in_group (if b then g else external_page)) [
      | none ↦ ok h
      | some i ↦ (elim (in_group g) [ some i ↦ ok (base i) | none ↦ stopped debugger ]) >>= λ gcptr.
          (if whitep h gcptr && valid gcptr then ok (mark_write_vector gcptr h) else ok h)
    ]
      ≡ ok (mark_target h (choose b (in_group g) (λ i. valid (base i)) base))
by_cases h false g valid base = refl
by_cases h true empty_page valid base = refl
by_cases h true free_page valid base = refl
by_cases h true system_page valid base = refl
by_cases h true external_page valid base = refl
by_cases h true (group_page i) valid base = both (whitep h (base i)) (valid (base i)) refl refl
  where
    both :
        (w b : Bool)
        → whitep h (base i) ≡ w
        → valid (base i) ≡ b
        → (if whitep h (base i) && valid (base i) then ok (mark_write_vector (base i) h) else ok h)
          ≡ ok (
              mark_target h
                (if◌then◌else◌ {A = Option (ℕ × Ptr)} (valid (base i)) (some (i, base i)) none))
    both true true e f = rw (e, f, e) refl
    both true false e f = rw (e, f) refl
    both false true e f = rw (e, f, e) refl
    both false false e f = rw (e, f) refl

pub mark_overwritten-eq :
    (h : Heap) (object : Ptr) → mark_overwritten object h ≡ ok (mark_target h (target h object))
unfolding mark_overwritten page_group interior_to_gcptr target
mark_overwritten-eq h object =
    by_cases h (in_partition h object) ((h.pages (ptr_to_page_index h object)).group)
      (λ p. valid_interior_ptr p object)
      (λ i. interior_to_gcptr_3 object (h.pages (ptr_to_page_index h object)) (h.groups i))

-- A white object gets its mark.
module _ (h0 : Heap) (v0 : ℕ → View) (able : AreMarkable h0 v0) (h : Heap) (v : ℕ → View)
    (s : IsSnapshot h0 v0 h v) where
  pub able_now :
      (i x : ℕ)
      → InRange i
      → x ∈ objects_of (v0 i)
      → (h.first_partition_ptr ≤ x)
        × ((x - h.first_partition_ptr) % 32 ≡ 0)
        × ((x - h.first_partition_ptr) / 2048 < h0.write_vector_length)
  able_now i x r m =
      subst (λ f. (f ≤ x) × ((x - f) % 32 ≡ 0) × ((x - f) / 2048 < h0.write_vector_length))
        (sym s.table.first) (able i x r m)

  place_now : (index bit : ℕ) → place h index bit ≡ place h0 index bit
  place_now index bit = ap (λ (f : ℕ). f + index * 32 * 64 + bit * 32) s.table.first

  module _ (i base : ℕ) (r : InRange i) (m : base ∈ (v i).whites)
      (page : (h0.pages (ptr_to_page_index h0 base)).group ≡ group_page i)
      (m0 : base ∈ objects_of (v0 i)) where
    pub marked_now :
        (j x : ℕ)
        → InRange j
        → x ∈ objects_of (v0 j)
        → marked (mark_write_vector base h) x ≡ (if x == base then true else marked h x)
    marked_now j x q n =
        let a = able_now i base r m0 in
        let b = able_now j x q n in
        mark_write_vector-marked h base x (omega (arith, a.0)) (omega (arith, b.0)) a.1 b.1

    pub mark-Later : Later v0 h v (mark_write_vector base h) v
    mark-Later = record {
      whites = λ j a n. n;
      marks = λ j x q n e.
          marked_now j x q ((s.members j).1 x (mem-append_left x (v j).whites _ n))
          ∙ or_true (x == base) (marked h x) e;
      lighter = λ j x q n. elim (Bool-cases (x == base)) [
        | inl e ↦ lighter_base x (marked_now j x q n) e
        | inr e ↦ lighter_other x (marked_now j x q n) e
      ];
      fewer = le (total 20 5 v);
    }
      where
        le : (a : ℕ) → a ≤ a
        le a = omega arith

        or_true : (b m : Bool) → m ≡ true → (if b then true else m) ≡ true
        or_true true m e = refl
        or_true false m e = e

        same_white : (x : Ptr) → whitep (mark_write_vector base h) x ≡ whitep h x
        same_white x = unfold mark_write_vector in refl

        white_weight : (m w : Bool) → w ≡ true → 1 ≤ (if m then 1 else (if w then 2 else 0))
        white_weight true w e = omega arith
        white_weight false w e = rw e (omega arith)

        lighter_base :
            (x : Ptr)
            → marked (mark_write_vector base h) x ≡ (if x == base then true else marked h x)
            → (x == base) ≡ true
            → weight (mark_write_vector base h) x ≤ weight h x
        lighter_base x e f =
            let one : marked (mark_write_vector base h) x ≡ true =
              e ∙ ap (λ (b : Bool). if b then true else marked h x) f in
            rw one (
              white_weight (marked h x) (whitep h x) (
                is_white h v s.valid i x r
                  (subst (λ y. y ∈ (v i).whites) (sym (eq_of_== x base f)) m)))

        lighter_other :
            (x : Ptr)
            → marked (mark_write_vector base h) x ≡ (if x == base then true else marked h x)
            → (x == base) ≡ false
            → weight (mark_write_vector base h) x ≤ weight h x
        lighter_other x e f =
            let one : marked (mark_write_vector base h) x ≡ marked h x =
              e ∙ ap (λ (b : Bool). if b then true else marked h x) f in
            rw (one, same_white x) (le (weight h x))

    base_place :
        (f index bit : ℕ)
        → f ≤ base
        → (base - f) % 32 ≡ 0
        → index ≡ (base - f) / 2048
        → bit ≡ (base - f) % 2048 / 32
        → f + index * 32 * 64 + bit * 32 ≡ base
    base_place f index bit l a e g = omega arith

    new_bit :
        (index bit : ℕ)
        → test_bit ((mark_write_vector base h).write_vector index) bit ≡ true
        → (place h index bit ≡ base) ⊎ (test_bit (h.write_vector index) bit ≡ true)
    unfolding mark_write_vector locked_long_or
    new_bit index bit = elim (Bool-cases (index == (base - h.first_partition_ptr) / 2048)) [
      | inl e ↦
          rw (e, test_bit-bit_or)
            (elim (Bool-cases (bit == (base - h.first_partition_ptr) % 2048 / 32)) [
              | inl f ↦ rw f (λ k.
                  let a = able_now i base r m0 in
                  inl (
                    base_place h.first_partition_ptr index bit a.0 a.1 (eq_of_== _ _ e)
                      (eq_of_== _ _ f)))
              | inr f ↦ rw (f, eq_of_== _ _ e) (λ k. inr k)
            ])
      | inr e ↦ rw e (λ k. inr k)
    ]

    pub mark-IsSnapshot : IsSnapshot h0 v0 (mark_write_vector base h) v
    unfolding mark_write_vector
    mark-IsSnapshot = revector-IsSnapshot h0 v0 h v _ s mark-Later (λ index bit l u e.
        elim (new_bit index bit e) [
          | inl f ↦ subst (λ p. IsObject h0 v0 p) (sym f ∙ place_now index bit) (i, r, m0, page)
          | inr k ↦ s.owned index bit l u k
        ])
