-- ===== src/WriteBarrier/Marks.antt =====
-- The bits of the write vector in rtgc.c, one for each multiple of 32 bytes.
use rtgc.Common.{
  ℕ, suc, ◌-◌, ◌/◌, ◌%◌, ◌^◌, ◌<◌, ◌≡◌, refl, ◌∙◌, Bool, true, ◌==◌, if◌then◌else◌, ==-true, arith,
  bit_or, ap, some, Returns, returns, ok,
}
use rtgc.Common.Bits.{test_bit, test_bit-bit_or}
use rtgc.InfoBits.{Ptr, write}
use rtgc.Heap.{
  Heap, in_group, group_page, in_partition, ptr_to_page_index, page_group, interior_to_gcptr,
  whitep, valid_interior_ptr,
}
use rtgc.Heap.Interior.{IsInside, interior_to_gcptr_3-base}
use rtgc.WriteBarrier.{locked_long_or, set_word, mark_write_vector, mark_overwritten, write_barrier}

-- The mark of the object at `p`.
abbrev pub marked : Heap → Ptr → Bool
marked h p =
    let o = p - h.first_partition_ptr in test_bit (h.write_vector (o / 2048)) (o % 2048 / 32)

same_place :
    (a b : ℕ)
    → a % 32 ≡ 0
    → b % 32 ≡ 0
    → a / 2048 ≡ b / 2048
    → a % 2048 / 32 ≡ b % 2048 / 32
    → a ≡ b
same_place a b p q e f = omega arith

bit_set :
    (v : ℕ → ℕ) (a b : ℕ)
    → a % 32 ≡ 0
    → b % 32 ≡ 0
    → test_bit
        (set_word v (a / 2048) (bit_or (v (a / 2048)) (2 ^ (a % 2048 / 32))) (b / 2048))
        (b % 2048 / 32)
      ≡ (if b == a then true else test_bit (v (b / 2048)) (b % 2048 / 32))
bit_set v a b p q = ground (
  arith,
  test_bit-bit_or (v (a / 2048)) (a % 2048 / 32) (b % 2048 / 32),
  same_place a b p q,
  ap v,
)

shifted_test : (f p q : ℕ) → f < suc p → f < suc q → (q - f == p - f) ≡ (q == p)
shifted_test f p q hp hq = ground arith

-- Marking an object sets its mark and keeps the marks of all others, where objects stand at
-- multiples of 32 bytes from the start of the partition, not before it.
pub mark_write_vector-marked :
    (h : Heap) (p q : Ptr)
    → h.first_partition_ptr < suc p
    → h.first_partition_ptr < suc q
    → (p - h.first_partition_ptr) % 32 ≡ 0
    → (q - h.first_partition_ptr) % 32 ≡ 0
    → marked (mark_write_vector p h) q ≡ (if q == p then true else marked h q)
unfolding mark_write_vector locked_long_or
mark_write_vector-marked h p q hp hq a b =
    let f = h.first_partition_ptr in
    bit_set h.write_vector (p - f) (q - f) a b
    ∙ ap (λ t. if t then true else marked h q) (shifted_test h.first_partition_ptr p q hp hq)

-- `object` points into the object at `base`, which belongs to the group of its page.
pub record IsPointerInto (h : Heap) (base object : Ptr) (i : ℕ) : Type 0 where
  pub in_heap : in_partition h object ≡ true
  pub page : (h.pages (ptr_to_page_index h object)).group ≡ group_page i
  pub inside : IsInside base object (h.pages (ptr_to_page_index h object)) (h.groups i)
  pub from_start : h.first_partition_ptr < suc base
  pub stands : (base - h.first_partition_ptr) % 32 ≡ 0

group_of :
    (h : Heap) (base object : Ptr) (i : ℕ)
    → IsPointerInto h base object i
    → in_group (page_group h object) ≡ some i
unfolding page_group
group_of h base object i d = rw (d.in_heap, d.page) refl

gcptr_of :
    (h : Heap) (base object : Ptr) (i : ℕ)
    → IsPointerInto h base object i
    → interior_to_gcptr h object ≡ ok base
unfolding interior_to_gcptr
gcptr_of h base object i d =
    rw
      (
        interior_to_gcptr,
        d.page,
        interior_to_gcptr_3-base base object (h.pages (ptr_to_page_index h object)) (h.groups i)
            d.inside,
      )
      refl

mark_overwritten-marks :
    (h : Heap) (base object : Ptr) (i : ℕ)
    → IsPointerInto h base object i
    → whitep h base ≡ true
    → valid_interior_ptr base object ≡ true
    → mark_overwritten object h ≡ ok (mark_write_vector base h)
unfolding mark_overwritten
mark_overwritten-marks h base object i d w v =
    rw (mark_overwritten, group_of h base object i d, gcptr_of h base object i d, w, v) refl

-- While the write barrier is on, a store over a pointer into a white object of the heap returns,
-- where the size of the group is the power of two that its index says, an object of less than a
-- page stands at a multiple of it and a larger one is the base of the page, and the object stands
-- at a multiple of 32 bytes from the start of the partition and not further before the pointer
-- than valid_interior_ptr allows; the stored word is the new value, the object is marked, and
-- every other mark of an address at such a multiple is as it was.
pub write_barrier-marks :
    (h : Heap) (lhs_address rhs base : Ptr) (i : ℕ)
    → h.enable_write_barrier ≡ true
    → IsPointerInto h base (h.mem lhs_address) i
    → whitep h base ≡ true
    → valid_interior_ptr base (h.mem lhs_address) ≡ true
    → Returns
        (λ h'.
          (h'.mem lhs_address ≡ rhs)
          × ((q : Ptr)
              → h.first_partition_ptr < suc q
              → (q - h.first_partition_ptr) % 32 ≡ 0
              → marked h' q ≡ (if q == base then true else marked h q)))
        (write_barrier lhs_address rhs h)
unfolding write_barrier write mark_write_vector
write_barrier-marks h lhs rhs base i on d w v =
    let e : (if h.enable_write_barrier then mark_overwritten (h.mem lhs) h else ok h)
        ≡ ok (mark_write_vector base h) =
      ap (λ t. if t then mark_overwritten (h.mem lhs) h else ok h) on
      ∙ mark_overwritten-marks h base (h.mem lhs) i d w v in
    rw e (
      returns (
        rw (==-true lhs lhs refl) refl,
        λ q hq a. mark_write_vector-marked h base q d.from_start hq d.stands a,
      ))
