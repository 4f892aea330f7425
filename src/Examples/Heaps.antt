-- ===== src/Examples/Heaps.antt =====
-- The theorems on heaps and sizes, at a heap of one page and two holes.
use rtgc.Common.{
  ◌/◌, ◌+◌, ◌*◌, All, ◌≢◌, suc, ◌-◌, ◌%◌, ◌^◌, ◌<◌, ◌≤◌, ◌≡◌, ◌⊎◌, refl, [], ◌∷◌, true, stopped,
  debugger, Returns, arith, ◌==◌, if◌then◌else◌,
}
use rtgc.InfoBits.{Mem, Ptr, get_color, get_link_info, get_storage_class}
use rtgc.SizeClass.{allocation_group}
use rtgc.SizeClass.Bounds.{Fits, needed, allocation_group-Fits, allocation_group_overflow}
use rtgc.Heap.{
  Heap, group_page, empty_page, system_page, heap_segment, whitep, in_partition, ptr_to_page_index,
  valid_interior_ptr, interior_to_gcptr_3,
}
use rtgc.Heap.Interior.{interior_to_gcptr_3_small}
use rtgc.WriteBarrier.{write_barrier}
use rtgc.WriteBarrier.Marks.{marked, IsPointerInto, write_barrier-marks}
use rtgc.Room.{room, total_hole_and_committed_bytes}
use rtgc.Room.Conserved.{IsTiled, end, empty, small, large, room-eq-bytes}
use rtgc.Pages.{hole_page_count, allocate_empty_pages}
use rtgc.Pages.BestFit.{IsOneOf, allocate_empty_pages-least}
use rtgc.SizeClass.{to_int}
use rtgc.Allocate.{static_allocate}
use rtgc.Allocate.Static.{static_allocate-header}

-- One page of 32-byte objects at 4096; the white object at 4192 is pointed to from the word 64.
abbrev pub one_page : Heap
one_page = record {
  mem = λ a. if a == 64 then 4210 else if a == 4192 then 1 else 0;
  groups = λ i. record {
    size = 2 ^ i;
    index = i;
    last = 0;
    free = 0;
    gray = 0;
    black = 0;
    white = 0;
    white_count = 0;
    black_scanned_count = 0;
    black_alloc_count = 0;
  };
  pages = λ i.
      if i == 0
      then record { base = 4096; group = group_page 5 }
      else record { base = 0; group = system_page };
  empty_pages = 0;
  first_partition_ptr = 4096;
  last_partition_ptr = 8192;
  total_partition_pages = 1;
  segments = λ i. record {
    first_segment_ptr = 0;
    last_segment_ptr = 0;
    segment_page_count = 0;
    type = heap_segment;
  };
  total_segments = 1;
  first_static_ptr = 0;
  last_static_ptr = 0;
  static_frontier_ptr = 0;
  write_vector = λ i. 0;
  write_vector_length = 2;
  marked_color = 0;
  unmarked_color = 1;
  enable_write_barrier = true;
  gc_count = 0;
}

pointed_to : IsPointerInto one_page 4192 4210 5
unfolding in_partition ptr_to_page_index
pointed_to = record {
  in_heap = refl;
  page = refl;
  inside = record {
    size = refl;
    from = omega arith;
    below = omega arith;
    stands = λ e. refl;
    large = λ e. ground (arith, e);
  };
  from_start = omega arith;
  stands = refl;
}

is_white : whitep one_page 4192 ≡ true
unfolding get_color get_link_info
is_white = refl

is_near : valid_interior_ptr 4192 4210 ≡ true
unfolding valid_interior_ptr
is_near = refl

interior_to_gcptr_3_small_example :
    interior_to_gcptr_3 (4096 + 3 * 32 + 18) (one_page.pages 0) (one_page.groups 5) ≡ 4096 + 3 * 32
interior_to_gcptr_3_small_example =
    interior_to_gcptr_3_small 4096 3 18 (one_page.pages 0) (one_page.groups 5) refl refl
      (omega arith) (omega arith)

write_barrier-marks_example :
    Returns
      (λ h'.
        (h'.mem 64 ≡ 7)
        × ((q : Ptr)
            → 4096 < suc q
            → (q - 4096) % 32 ≡ 0
            → marked h' q ≡ (if q == 4192 then true else marked one_page q)))
      (write_barrier 64 7 one_page)
write_barrier-marks_example =
    write_barrier-marks one_page 64 7 4192 5 refl pointed_to is_white is_near

-- A metadata record at 1000 for records of 2 ^ 20 bytes.
abbrev large_records : Mem
large_records = λ a. 2 ^ 20

allocation_group-Fits_example :
    ((needed large_records 1 100 ≤ 2 ^ 24)
      × Returns
          (λ g. Fits (needed large_records 1 100) g × (g ≤ 24))
          (allocation_group large_records 1 100))
    ⊎ ((2 ^ 24 < needed large_records 1 100)
        × (allocation_group large_records 1 100 ≡ stopped debugger))
allocation_group-Fits_example =
    allocation_group-Fits large_records 1 100 (omega arith) (omega arith)

allocation_group_overflow_example :
    Returns (λ g. 2 ^ g < needed large_records 1000 4096) (allocation_group large_records 1000 4096)
allocation_group_overflow_example =
    allocation_group_overflow large_records 1000 4096 (omega arith) (omega arith) (omega arith)
      (omega arith)

-- Two holes, of five and of two pages.
abbrev two_holes : Heap
two_holes = record one_page {
  mem = λ a. if a == 4096 then 5 else if a == 4104 then 40960 else if a == 40960 then 2 else 0;
  empty_pages = 4096;
  total_partition_pages = 20;
}

allocate_empty_pages-least_example :
    Returns
      (λ (h', base).
        ((base ≡ 0)
          × (h' ≡ two_holes)
          × All (λ z. hole_page_count two_holes.mem z < 2) (4096 ∷ 40960 ∷ []))
        ⊎ ((base ≢ 0)
            × IsOneOf base (4096 ∷ 40960 ∷ [])
            × (2 ≤ hole_page_count two_holes.mem base)
            × All
                (λ z.
                  2 ≤ hole_page_count two_holes.mem z
                  → hole_page_count two_holes.mem base ≤ hole_page_count two_holes.mem z)
                (4096 ∷ 40960 ∷ [])))
      (allocate_empty_pages 3 2 two_holes)
allocate_empty_pages-least_example =
    allocate_empty_pages-least 3 2 two_holes (4096 ∷ 40960 ∷ []) (omega arith) (ground arith)
      (ground arith)

-- Room for static objects from 1024 on.
abbrev static_room : Heap
static_room = record one_page { static_frontier_ptr = 1024; last_static_ptr = 2048 }

static_allocate-header_example :
    Returns {A = Heap × Ptr}
      (λ (h', p).
        (p ≡ 1032)
        × (to_int (h'.mem 1024) / 16 ≡ 24)
        × (get_storage_class h'.mem 1016 ≡ 1)
        × ((a : Ptr) → p ≤ a → a < p + 24 → h'.mem a ≡ 0)
        × (h'.static_frontier_ptr ≡ p + 24))
      (static_allocate 1 20 static_room)
static_allocate-header_example =
    static_allocate-header 1 20 static_room (omega arith) (omega arith) (omega arith) (omega arith)

-- A page of 32-byte objects, a large object of two pages, and an empty page.
abbrev four_pages : Heap
four_pages = record one_page {
  pages = λ i.
      if i == 0
      then record { base = 4096; group = group_page 5 }
      else if i == 3
      then record { base = 0; group = empty_page }
      else record { base = 8192; group = group_page 13 };
  last_partition_ptr = 20480;
  total_partition_pages = 4;
}

four_pages-IsTiled : IsTiled four_pages 0
four_pages-IsTiled =
    small 5 (omega arith) refl (omega arith, omega arith) refl refl
      (large 13 refl (omega arith, omega arith) refl refl (omega arith)
        (empty (omega arith) refl (end refl)))

room-eq-bytes_example :
    Returns (λ r. total_hole_and_committed_bytes four_pages r ≡ 4 * 4096) (room 5 four_pages)
room-eq-bytes_example = room-eq-bytes 5 four_pages (λ i k. refl) four_pages-IsTiled (omega arith)
