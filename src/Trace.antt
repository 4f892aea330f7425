-- ===== src/Trace.antt =====
-- Tracing in rtgc.c: RTmake_object_gray, RTtrace_pointer, RTtrace_heap_pointer, the scans of
-- memory segments and of objects, and scan_gray_set. Counted loops recur on the rounds left; the
-- others take fuel. The custom scanner is code of the client and is a parameter.
pub mod Pointer
pub mod Words
pub mod Segments
pub mod Total
pub mod Blacken
pub mod GraySet
pub mod Finish
pub mod Reach
use rtgc.Common.{
  ℕ, zero, suc, ◌+◌, ◌-◌, ◌*◌, ◌/◌, ◌%◌, ◌^◌, not, ◌&&◌, none, some, Run, ok, stopped, fault,
  out_of_fuel, ◌>>=◌, ltb, ◌==◌, if◌then◌else◌,
}
use rtgc.InfoBits.{
  Ptr, null, prev_link, get_storage_class, grayp, sc_nopointers, sc_pointers, sc_custom1,
}
use rtgc.Group
use rtgc.Group.{blacken}
use rtgc.Heap.{
  Heap, in_partition, ptr_to_page_index, in_group, whitep, on_group, valid_interior_ptr,
  interior_to_gcptr_3, interior_to_gcptr, gc_pointer_alignment,
}

-- RTmake_object_gray. PTR_TO_GROUP of a page with no group is no group, hence the fault.
unfoldable pub make_object_gray : Ptr → Heap → Run Heap
unfolding ptr_to_page_index on_group
make_object_gray current h = elim (in_group (h.pages (ptr_to_page_index h current)).group) [
  | none ↦ stopped fault
  | some i ↦ on_group i (Group.make_object_gray h.unmarked_color current) h
]

-- RTtrace_pointer, which is also the body of the scanning loops.
unfoldable pub trace_pointer : Ptr → Heap → Run Heap
unfolding in_partition ptr_to_page_index interior_to_gcptr_3 valid_interior_ptr make_object_gray
trace_pointer ptr h =
    let page = h.pages (ptr_to_page_index h ptr) in
    let traced : Run Heap = elim (in_group page.group) [
      | none ↦ ok h
      | some i ↦
          let gcptr = interior_to_gcptr_3 ptr page (h.groups i) in
          if whitep h gcptr && valid_interior_ptr gcptr ptr then make_object_gray gcptr h else ok h
    ] in
    if in_partition h ptr then traced else ok h

-- RTtrace_heap_pointer
unfoldable pub trace_heap_pointer : Ptr → Heap → Run Heap
unfolding interior_to_gcptr make_object_gray
trace_heap_pointer ptr h = do
  gcptr ← interior_to_gcptr h ptr
  if whitep h gcptr then make_object_gray gcptr h else ok h

-- The loop of scan_memory_segment, with the rounds left.
unfoldable pub scan_words : ℕ → (next : Ptr) → Heap → Run Heap
unfolding trace_pointer
scan_words zero next h = ok h
scan_words (suc k) next h =
    trace_pointer (h.mem next) h >>= scan_words k (next + gc_pointer_alignment)

-- scan_memory_segment and its public version RTscan_memory_segment
unfoldable pub scan_memory_segment : (low high : Ptr) → Heap → Run Heap
unfolding scan_words
scan_memory_segment low high h =
    scan_words ((high + (gc_pointer_alignment - 1) - low) / gc_pointer_alignment) low h

-- The inner loop of scan_memory_segment_with_metadata: the offsets up to the end mark -1.
scan_offsets : (fuel : ℕ) → (md offset : Ptr) → (j : ℕ) → Heap → Run Heap
unfolding trace_pointer
scan_offsets zero md offset j h = stopped out_of_fuel
scan_offsets (suc fuel) md offset j h =
    let field = h.mem (md + 8 * j) in
    let rest =
      trace_pointer (h.mem ((offset + field) % 2 ^ 64)) h >>= scan_offsets fuel md offset (j + 1) in
    if field == 2 ^ 64 - 1 then ok h else rest

-- Its outer loop, with the records left.
scan_records : (fuel : ℕ) → ℕ → (md low : Ptr) → (size i : ℕ) → Heap → Run Heap
unfolding scan_offsets
scan_records fuel zero md low size i h = ok h
scan_records fuel (suc k) md low size i h =
    scan_offsets fuel md (low + i * size) 1 h >>= scan_records fuel k md low size (i + 1)

-- scan_memory_segment_with_metadata. A record length of 0 is a division by zero.
unfoldable pub scan_memory_segment_with_metadata : (fuel : ℕ) → (low high : Ptr) → Heap → Run Heap
unfolding scan_records
scan_memory_segment_with_metadata fuel low high h =
    let md = h.mem (high - 8) in
    let size = h.mem md in
    let count = (high - low - 8) / size in
    if size == 0 then stopped fault else scan_records fuel count md low size 0 h

-- `fuel` bounds the offsets of a metadata record, the objects of a group and the rescans.
module _ (custom_scanner : (low high : Ptr) → Heap → Run Heap) (fuel : ℕ) where
  unfoldable pub scan_object : Ptr → (total_size : ℕ) → Heap → Run Heap
  unfolding scan_memory_segment scan_memory_segment_with_metadata
  scan_object ptr total_size h =
      let low = ptr + 16 in
      let high = ptr + total_size in
      let class = get_storage_class h.mem ptr in
      if class == sc_nopointers
      then ok h
      else if class == sc_pointers
      then scan_memory_segment low high h
      else if class == sc_custom1
      then custom_scanner low high h
      else scan_memory_segment_with_metadata fuel low high h

  unfoldable pub scan_object_with_group : Ptr → (group : ℕ) → Heap → Run Heap
  unfolding scan_object on_group
  scan_object_with_group ptr i h = scan_object ptr ((h.groups i).size) h >>= λ h'.
      on_group i (λ s. ok (blacken h'.marked_color ptr s)) h'

  -- The inner loop of scan_gray_set, from `current` back to the front of the list.
  unfoldable pub scan_back :
      (rounds : ℕ) → (group : ℕ) → (current : Ptr) → (scan_count : ℕ) → Heap → Run (Heap × ℕ)
  unfolding scan_object_with_group
  scan_back zero i current scan_count h = stopped out_of_fuel
  scan_back (suc k) i current scan_count h =
      let rest = scan_object_with_group current i h >>= λ h'.
      scan_back k i (prev_link h'.mem current) (scan_count + 1) h' in
      if current == null then ok (h, scan_count) else rest

  -- One group: the scan begins at `black`, or before it if that is not gray.
  unfoldable pub scan_group : (group : ℕ) → (scan_count : ℕ) → Heap → Run (Heap × ℕ)
  unfolding scan_back
  scan_group i scan_count h =
      let black = (h.groups i).black in
      let current =
        if not (black == null) && not (grayp h.mem black) then prev_link h.mem black else black in
      scan_back fuel i current scan_count h

  -- The groups from `i` on.
  unfoldable pub scan_groups : ℕ → (group : ℕ) → (scan_count : ℕ) → Heap → Run (Heap × ℕ)
  unfolding scan_group
  scan_groups zero i scan_count h = ok (h, scan_count)
  scan_groups (suc k) i scan_count h =
      scan_group i scan_count h >>= λ (h', n). scan_groups k (i + 1) n h'

  -- The outer loop: all groups are scanned again until a pass scans nothing.
  unfoldable pub rescan : (rounds : ℕ) → Heap → Run Heap
  unfolding scan_groups
  rescan zero h = stopped out_of_fuel
  rescan (suc k) h = scan_groups 20 5 0 h >>= λ (h', scan_count).
      (let rest = rescan k h' in if ltb 0 scan_count then rest else ok h')

  unfoldable pub scan_gray_set : Heap → Run Heap
  unfolding rescan
  scan_gray_set h = rescan fuel h
