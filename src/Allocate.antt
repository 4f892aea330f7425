-- ===== src/Allocate.antt =====
-- The allocator of rtalloc.c: init_pages_for_group, RTallocate and RTstatic_allocate.
pub mod Static
use rtgc.Common.{
  ℕ, ◌+◌, ◌-◌, ◌*◌, ◌/◌, ◌^◌, ◌&&◌, ◌||◌, max, Run, ok, stopped, debugger, out_of_memory, assertion,
  guard, ◌>>=◌, ◌>>◌, leb, ltb, ◌==◌, if◌then◌else◌,
}
use rtgc.InfoBits.{
  Mem, Ptr, null, write, set_storage_class, set_link_info, sc_nopointers, sc_pointers, sc_custom1,
  sc_metadata, gc_storage_info_mask,
}
use rtgc.Group.{add_objects, take_free}
use rtgc.Heap.{
  Heap, Page, group_page, bytes_per_page, ptr_to_page_index, on_group, group_state, put_group_state,
  heap_segment,
}
use rtgc.Pages.{allocate_empty_pages, allocate_segment}
use rtgc.SizeClass.{allocation_group, to_int}

-- DEFAULT_HEAP_SEGMENT_SIZE
abbrev pub default_heap_segment_size : ℕ
default_heap_segment_size = 2 ^ 20

-- The page table entries of the pages at `base`.
unfoldable pub own_pages : (first count : ℕ) → (base : Ptr) → (group : ℕ) → (ℕ → Page) → ℕ → Page
own_pages first count base i pages j =
    if leb first j && ltb j (first + count)
    then record { base = base; group = group_page i }
    else pages j

-- What init_pages_for_group does once it has pages.
add_pages : (num_objects page_count : ℕ) → (base : Ptr) → (group : ℕ) → Heap → Run Heap
unfolding add_objects own_pages ptr_to_page_index on_group
add_pages num_objects page_count base i h = on_group i (add_objects num_objects base) h >>= λ h'.
    ok (record h' { pages = own_pages (ptr_to_page_index h' base) page_count base i h'.pages })

-- The words from `p` up to `p + n` become 0.
unfoldable pub clear_words : Mem → Ptr → ℕ → Mem
clear_words m p n a = if leb p a && ltb a (p + n) then 0 else m a

-- initialize_object_metadata; the result has the size of the body.
initialize_object_metadata : (metadata : ℕ) → Ptr → (size : ℕ) → Mem → Mem × ℕ
unfolding write
initialize_object_metadata metadata gcptr size m =
    let base = gcptr + 16 in
    let last_ptr = base + (size / 8 - 3) * 8 in
    if ltb metadata sc_metadata
    then (set_storage_class m gcptr metadata, size - 16)
    else (set_storage_class (write m last_ptr metadata) gcptr sc_metadata, size - 16 - 8)

initialize_object_body : (metadata : ℕ) → Ptr → (body_size : ℕ) → Mem → Mem
unfolding clear_words
initialize_object_body metadata base body_size m =
    if metadata == sc_nopointers then m else clear_words m base body_size

-- `fuel` bounds the search for a hole. `wait_gc` is what other threads do to the heap while an
-- allocation that found no hole waits until the collector has finished two cycles; `memory` is
-- what mmap returns to allocate_segment, which is asked although there is only one segment.
module _ (fuel : ℕ) (wait_gc : Heap → Heap) (memory : Ptr) where
  unfoldable pub init_pages_for_group : (group min_pages : ℕ) → Heap → Run Heap
  unfolding add_pages allocate_empty_pages allocate_segment
  init_pages_for_group i min_pages h =
      let size = (h.groups i).size in
      let byte_count = max (size / bytes_per_page) min_pages * bytes_per_page in
      let num_objects = byte_count / 2 ^ (h.groups i).index in
      let page_count = num_objects * size / bytes_per_page in
      let again : Heap → Run Heap = λ h'.
        if ((h'.groups i).free == null)
        then (allocate_empty_pages fuel page_count h' >>= λ (h'', base).
            if base == null then ok h'' else add_pages num_objects page_count base i h'')
        else ok h' in
      allocate_empty_pages fuel page_count h >>= λ (h', base).
      if base == null
      then (allocate_segment memory (max default_heap_segment_size (page_count * bytes_per_page))
            heap_segment h'
          >>= λ (h'', actual_bytes).
              guard (actual_bytes == 0) assertion
              >> again (if ltb actual_bytes byte_count then wait_gc h'' else h''))
      else add_pages num_objects page_count base i h'

  -- RTallocate; the result has the address of the body.
  unfoldable pub allocate : (metadata size : ℕ) → Heap → Run (Heap × Ptr)
  unfolding init_pages_for_group initialize_object_metadata initialize_object_body take_free
  allocate metadata size h = allocation_group h.mem metadata size >>= λ i.
      (if (h.groups i).free == null then init_pages_for_group i 1 h else ok h) >>= λ h'.
      (let new = (h'.groups i).free in
        let taken = put_group_state i h' (take_free h'.marked_color (group_state i h')) in
        let (m, body_size) =
          initialize_object_metadata metadata new ((taken.groups i).size) taken.mem in
        if new == null
        then stopped out_of_memory
        else ok (
          record taken { mem = initialize_object_body metadata (new + 16) body_size m },
          new + 16,
        ))

-- RTstatic_allocate. The header of a static object is one word, which is the `next` field of a
-- header that begins 8 bytes before it.
unfoldable pub static_allocate : (metadata size : ℕ) → Heap → Run (Heap × Ptr)
unfolding write set_link_info clear_words
static_allocate metadata size h =
    let rounded = (size + 7) / 8 * 8 in
    let ptr = h.static_frontier_ptr in
    let frontier = ptr + rounded + 8 in
    let header = set_link_info (to_int (rounded * 16)) gc_storage_info_mask metadata in
    if ltb h.last_static_ptr frontier
    then stopped out_of_memory
    else if leb metadata sc_pointers || metadata == sc_custom1
    then ok (
      record h {
        static_frontier_ptr = frontier;
        mem = clear_words (write h.mem ptr header) (ptr + 8) rounded;
      },
      ptr + 8,
    )
    else stopped debugger
