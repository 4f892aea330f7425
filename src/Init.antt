-- ===== src/Init.antt =====
-- RTinit_heap of rtalloc.c, which sets up the collector's state; the thread table that it also
-- initializes is the state of Threads.antt.
use rtgc.Common.{
  ℕ, ◌*◌, ◌/◌, ◌<◌, ◌≤◌, ◌≡◌, [], Bool, false, ◌&&◌, Run, ok, stopped, out_of_memory, guard, ◌>>=◌,
  ◌>>◌, leb, ltb, ◌==◌, if◌then◌else◌,
}
use rtgc.InfoBits.{Ptr, null, generation0, generation1}
use rtgc.Group.View.{view, IsGroup}
use rtgc.SizeClass.{init_group_info, min_group_index, max_group_index}
use rtgc.Heap.{
  Heap, empty_page, bytes_per_page, SegmentType, heap_segment, static_segment, group_state,
}
use rtgc.Pages.{init_page_info, allocate_segment, hole_page_count, hole_next}
use rtgc.WriteBarrier.{min_group_size, bits_per_long}

-- The segment, or the end of the run where there is no memory for it.
unfoldable pub need_segment : (memory : Ptr) → (bytes : ℕ) → SegmentType → Heap → Run Heap
unfolding allocate_segment
need_segment memory bytes type h = allocate_segment memory bytes type h >>= λ (h', actual_bytes).
    if actual_bytes == 0 then stopped out_of_memory else ok h'

-- The tables before there is a segment.
unfoldable pub init_tables : (first_segment_bytes : ℕ) → Heap → Heap
unfolding init_page_info
init_tables first_segment_bytes h =
    let length = first_segment_bytes / (min_group_size * bits_per_long) in
    let h' = record h {
      enable_write_barrier = false;
      total_partition_pages = first_segment_bytes / bytes_per_page;
      write_vector_length = length;
      write_vector = λ i. if ltb i length then 0 else h.write_vector i;
    } in
    record (init_page_info h') { empty_pages = null; total_segments = 0 }

-- RTinit_heap; `static_memory` and `heap_memory` are what mmap returns for the segments, and
-- `tables` says whether it returned memory for all the tables.
unfoldable pub init_heap :
    (tables : Bool)
    → (static_memory heap_memory : Ptr) → (first_segment_bytes static_size : ℕ) → Heap
    → Run Heap
unfolding init_tables need_segment init_group_info
init_heap tables static_memory heap_memory first_segment_bytes static_size h =
    let started = init_tables first_segment_bytes h in
    guard tables out_of_memory
    >> (if ltb 0 static_size
        then need_segment static_memory static_size static_segment started
        else ok started)
    >>= need_segment heap_memory first_segment_bytes heap_segment
    >>= λ h'. ok (record h' {
      marked_color = generation0;
      unmarked_color = generation1;
      groups = λ i.
          if leb min_group_index i && leb i max_group_index then init_group_info i else h'.groups i;
      gc_count = 0;
    })

-- What the first cycle and the first allocation start from.
pub record IsFresh (heap_memory : Ptr) (first_segment_bytes : ℕ) (h : Heap) : Type 0 where
  pub hole : h.empty_pages ≡ heap_memory
  pub whole : hole_page_count h.mem heap_memory * bytes_per_page ≡ first_segment_bytes
  pub only : hole_next h.mem heap_memory ≡ 0
  pub pages : (i : ℕ) → i < h.total_partition_pages → (h.pages i).group ≡ empty_page
  pub groups :
      (i : ℕ)
      → 5 ≤ i
      → i ≤ 24
      → IsGroup h.marked_color h.unmarked_color (group_state i h) (view [] [] [] [])
