-- ===== src/Pages.antt =====
-- Pages and holes in rtalloc.c: init_page_info, RTinit_empty_pages, allocate_segment and the
-- best-fit search of allocate_empty_pages. A hole is a run of empty pages whose first two words
-- hold its page count and the next hole.
pub mod BestFit
use rtgc.Common.{
  ℕ, zero, suc, ◌+◌, ◌-◌, ◌*◌, ◌/◌, ◌%◌, not, ◌&&◌, Run, ok, stopped, debugger, out_of_fuel, ◌>>=◌,
  leb, ltb, ◌==◌, if◌then◌else◌,
}
use rtgc.InfoBits.{Mem, Ptr, null, write}
use rtgc.Heap.{
  Heap, Page, empty_page, system_page, Segment, SegmentType, heap_segment, static_segment,
  bytes_per_page, page_index_to_ptr, ptr_to_page_index,
}

-- The fields of a hole.
abbrev pub hole_page_count : Mem → Ptr → ℕ
hole_page_count m p = m p

abbrev pub hole_next : Mem → Ptr → Ptr
hole_next m p = m (p + 8)

unfoldable pub write_hole : Mem → Ptr → (page_count : ℕ) → (next : Ptr) → Mem
unfolding write
write_hole m p page_count next = write (write m p page_count) (p + 8) next

-- init_page_info
unfoldable pub init_page_info : Heap → Heap
init_page_info h = record h {
  pages = λ i.
      if ltb i h.total_partition_pages
      then record { base = null; group = system_page }
      else h.pages i;
}

-- The pages from `first` on become empty.
unfoldable pub clear_pages : (first count : ℕ) → (ℕ → Page) → ℕ → Page
clear_pages first count pages i =
    if leb first i && ltb i (first + count)
    then record { base = null; group = empty_page }
    else pages i

-- RTinit_empty_pages: the pages become the first hole of the list.
unfoldable pub init_empty_pages : (first_page page_count : ℕ) → SegmentType → Heap → Run Heap
unfolding clear_pages page_index_to_ptr write_hole
init_empty_pages first_page page_count heap_segment h =
    let new_hole = page_index_to_ptr h first_page in
    ok (record h {
      pages = clear_pages first_page page_count h.pages;
      mem = write_hole h.mem new_hole page_count h.empty_pages;
      empty_pages = new_hole;
    })
init_empty_pages first_page page_count static_segment h = stopped debugger

-- MAX_SEGMENTS
abbrev pub max_segments : ℕ
max_segments = 2

-- What allocate_segment does with a segment of each type.
unfoldable pub use_segment : (first last : Ptr) → (page_count : ℕ) → SegmentType → Heap → Run Heap
unfolding init_empty_pages ptr_to_page_index
use_segment first last page_count heap_segment h =
    let h' = record h { first_partition_ptr = first; last_partition_ptr = last } in
    init_empty_pages (ptr_to_page_index h' first) page_count heap_segment h'
use_segment first last page_count static_segment h =
    let segment = h.segments 0 in
    ok (record h {
      last_static_ptr = segment.last_segment_ptr;
      first_static_ptr = segment.first_segment_ptr;
      static_frontier_ptr = segment.first_segment_ptr;
    })

abbrev set_segment : (ℕ → Segment) → ℕ → Segment → ℕ → Segment
set_segment segments i s j = if j == i then s else segments j

-- allocate_segment; `memory` is what RTbig_malloc, that is mmap, returns. The result has the
-- number of bytes.
unfoldable pub allocate_segment :
    (memory : Ptr) → (desired_bytes : ℕ) → SegmentType → Heap → Run (Heap × ℕ)
unfolding use_segment
allocate_segment memory desired_bytes type h =
    let page_count = desired_bytes / bytes_per_page in
    let last = memory + page_count * bytes_per_page in
    let segment : Segment = record {
      first_segment_ptr = memory;
      last_segment_ptr = last;
      segment_page_count = page_count;
      type = type;
    } in
    let h' = record h {
      total_segments = h.total_segments + 1;
      segments = set_segment h.segments h.total_segments segment;
    } in
    let used : Run (Heap × ℕ) =
      use_segment memory last page_count type h' >>= λ h''. ok (h'', desired_bytes) in
    if ltb 0 desired_bytes
      && desired_bytes % bytes_per_page == 0
      && ltb h.total_segments max_segments
    then (if memory == null then stopped debugger else used)
    else ok (h, 0)

-- The variables of the search in allocate_empty_pages.
pub record Best : Type 0 where
  pub best : Ptr
  pub best_prev : Ptr
  pub best_remaining : ℕ

-- One hole is looked at.
unfoldable pub consider : (page_count : ℕ) → Mem → (prev next : Ptr) → Best → Best
consider page_count m prev next b =
    let remaining = hole_page_count m next - page_count in
    if leb page_count (hole_page_count m next) && ltb remaining b.best_remaining
    then record { best = next; best_prev = prev; best_remaining = remaining }
    else b

-- The search, with fuel for its rounds; it ends early at a hole of exactly the right size.
unfoldable pub search_holes : (fuel page_count : ℕ) → Mem → (prev next : Ptr) → Best → Run Best
unfolding consider
search_holes zero page_count m prev next b = stopped out_of_fuel
search_holes (suc fuel) page_count m prev next b =
    let rest =
      search_holes fuel page_count m next (hole_next m next) (consider page_count m prev next b) in
    if ltb 0 b.best_remaining && not (next == null) then rest else ok b

-- The best hole is taken, or its first pages if it is larger; what is left takes its place.
unfoldable pub take_hole : (page_count : ℕ) → Best → Heap → Heap
unfolding write_hole write
take_hole page_count b h =
    let next = hole_next h.mem b.best in
    let cut = b.best + page_count * bytes_per_page in
    let rest = if b.best_remaining == 0 then next else cut in
    let m = if b.best_remaining == 0 then h.mem else write_hole h.mem cut b.best_remaining next in
    if b.best_prev == null
    then record h { mem = m; empty_pages = rest }
    else record h { mem = write m (b.best_prev + 8) rest }

-- allocate_empty_pages; the base is NULL where no hole is large enough.
unfoldable pub allocate_empty_pages : (fuel page_count : ℕ) → Heap → Run (Heap × Ptr)
unfolding search_holes take_hole
allocate_empty_pages fuel page_count h =
    search_holes fuel page_count h.mem null h.empty_pages
      (record { best = null; best_prev = null; best_remaining = h.total_partition_pages + 1 })
    >>= λ b. ok (if b.best == null then h else take_hole page_count b h, b.best)
