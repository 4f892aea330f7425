-- ===== src/Coalesce.antt =====
-- rtcoalesce.c: pages whose objects are all free are given back as holes, and adjacent holes are
-- merged. verify_heap is in Inspect.antt, RTroom in Room.antt.
pub mod Pages
use rtgc.Common.{
  ℕ, zero, suc, ◌+◌, ◌-◌, ◌/◌, Bool, true, false, not, ◌&&◌, Option, none, some, Run, ok, stopped,
  assertion, out_of_fuel, guard, ◌>>=◌, ◌>>◌, leb, ltb, ◌==◌, if◌then◌else◌,
}
use rtgc.InfoBits.{Mem, Ptr, null, write, greenp}
use rtgc.Group.{remove_object_from_free_list, GroupState}
use rtgc.Heap.{
  Heap, Page, PageGroup, empty_page, free_page, system_page, external_page, group_page,
  heap_segment, bytes_per_page, ptr_to_page_index, page_index_to_ptr, in_group, group_state,
  put_group_state,
}
use rtgc.Pages.{init_empty_pages, hole_page_count, hole_next}

abbrev is_free_page : PageGroup → Bool
is_free_page free_page = true
is_free_page empty_page = false
is_free_page system_page = false
is_free_page external_page = false
is_free_page (group_page i) = false

abbrev pub is_empty_page : PageGroup → Bool
is_empty_page empty_page = true
is_empty_page free_page = false
is_empty_page system_page = false
is_empty_page external_page = false
is_empty_page (group_page i) = false

-- The state of coalesce_free_pages: the first page and the length of the run of free pages.
unfoldable pub close_hole : Option (ℕ × ℕ) → Heap → Run Heap
unfolding init_empty_pages
close_hole none h = ok h
close_hole (some (hole, page_count)) h = init_empty_pages hole page_count heap_segment h

unfoldable pub extend_hole : (page : ℕ) → Option (ℕ × ℕ) → Option (ℕ × ℕ)
extend_hole page none = some (page, 1)
extend_hole page (some (hole, page_count)) = some (hole, page_count + 1)

-- The loop over the pages that are left.
unfoldable pub coalesce_from : ℕ → (next_page : ℕ) → Option (ℕ × ℕ) → Heap → Run Heap
unfolding close_hole extend_hole
coalesce_from zero next_page hole h = close_hole hole h
coalesce_from (suc k) next_page hole h =
    let longer = coalesce_from k (next_page + 1) (extend_hole next_page hole) h in
    let closed = close_hole hole h >>= coalesce_from k (next_page + 1) none in
    if is_free_page (h.pages next_page).group then longer else closed

unfoldable pub coalesce_free_pages : Heap → Run Heap
unfolding coalesce_from
coalesce_free_pages h = coalesce_from h.total_partition_pages 0 none h

-- all_green_page, with the objects of the page that are left.
all_green_from : ℕ → (size : ℕ) → (next_object : Ptr) → Mem → Bool
all_green_from zero size next_object m = true
all_green_from (suc k) size next_object m =
    greenp m next_object && all_green_from k size (next_object + size) m

unfoldable pub all_green_page : (page group : ℕ) → Heap → Bool
unfolding all_green_from page_index_to_ptr
all_green_page page i h =
    let size = (h.groups i).size in
    all_green_from ((bytes_per_page + size - 1) / size) size (page_index_to_ptr h page) h.mem

remove_objects : ℕ → (size : ℕ) → (next : Ptr) → GroupState → GroupState
unfolding remove_object_from_free_list
remove_objects zero size next s = s
remove_objects (suc k) size next s =
    remove_objects k size (next + size) (remove_object_from_free_list next s)

abbrev set_page : (ℕ → Page) → ℕ → Page → ℕ → Page
set_page pages i p j = if j == i then p else pages j

-- The page is looked at twice, without and with the lock; nothing changes in between here.
unfoldable pub identify_single_free_page : (page group : ℕ) → Heap → Heap
unfolding all_green_page remove_objects page_index_to_ptr
identify_single_free_page page i h =
    let size = (h.groups i).size in
    let s =
      remove_objects (bytes_per_page / size) size (page_index_to_ptr h page) (group_state i h) in
    let h' = put_group_state i h s in
    if all_green_page page i h
    then record h' { pages = set_page h'.pages page (record (h'.pages page) { group = free_page }) }
    else h

-- The pages of a large object become free.
unfoldable pub free_pages : (first count : ℕ) → (ℕ → Page) → ℕ → Page
free_pages first count pages j =
    if leb first j && ltb j (first + count)
    then record { base = null; group = free_page }
    else pages j

-- identify_multiple_free_pages; the result has the page of the object's base.
unfoldable pub identify_multiple_free_pages : (page group : ℕ) → Heap → Run (Heap × ℕ)
unfolding remove_object_from_free_list page_index_to_ptr ptr_to_page_index free_pages
identify_multiple_free_pages page i h =
    let gcptr = page_index_to_ptr h page in
    let base = (h.pages page).base in
    let h' = put_group_state i h (remove_object_from_free_list gcptr (group_state i h)) in
    let num_pages = (h.groups i).size / bytes_per_page in
    if base == gcptr
    then ok (
      (if greenp h.mem gcptr then record h' { pages = free_pages page num_pages h'.pages } else h),
      page,
    )
    else guard (ltb base gcptr) assertion >> ok (h, ptr_to_page_index h base)

-- The loop of identify_free_pages, with fuel for its rounds.
unfoldable pub identify_from : (fuel page : ℕ) → Heap → Run Heap
unfolding identify_single_free_page identify_multiple_free_pages
identify_from zero page h = stopped out_of_fuel
identify_from (suc fuel) page h =
    let next : Run Heap = elim (in_group (h.pages page).group) [
      | none ↦ identify_from fuel (page + 1) h
      | some i ↦
          let large = identify_multiple_free_pages page i h >>= λ (h', page').
          identify_from fuel (page' + (h'.groups i).size / bytes_per_page) h' in
          let small = identify_from fuel (page + 1) (identify_single_free_page page i h) in
          if leb (h.groups i).size bytes_per_page then small else large
    ] in
    if ltb page h.total_partition_pages then next else ok h

unfoldable pub identify_free_pages : Heap → Run Heap
unfolding identify_from
identify_free_pages h = identify_from (h.total_partition_pages + 1) 0 h

-- The inner loop of merge_adjacent_holes: the hole at `next` takes over the holes behind it.
unfoldable pub merge_hole : (fuel : ℕ) → (next : Ptr) → (merge_count : ℕ) → Heap → Run (Heap × ℕ)
unfolding ptr_to_page_index page_index_to_ptr write
merge_hole zero next merge_count h = stopped out_of_fuel
merge_hole (suc fuel) next merge_count h =
    let end_page = ptr_to_page_index h next + hole_page_count h.mem next in
    let adjacent = page_index_to_ptr h end_page in
    let m = write h.mem next (hole_page_count h.mem next + hole_page_count h.mem adjacent) in
    let merged = merge_hole fuel next (merge_count + 1) (record h { mem = write m adjacent 0 }) in
    if ltb end_page h.total_partition_pages && is_empty_page (h.pages end_page).group
    then merged
    else ok (h, merge_count)

-- Its outer loop over the list of holes; merged holes have no pages and are passed over.
unfoldable pub merge_holes : (fuel : ℕ) → (next : Ptr) → (merge_count : ℕ) → Heap → Run (Heap × ℕ)
unfolding merge_hole
merge_holes zero next merge_count h = stopped out_of_fuel
merge_holes (suc fuel) next merge_count h =
    let merged : Run (Heap × ℕ) =
      if ltb 0 (hole_page_count h.mem next)
      then merge_hole (h.total_partition_pages + 1) next merge_count h
      else ok (h, merge_count) in
    let rest = merged >>= λ (h', n). merge_holes fuel (hole_next h'.mem next) n h' in
    if next == null then ok (h, merge_count) else rest

-- The loop of delete_merged_holes.
unfoldable pub delete_from : (fuel delete_count : ℕ) → (prev next : Ptr) → Heap → Run (Heap × ℕ)
unfolding write
delete_from zero delete_count prev next h = stopped out_of_fuel
delete_from (suc fuel) delete_count prev next h =
    let after = hole_next h.mem next in
    let first = delete_from fuel (delete_count - 1) prev after (record h { empty_pages = after }) in
    let inner =
      delete_from fuel (delete_count - 1) prev after
        (record h { mem = write h.mem (prev + 8) after }) in
    let kept = delete_from fuel delete_count next after h in
    if ltb 0 delete_count && not (next == null)
    then (if hole_page_count h.mem next == 0 then (if prev == null then first else inner) else kept)
    else ok (h, delete_count)

unfoldable pub delete_merged_holes : (fuel delete_count : ℕ) → Heap → Run Heap
unfolding delete_from
delete_merged_holes fuel delete_count h =
    delete_from fuel delete_count null h.empty_pages h >>= λ (h', left).
    guard (left == 0) assertion >> ok h'

unfoldable pub merge_adjacent_holes : (fuel : ℕ) → Heap → Run Heap
unfolding merge_holes delete_merged_holes
merge_adjacent_holes fuel h = merge_holes fuel h.empty_pages 0 h >>= λ (h', merge_count).
    delete_merged_holes fuel merge_count h'

-- `fuel` bounds the holes of the list.
unfoldable pub coalesce_all_free_pages : (fuel : ℕ) → Heap → Run Heap
unfolding identify_free_pages coalesce_free_pages merge_adjacent_holes
coalesce_all_free_pages fuel h =
    identify_free_pages h >>= coalesce_free_pages >>= merge_adjacent_holes fuel
