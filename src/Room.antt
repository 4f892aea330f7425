-- ===== src/Room.antt =====
-- RTroom and the sums of RTroom_print (rtcoalesce.c): what the pages of the partition hold. The
-- locks that RTroom takes are not state of the model, and the text that is printed is not either.
pub mod Totals
pub mod Conserved
use rtgc.Common.{
  ℕ, zero, suc, ◌+◌, ◌*◌, ◌/◌, Bool, true, false, ◌||◌, none, some, Run, ok, stopped, debugger,
  out_of_fuel, leb, ltb, ◌==◌, if◌then◌else◌,
}
use rtgc.InfoBits.{Mem, Ptr, greenp}
use rtgc.Heap.{Heap, in_group, page_index_to_ptr, bytes_per_page}
use rtgc.Coalesce.{is_empty_page}

-- The counters of RTroom.
pub record Room : Type 0 where
  pub green_count : ℕ → ℕ
  pub alloc_count : ℕ → ℕ
  pub hole_counts : ℕ → ℕ

abbrev pub add_at : (ℕ → ℕ) → ℕ → ℕ → ℕ → ℕ
add_at f i n j = if j == i then f j + n else f j

-- The loop over the objects of a page: how many of those left are green, and how many are not.
unfoldable pub green_objects : ℕ → (size : ℕ) → (next : Ptr) → Mem → ℕ
green_objects zero size next m = 0
green_objects (suc k) size next m =
    (if greenp m next then 1 else 0) + green_objects k size (next + size) m

unfoldable pub alloc_objects : ℕ → (size : ℕ) → (next : Ptr) → Mem → ℕ
alloc_objects zero size next m = 0
alloc_objects (suc k) size next m =
    (if greenp m next then 0 else 1) + alloc_objects k size (next + size) m

-- The end of a run of empty pages.
abbrev pub close_run : (hole_len : ℕ) → Room → Room
close_run hole_len r =
    if ltb 0 hole_len then record r { hole_counts = add_at r.hole_counts hole_len 1 } else r

abbrev pub add_objects_of : (group green alloc : ℕ) → Room → Room
add_objects_of i green alloc r = record r {
  green_count = add_at r.green_count i green;
  alloc_count = add_at r.alloc_count i alloc;
}

-- A page of small objects, and the pages of a large one.
abbrev pub count_small : (page group : ℕ) → Heap → Room → Room
count_small page i h r =
    let size = (h.groups i).size in
    let next = page_index_to_ptr h page in
    let object_count = bytes_per_page / size in
    add_objects_of (h.groups i).index (green_objects object_count size next h.mem)
      (alloc_objects object_count size next h.mem) r

abbrev pub count_large : (page group : ℕ) → Heap → Room → Room
count_large page i h r =
    let green = greenp h.mem (page_index_to_ptr h page) in
    add_objects_of (h.groups i).index (if green then 1 else 0) (if green then 0 else 1) r

-- The loop over the pages, with fuel for its rounds.
unfoldable pub room_from : (fuel : ℕ) → (page hole_len : ℕ) → Heap → Room → Run Room
unfolding green_objects alloc_objects page_index_to_ptr
room_from zero page hole_len h r = stopped out_of_fuel
room_from (suc fuel) page hole_len h r =
    let group = (h.pages page).group in
    let longer = room_from fuel (page + 1) (hole_len + 1) h r in
    let round : Run Room = elim (in_group group) [
      | none ↦ if is_empty_page group then longer else stopped debugger
      | some i ↦
          let size = (h.groups i).size in
          let closed = close_run hole_len r in
          let small = room_from fuel (page + 1) 0 h (count_small page i h closed) in
          let large =
            room_from fuel (page + size / bytes_per_page) 0 h (count_large page i h closed) in
          if leb size bytes_per_page then small else large
    ] in
    if ltb page h.total_partition_pages then round else ok (close_run hole_len r)

unfoldable pub room : (fuel : ℕ) → Heap → Run Room
unfolding room_from
room fuel h =
    room_from fuel 0 0 h
      (record { green_count = λ i. 0; alloc_count = λ i. 0; hole_counts = λ i. 0 })

-- The sums of RTroom_print: the pages of the holes, and the bytes of the groups from `i` on.
unfoldable pub empty_pages_from : ℕ → (i : ℕ) → (ℕ → ℕ) → ℕ
empty_pages_from zero i hole_counts = 0
empty_pages_from (suc k) i hole_counts = hole_counts i * i + empty_pages_from k (i + 1) hole_counts

unfoldable pub committed_from : ℕ → (i : ℕ) → Heap → Room → ℕ
committed_from zero i h r = 0
committed_from (suc k) i h r =
    (if ltb 0 (r.green_count i) || ltb 0 (r.alloc_count i)
      then (r.alloc_count i + r.green_count i) * (h.groups i).size
      else 0)
    + committed_from k (i + 1) h r

unfoldable pub total_hole_and_committed_bytes : Heap → Room → ℕ
unfolding empty_pages_from committed_from
total_hole_and_committed_bytes h r =
    empty_pages_from (h.total_partition_pages + 1) 0 r.hole_counts * bytes_per_page
    + committed_from 20 5 h r
