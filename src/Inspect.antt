-- ===== src/Inspect.antt =====
-- The checks of the collector's own state that change nothing: verify_white_count and
-- verify_white_counts (rtutil.c) and verify_heap (rtcoalesce.c). The locks that verify_heap takes
-- are not state of the model.
pub mod Whites
pub mod Pages
use rtgc.Common.{
  ℕ, zero, suc, ◌+◌, ◌/◌, ◌%◌, Bool, true, false, not, ◌&&◌, ◌||◌, none, some, Run, ok, stopped,
  debugger, assertion, out_of_fuel, guard, ◌>>=◌, ◌>>◌, leb, ltb, ◌==◌, if◌then◌else◌,
}
use rtgc.InfoBits.{Mem, Ptr, null, prev_link, next_link}
use rtgc.Group.{GroupState}
use rtgc.Heap.{Heap, group_state, in_group, page_index_to_ptr, bytes_per_page}

-- The test on the links of a white object of a group of small objects.
abbrev bad_links : Mem → (size : ℕ) → Ptr → Bool
bad_links m size ptr =
    ltb size bytes_per_page
    && (not (prev_link m ptr % size == 0) || not (next_link m ptr % size == 0))

-- The loop of verify_white_count, with fuel for the white objects.
unfoldable pub count_whites : (fuel : ℕ) → (size : ℕ) → Ptr → (count : ℕ) → Mem → Run ℕ
count_whites zero size ptr count m = stopped out_of_fuel
count_whites (suc fuel) size ptr count m =
    let rest = count_whites fuel size (next_link m ptr) (count + 1) m in
    if ptr == null then ok count else if bad_links m size ptr then stopped debugger else rest

unfoldable pub verify_white_count : (fuel : ℕ) → GroupState → Run (Unit {0})
unfolding count_whites
verify_white_count fuel s = count_whites fuel s.group.size s.group.white 0 s.mem >>= λ count.
    guard (s.group.white_count == count) debugger

-- verify_white_counts, over the groups from `i` on.
unfoldable pub verify_white_counts : (fuel : ℕ) → ℕ → (i : ℕ) → Heap → Run (Unit {0})
unfolding verify_white_count
verify_white_counts fuel zero i h = ok tt
verify_white_counts fuel (suc k) i h =
    verify_white_count fuel (group_state i h) >> verify_white_counts fuel k (i + 1) h

-- The assertion of verify_heap on a word of a large object's header.
abbrev verify_link : Heap → ℕ → Run (Unit {0})
verify_link h link = guard (leb link 16 || leb h.first_partition_ptr link) assertion

-- The loop of verify_heap from `page` on, with fuel for the rounds.
unfoldable pub verify_pages : (fuel : ℕ) → (page : ℕ) → Heap → Run (Unit {0})
unfolding page_index_to_ptr
verify_pages zero page h = stopped out_of_fuel
verify_pages (suc fuel) page h =
    let base = page_index_to_ptr h page in
    let next = verify_pages fuel (page + 1) h in
    let round : Run (Unit {0}) = elim (in_group (h.pages page).group) [
      | none ↦ next
      | some i ↦
          let size = (h.groups i).size in
          let large =
            verify_link h (h.mem base)
            >> verify_link h (h.mem (base + 8))
            >> verify_pages fuel (page + size / bytes_per_page) h in
          if leb size bytes_per_page then next else large
    ] in
    if ltb page h.total_partition_pages then round else ok tt

unfoldable pub verify_heap : (fuel : ℕ) → Heap → Run (Unit {0})
unfolding verify_pages
verify_heap fuel h = verify_pages fuel 0 h
