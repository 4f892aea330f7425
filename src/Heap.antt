-- ===== src/Heap.antt =====
-- The collector's global state (rtglobals.c and mem-internals.h): memory, the groups, the page
-- table, the bounds of the partition and of the static segment, the write vector and the flags of
-- a cycle. Locks, threads and statistics are not part of it; Threads.antt has the thread lists.
pub mod Interior
pub mod Groups
pub mod Each
pub mod Target
pub mod Valid
pub mod Written
pub mod Steps
use rtgc.Common.{
  ℕ, zero, suc, ◌+◌, ◌-◌, ◌*◌, ◌/◌, ◌%◌, ◌^◌, Bool, true, false, ◌&&◌, Option, none, some, List,
  Run, ok, stopped, fault, debugger, ◌>>=◌, leb, ltb, ◌==◌, if◌then◌else◌,
}
use rtgc.Common.Bits.{and_not}
use rtgc.InfoBits.{Mem, Ptr, get_color}
use rtgc.Group.{Group, GroupState}

-- The `group` field of a page: one of the four marks, or a pointer into `groups`, given by index.
pub data PageGroup : Type 0 where
  empty_page free_page system_page external_page : PageGroup
  group_page : ℕ → PageGroup

pub record Page : Type 0 where
  pub base : Ptr
  pub group : PageGroup

pub data SegmentType : Type 0 where
  heap_segment static_segment : SegmentType

pub record Segment : Type 0 where
  pub first_segment_ptr : Ptr
  pub last_segment_ptr : Ptr
  pub segment_page_count : ℕ
  pub type : SegmentType

pub record Heap : Type 0 where
  pub mem : Mem
  pub groups : ℕ → Group
  pub pages : ℕ → Page
  pub empty_pages : Ptr
  pub first_partition_ptr : Ptr
  pub last_partition_ptr : Ptr
  pub total_partition_pages : ℕ
  pub segments : ℕ → Segment
  pub total_segments : ℕ
  pub first_static_ptr : Ptr
  pub last_static_ptr : Ptr
  pub static_frontier_ptr : Ptr
  pub write_vector : ℕ → ℕ
  pub write_vector_length : ℕ
  pub marked_color : ℕ
  pub unmarked_color : ℕ
  pub enable_write_barrier : Bool
  pub gc_count : ℕ

-- BYTES_PER_PAGE, GC_POINTER_ALIGNMENT and INTERIOR_PTR_RETENTION_LIMIT
abbrev pub bytes_per_page : ℕ
bytes_per_page = 4096

abbrev pub gc_pointer_alignment : ℕ
gc_pointer_alignment = 8

abbrev pub interior_ptr_retention_limit : ℕ
interior_ptr_retention_limit = 512

-- IN_PARTITION, PTR_TO_PAGE_INDEX and PAGE_INDEX_TO_PTR
unfoldable pub in_partition : Heap → Ptr → Bool
in_partition h ptr = leb h.first_partition_ptr ptr && ltb ptr h.last_partition_ptr

unfoldable pub ptr_to_page_index : Heap → Ptr → ℕ
ptr_to_page_index h ptr = (ptr - h.first_partition_ptr) / bytes_per_page

unfoldable pub page_index_to_ptr : Heap → ℕ → Ptr
page_index_to_ptr h page_index = h.first_partition_ptr + page_index * bytes_per_page

-- PAGE_GROUP, and IN_HEAP as the group that it finds
unfoldable pub page_group : Heap → Ptr → PageGroup
unfolding in_partition ptr_to_page_index
page_group h ptr =
    if in_partition h ptr then (h.pages (ptr_to_page_index h ptr)).group else external_page

abbrev pub in_group : PageGroup → Option ℕ
in_group empty_page = none
in_group free_page = none
in_group system_page = none
in_group external_page = none
in_group (group_page i) = some i

-- WHITEP
abbrev pub whitep : Heap → Ptr → Bool
whitep h p = get_color h.mem p == h.unmarked_color

-- A step of the group with the given index.
abbrev pub set_group : (ℕ → Group) → ℕ → Group → ℕ → Group
set_group groups i g j = if j == i then g else groups j

abbrev pub group_state : ℕ → Heap → GroupState
group_state i h = record { mem = h.mem; group = h.groups i }

abbrev pub put_group_state : ℕ → Heap → GroupState → Heap
put_group_state i h s = record h { mem = s.mem; groups = set_group h.groups i s.group }

unfoldable pub on_group : ℕ → (GroupState → Run GroupState) → Heap → Run Heap
on_group i f h = do s ← f (group_state i h); ok (put_group_state i h s)

-- valid_interior_ptr. The difference is never negative where it is called.
unfoldable pub valid_interior_ptr : (gcptr interior_ptr : Ptr) → Bool
valid_interior_ptr gcptr interior_ptr =
    ltb (interior_ptr - gcptr) (interior_ptr_retention_limit + 16)

-- interior_to_gcptr_3
unfoldable pub interior_to_gcptr_3 : Ptr → Page → Group → Ptr
interior_to_gcptr_3 ptr page group =
    if leb bytes_per_page group.size then page.base else and_not ptr (2 ^ group.index - 1)

-- interior_to_gcptr. On a page with no group the C code calls the debugger and then returns an
-- uninitialized value; the run ends with that call.
unfoldable pub interior_to_gcptr : Heap → Ptr → Run Ptr
unfolding ptr_to_page_index interior_to_gcptr_3
interior_to_gcptr h ptr =
    let page = h.pages (ptr_to_page_index h ptr) in
    elim (in_group page.group) [
      | some i ↦ ok (interior_to_gcptr_3 ptr page (h.groups i))
      | none ↦ stopped debugger
    ]
