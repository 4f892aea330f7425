-- ===== src/Collect.antt =====
-- A whole collection in rtgc.c: flip, the scan of the roots, marking, and recycling. The model
-- runs it as one thread; where other threads act, their part is a parameter.
pub mod Scanners
pub mod Groups
pub mod RootWords
pub mod RootSet
pub mod Cycle
use rtgc.Common.{
  ℕ, zero, suc, ◌+◌, ◌-◌, ◌*◌, ◌/◌, ◌%◌, true, false, not, List, [], ◌∷◌, Run, ok, stopped,
  assertion, fault, out_of_fuel, Option, none, some, guard, ◌>>=◌, ◌>>◌, ltb, ◌==◌, if◌then◌else◌,
}
use rtgc.InfoBits.{Mem, Ptr, sc_custom1}
use rtgc.Group.{flip_group, recycle_group_garbage}
use rtgc.Heap.{Heap, on_group}
use rtgc.Trace.{trace_pointer, scan_memory_segment, scan_object, scan_gray_set}
use rtgc.WriteBarrier.{scan_write_vector}
use rtgc.Coalesce.{coalesce_all_free_pages}
use rtgc.SizeClass.{to_int}

-- THREAD_STATE: where the registers and the stack of a stopped thread are copied.
pub record ThreadState : Type 0 where
  pub registers : Ptr
  pub saved_stack_base : Ptr
  pub saved_stack_size : ℕ

-- What the roots are. A root scanner and the custom scanner are code of the client.
pub record Roots : Type 0 where
  pub saved_threads : List ThreadState
  pub no_write_barrier_state_ptr : Ptr
  pub no_write_barrier_state : ℕ
  pub global_roots : List Ptr
  pub root_scanners : ℕ → Option (Heap → Run Heap)
  pub total_root_scanners : ℕ
  pub custom_scanner : (low high : Ptr) → Heap → Run Heap

-- The loop of flip over the groups, from `i` on.
unfoldable pub flip_groups : ℕ → (group : ℕ) → Heap → Run Heap
unfolding flip_group on_group
flip_groups zero i h = ok h
flip_groups (suc k) i h = on_group i (λ s. ok (flip_group s)) h >>= flip_groups k (i + 1)

-- The part of stop_all_mutators_and_save_state that changes the collector's state, once all
-- threads have entered the signal handler.
unfoldable pub start_cycle : Heap → Heap
start_cycle h = record h {
  enable_write_barrier = true;
  marked_color = h.unmarked_color;
  unmarked_color = h.marked_color;
}

-- flip; `save_state` is what the signal handlers write to memory when they copy registers and
-- stacks.
unfoldable pub flip : (save_state : Mem → Mem) → Heap → Run Heap
unfolding flip_groups start_cycle
flip save_state h = guard (not h.enable_write_barrier) assertion >> flip_groups 20 5 h >>= λ h'.
    let h1 = start_cycle h' in ok (record h1 { mem = save_state h1.mem })

-- scan_saved_registers and scan_saved_stack
unfoldable pub scan_saved_thread_state : ThreadState → Heap → Run Heap
unfolding scan_memory_segment
scan_saved_thread_state t h =
    let top = t.saved_stack_base in
    scan_memory_segment t.registers (t.registers + 23 * 8) h
    >>= scan_memory_segment (top - top % 8) (top + t.saved_stack_size)

unfoldable pub scan_saved_threads : List ThreadState → Heap → Run Heap
unfolding scan_saved_thread_state
scan_saved_threads [] h = ok h
scan_saved_threads (t ∷ ts) h = scan_saved_thread_state t h >>= scan_saved_threads ts

-- scan_threads. The saved state word is not in the heap, so scanning it traces its value.
unfoldable pub scan_threads : Roots → Heap → Run Heap
unfolding scan_saved_threads trace_pointer
scan_threads r h = scan_saved_threads r.saved_threads h >>= λ h'.
    if r.no_write_barrier_state == 0 then ok h' else trace_pointer r.no_write_barrier_state h'

unfoldable pub scan_global_roots : List Ptr → Heap → Run Heap
unfolding trace_pointer
scan_global_roots [] h = ok h
scan_global_roots (root ∷ roots) h = trace_pointer (h.mem root) h >>= scan_global_roots roots

-- The loop of scan_static_space, with fuel for the objects. The `int` in a header is shifted as a
-- number that is not negative, which it is for sizes below 2 ^ 27.
unfoldable pub static_loop :
    (fuel : ℕ) → ((Ptr → ℕ → Heap → Run Heap)) → (next end : Ptr) → Heap → Run Heap
static_loop zero scan next end h = stopped out_of_fuel
static_loop (suc fuel) scan next end h =
    let low = next + 8 in
    let size = to_int (h.mem next) / 16 in
    let rest = scan (low - 16) (size + 16) h >>= static_loop fuel scan (low + size) end in
    if ltb next end then rest else ok h

-- The loop of scan_root_set over the scanners from `i` on; one that is not set is a null pointer.
unfoldable pub run_scanners : ℕ → (i : ℕ) → (ℕ → Option (Heap → Run Heap)) → Heap → Run Heap
run_scanners zero i scanners h = ok h
run_scanners (suc k) i scanners h =
    let rest = run_scanners k (i + 1) scanners in
    elim (scanners i) [ none ↦ stopped fault | some scanner ↦ scanner h >>= rest ]

-- RTregister_root_scanner, which sets the first scanner whatever the count is.
unfoldable pub register_root_scanner : (Heap → Run Heap) → Roots → Roots
register_root_scanner scanner r = record r {
  root_scanners = λ i. if i == 0 then some scanner else r.root_scanners i;
  total_root_scanners = r.total_root_scanners + 1;
}

-- RTregister_custom_scanner, whose value is SC_CUSTOM1.
unfoldable pub register_custom_scanner : ((low high : Ptr) → Heap → Run Heap) → Roots → Roots × ℕ
register_custom_scanner scanner r = (record r { custom_scanner = scanner }, sc_custom1)

-- RTregister_no_write_barrier_state, which ignores the length.
unfoldable pub register_no_write_barrier_state : (start : Ptr) → (len : ℕ) → Roots → Roots
register_no_write_barrier_state start len r = record r { no_write_barrier_state_ptr = start }

-- The part of stop_all_mutators_and_save_state that copies the registered word. The roots that
-- full_gc takes are those after it.
unfoldable pub save_no_write_barrier_state : Heap → Roots → Roots
save_no_write_barrier_state h r =
    if r.no_write_barrier_state_ptr == 0
    then r
    else record r { no_write_barrier_state = h.mem r.no_write_barrier_state_ptr }

module _ (r : Roots) (fuel : ℕ) where
  unfoldable pub scan_static_space : Heap → Run Heap
  unfolding static_loop scan_object
  scan_static_space h =
      static_loop fuel (scan_object r.custom_scanner fuel) h.first_static_ptr h.static_frontier_ptr
        h

  unfoldable pub scan_root_set : Heap → Run Heap
  unfolding scan_threads scan_global_roots scan_static_space run_scanners
  scan_root_set h =
      scan_threads r h
      >>= scan_global_roots r.global_roots
      >>= scan_static_space
      >>= run_scanners r.total_root_scanners 0 r.root_scanners

  -- The loop of full_gc: gray objects and marks of the write barrier, until there are no marks.
  unfoldable pub mark : (rounds : ℕ) → Heap → Run Heap
  unfolding scan_gray_set scan_write_vector
  mark zero h = stopped out_of_fuel
  mark (suc k) h =
      scan_gray_set r.custom_scanner fuel h >>= scan_write_vector >>= λ (h', mark_count).
      (let rest = mark k h' in if ltb 0 mark_count then rest else ok h')

  -- The loop of recycle_all_garbage over the groups, from `i` on.
  unfoldable pub recycle_groups : ℕ → (group : ℕ) → Heap → Run Heap
  unfolding recycle_group_garbage on_group
  recycle_groups zero i h = ok h
  recycle_groups (suc k) i h =
      on_group i (recycle_group_garbage fuel) h >>= recycle_groups k (i + 1)

  unfoldable pub recycle_all_garbage : Heap → Run Heap
  unfolding recycle_groups coalesce_all_free_pages
  recycle_all_garbage h =
      guard (not h.enable_write_barrier) assertion
      >> recycle_groups 20 5 h
      >>= coalesce_all_free_pages fuel

  unfoldable pub full_gc : (save_state : Mem → Mem) → Heap → Run Heap
  unfolding flip scan_root_set mark recycle_all_garbage
  full_gc save_state h = flip save_state h >>= λ h1.
      guard h1.enable_write_barrier assertion >> scan_root_set h1 >>= mark fuel >>= λ h2.
      recycle_all_garbage (record h2 { enable_write_barrier = false }) >>= λ h3.
      ok (record h3 { gc_count = h3.gc_count + 1 })
