-- ===== src/Concurrent/Roots.antt =====
-- scan_root_set of rtgc.c, and the rest of full_gc up to recycling, while mutators run.
use rtgc.Common.{
  ℕ, zero, suc, ◌+◌, ◌-◌, ◌*◌, ◌/◌, ◌%◌, false, List, [], ◌∷◌, Run, ok, stopped, fault, out_of_fuel,
  assertion, guard, ◌>>◌, Option, none, some, ◌>>=◌, ltb, ◌==◌, if◌then◌else◌,
}
use rtgc.InfoBits.{Mem, Ptr}
use rtgc.SizeClass.{to_int}
use rtgc.Heap.{Heap}
use rtgc.Trace.{trace_pointer}
use rtgc.Collect.{ThreadState, Roots, flip, recycle_groups}
use rtgc.Concurrent.{Store, Shared, step, scan_memory_segment, scan_object, mark}

-- scan_saved_registers and scan_saved_stack
unfoldable pub scan_saved_thread_state : ThreadState → Shared → Run Shared
unfolding scan_memory_segment
scan_saved_thread_state t s =
    let top = t.saved_stack_base in
    scan_memory_segment t.registers (t.registers + 23 * 8) s
    >>= scan_memory_segment (top - top % 8) (top + t.saved_stack_size)

unfoldable pub scan_saved_threads : List ThreadState → Shared → Run Shared
unfolding scan_saved_thread_state
scan_saved_threads [] s = ok s
scan_saved_threads (t ∷ ts) s = scan_saved_thread_state t s >>= scan_saved_threads ts

-- The saved state word is not in the heap, so scanning it traces its value.
unfoldable pub scan_threads : Roots → Shared → Run Shared
unfolding scan_saved_threads step trace_pointer
scan_threads r s = scan_saved_threads r.saved_threads s >>= λ s'.
    if r.no_write_barrier_state == 0
    then ok s'
    else step (λ h. trace_pointer r.no_write_barrier_state h) s'

unfoldable pub scan_global_roots : List Ptr → Shared → Run Shared
unfolding step trace_pointer
scan_global_roots [] s = ok s
scan_global_roots (root ∷ roots) s =
    step (λ h. trace_pointer (h.mem root) h) s >>= scan_global_roots roots

-- The loop of scan_static_space, with fuel for the objects.
unfoldable pub static_loop :
    (fuel : ℕ) → (Ptr → ℕ → Shared → Run Shared) → (next end : Ptr) → Shared → Run Shared
static_loop zero scan next end s = stopped out_of_fuel
static_loop (suc fuel) scan next end s =
    let low = next + 8 in
    let size = to_int (s.heap.mem next) / 16 in
    let rest = scan (low - 16) (size + 16) s >>= static_loop fuel scan (low + size) end in
    if ltb next end then rest else ok s

-- The loop over the root scanners from `i` on, each a single step.
unfoldable pub run_scanners : ℕ → (i : ℕ) → (ℕ → Option (Heap → Run Heap)) → Shared → Run Shared
unfolding step
run_scanners zero i scanners s = ok s
run_scanners (suc k) i scanners s =
    let rest = run_scanners k (i + 1) scanners in
    elim (scanners i) [ none ↦ stopped fault | some scanner ↦ step scanner s >>= rest ]

module _ (r : Roots) (fuel : ℕ) where
  unfoldable pub scan_static_space : Shared → Run Shared
  unfolding static_loop scan_object
  scan_static_space s =
      static_loop fuel (scan_object r.custom_scanner fuel) s.heap.first_static_ptr
        s.heap.static_frontier_ptr s

  unfoldable pub scan_root_set : Shared → Run Shared
  unfolding scan_threads scan_global_roots scan_static_space run_scanners
  scan_root_set s =
      scan_threads r s
      >>= scan_global_roots r.global_roots
      >>= scan_static_space
      >>= run_scanners r.total_root_scanners 0 r.root_scanners

  -- full_gc from the scan of the roots to the recycling of the groups. No store is modelled while
  -- garbage is recycled.
  unfoldable pub collect : Shared → Run Heap
  unfolding scan_root_set mark recycle_groups
  collect s = scan_root_set s >>= mark r.custom_scanner fuel fuel >>= λ s'.
      recycle_groups r fuel 20 5 (record s'.heap { enable_write_barrier = false })

  -- full_gc up to the coalescing of free pages; `save_state` is what the signal handlers write.
  unfoldable pub cycle : (save_state : Mem → Mem) → (schedule : List (List Store)) → Heap → Run Heap
  unfolding flip collect
  cycle save_state schedule h = flip save_state h >>= λ h1.
      guard h1.enable_write_barrier assertion >> collect (record { heap = h1; schedule = schedule })
