-- ===== src/Examples/Tables.antt =====
-- The theorems on threads, times and the finalization ring, at concrete states.
use rtgc.Common.{
  Run, stopped, fault, IsList, ◌+◌, ◌<◌, ◌≡◌, ◌↔◌, refl, [], ◌∷◌, true, none, ok, ◌>>=◌, Returns,
  arith, ◌==◌, if◌then◌else◌,
}
use rtgc.InfoBits.{Ptr}
use rtgc.Threads.{Threads, alloc_thread, make_thread_live, remove_live, free_thread}
use rtgc.Threads.Lists.{make_thread_live-alloc_thread, remove_live-IsList, free_thread_cycle}
use rtgc.Heap.{Heap}
use rtgc.Collect.{Roots, register_root_scanner, run_scanners}
use rtgc.Collect.Scanners.{register_root_scanner_lost}
use rtgc.Examples.Heaps.{one_page}
use rtgc.Util.Time.{
  Timespec, time_diff, time_cmp, nanoseconds, IsNormal, time_diff-nanoseconds, time_cmp-nanoseconds,
}

-- Threads at 100, 200, 300 and 400: the first two live, the others free.
abbrev four_threads : Threads
four_threads = record {
  next = λ t. if t == 100 then 200 else if t == 300 then 400 else 0;
  live_threads = 100;
  free_threads = 300;
  total_threads = 2;
}

make_thread_live-alloc_thread_example :
    Returns {A = Threads × Ptr}
      (λ (t', thread).
        (thread ≡ 300)
        × IsList t'.next t'.free_threads (400 ∷ [])
        × IsList t'.next t'.live_threads (300 ∷ 100 ∷ 200 ∷ [])
        × (t'.total_threads ≡ 3))
      (alloc_thread four_threads >>= λ (t', thread). ok (make_thread_live thread t', thread))
make_thread_live-alloc_thread_example =
    make_thread_live-alloc_thread four_threads 300 (400 ∷ []) (100 ∷ 200 ∷ []) (ground arith)
      (ground arith) (ground arith) (ground arith)

remove_live-IsList_example :
    Returns
      (λ t'.
        IsList t'.next t'.live_threads (100 ∷ [])
        × (t'.free_threads ≡ 300)
        × (t'.total_threads ≡ 2))
      (remove_live 2 200 four_threads)
remove_live-IsList_example =
    remove_live-IsList 2 four_threads 200 (100 ∷ []) [] (omega arith) (ground arith) (ground arith)

free_thread_cycle_example :
    Returns
      (λ t'.
        (t'.next t'.free_threads ≡ 100) × (t'.next 100 ≡ t'.free_threads) × (t'.free_threads ≡ 300))
      (free_thread 0 100 four_threads)
free_thread_cycle_example =
    free_thread_cycle 0 four_threads 100 refl (λ e. omega arith) (λ e. omega arith)

abbrev early : Timespec
early = record { tv_sec = 3; tv_nsec = 999_999_999 }

abbrev late : Timespec
late = record { tv_sec = 4; tv_nsec = 1 }

time_diff-nanoseconds_example :
    IsNormal (time_diff late early)
    × (nanoseconds (time_diff late early) + nanoseconds early ≡ nanoseconds late)
time_diff-nanoseconds_example =
    time_diff-nanoseconds late early (omega arith) (omega arith) (omega arith)

time_cmp-nanoseconds_example : (time_cmp late early ≡ true) ↔ (nanoseconds early < nanoseconds late)
time_cmp-nanoseconds_example = time_cmp-nanoseconds late early (omega arith) (omega arith)

-- No threads, roots or scanners.
abbrev no_roots : Roots
no_roots = record {
  saved_threads = [];
  no_write_barrier_state_ptr = 0;
  no_write_barrier_state = 0;
  global_roots = [];
  root_scanners = λ i. none;
  total_root_scanners = 0;
  custom_scanner = λ low high h. ok h;
}

abbrev count_up : Heap → Run Heap
count_up h = ok (record h { gc_count = h.gc_count + 1 })

register_root_scanner_lost_example :
    (let r1 = register_root_scanner count_up no_roots in
      run_scanners r1.total_root_scanners 0 r1.root_scanners one_page
      ≡ (count_up one_page >>= λ h'. ok h'))
    × (let r2 = register_root_scanner (λ h. ok h) (register_root_scanner count_up no_roots) in
        run_scanners r2.total_root_scanners 0 r2.root_scanners one_page ≡ stopped fault)
register_root_scanner_lost_example =
    register_root_scanner_lost no_roots count_up (λ h. ok h) one_page refl (λ i. refl)
