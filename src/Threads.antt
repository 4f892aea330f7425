-- ===== src/Threads.antt =====
-- The thread table of rtalloc.c: init_mutator_threads, alloc_thread, make_thread_live and
-- free_thread on the `next` links of THREAD_INFO, and the list of global roots.
pub mod Lists
use rtgc.Common.{
  ℕ, zero, suc, ◌+◌, ◌-◌, ◌*◌, List, Run, ok, stopped, debugger, fault, out_of_fuel, ◌>>=◌, ltb,
  ◌==◌, if◌then◌else◌,
}
use rtgc.InfoBits.{Ptr, null}

-- MAX_THREADS and MAX_GLOBAL_ROOTS
abbrev pub max_threads : ℕ
max_threads = 20

abbrev pub max_global_roots : ℕ
max_global_roots = 1000

pub record Threads : Type 0 where
  pub next : Ptr → Ptr
  pub live_threads : Ptr
  pub free_threads : Ptr
  pub total_threads : ℕ

abbrev pub set_thread : (Ptr → Ptr) → Ptr → Ptr → Ptr → Ptr
set_thread next t v u = if u == t then v else next u

-- The loop of init_mutator_threads; `threads` is the table and `size` the size of an entry.
link_threads : ℕ → (threads size i : ℕ) → (Ptr → Ptr) → Ptr → Ptr
link_threads zero threads size i next = next
link_threads (suc k) threads size i next =
    link_threads k threads size (i + 1)
      (set_thread next (threads + i * size) (threads + (i + 1) * size))

unfoldable pub init_mutator_threads : (threads size : ℕ) → Threads → Threads
unfolding link_threads
init_mutator_threads threads size t =
    let last_thread_index = max_threads - 1 in
    record t {
      next =
          set_thread (link_threads last_thread_index threads size 0 t.next)
            (threads + last_thread_index * size) null;
      free_threads = threads;
      live_threads = null;
    }

unfoldable pub alloc_thread : Threads → Run (Threads × Ptr)
alloc_thread t =
    if t.free_threads == null
    then stopped debugger
    else ok (record t { free_threads = t.next t.free_threads }, t.free_threads)

unfoldable pub make_thread_live : Ptr → Threads → Threads
make_thread_live thread t = record t {
  next = set_thread t.next thread t.live_threads;
  live_threads = thread;
  total_threads = t.total_threads + 1;
}

-- The search of free_thread for the thread before the one that ends. It reads past the end of a
-- list that does not hold the thread.
unfoldable pub find_before : (fuel : ℕ) → (thread prev target : Ptr) → (Ptr → Ptr) → Run Ptr
find_before zero thread prev target next = stopped out_of_fuel
find_before (suc fuel) thread prev target next =
    let rest = find_before fuel thread target (next target) next in
    if target == thread then ok prev else if target == null then stopped fault else rest

-- The thread leaves the live list.
unfoldable pub remove_live : (fuel : ℕ) → Ptr → Threads → Run Threads
unfolding find_before
remove_live fuel thread t =
    if thread == t.live_threads
    then ok (record t { live_threads = t.next t.live_threads })
    else find_before fuel thread null t.live_threads t.next >>= λ prev.
        ok (record t { next = set_thread t.next prev (t.next thread) })

-- free_thread, as it is written: the entry is linked behind the first free one, `free_threads`
-- itself is not set, and with no free entry it writes through NULL.
unfoldable pub free_thread : (fuel : ℕ) → Ptr → Threads → Run Threads
unfolding remove_live
free_thread fuel thread t = remove_live fuel thread t >>= λ t'.
    if t'.free_threads == null
    then stopped fault
    else ok (record t' {
      next = set_thread (set_thread t'.next thread t'.free_threads) t'.free_threads thread;
      total_threads = t'.total_threads - 1;
    })

-- register_global_root, on the roots registered so far and their number.
pub record GlobalRoots : Type 0 where
  pub global_roots : ℕ → Ptr
  pub total_global_roots : ℕ

unfoldable pub register_global_root : Ptr → GlobalRoots → Run GlobalRoots
register_global_root root g =
    if g.total_global_roots == max_global_roots
    then stopped debugger
    else ok (record g {
      global_roots = set_thread g.global_roots g.total_global_roots root;
      total_global_roots = g.total_global_roots + 1;
    })
