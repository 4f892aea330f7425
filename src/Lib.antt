-- ===== src/Lib.antt =====
-- A model of rtgc, a real-time, non-moving garbage collector in C: mark and sweep with snapshots
-- at the flip, size classes, colors in the low bits of links, and a bit vector for the write
-- barrier.
--
-- Parts of the program and the files that model them:
--   InfoBits    info-bits.h: link words with a pointer and info bits, colors, storage classes.
--   Chain       the guarded writes to links in rtgc.c and rtcoalesce.c, and doubly linked chains.
--   Group       GROUP_INFO of mem-internals.h and every operation on the lists of one group:
--               RTmake_object_gray, flip and recycle_group_garbage (rtgc.c), the parts of
--               RTallocate and init_pages_for_group on the group (rtalloc.c) and
--               remove_object_from_free_list (rtcoalesce.c). Group/View has the abstract group,
--               four lists, and the relation to fields, links, colors and counts.
--   SizeClass   size_to_group_index, init_group_info and allocation_group of rtalloc.c.
--   Heap        the globals of rtglobals.c as a record, the page table macros of mem-internals.h,
--               interior pointers of rtgc.c. Heap/Groups has all groups at once, Heap/Target what
--               a word points to, Heap/Valid the invariant of the whole heap, and Heap/Written a
--               heap in which words at no header change.
--   Trace       the scans of rtgc.c up to scan_gray_set, on any word (Trace/Words), on segments
--               and objects (Trace/Segments), on a group (Trace/Blacken, Trace/GraySet) and over
--               all passes (Trace/Finish). Trace/Reach defines what can be reached from words.
--   WriteBarrier  RTwrite_barrier, RTmemcpy, RTmemset and the write vector of rtgc.c,
--               atomic-booleans.s.
--   Pages       pages, segments and holes of rtalloc.c.
--   Allocate    init_pages_for_group, RTallocate and RTstatic_allocate of rtalloc.c.
--   Init        RTinit_heap of rtalloc.c.
--   Coalesce    rtcoalesce.c: free pages become holes, adjacent holes are merged. Coalesce/Pages has
--               the page of small objects that are all free.
--   Collect     registered scanners, flip, the root set and full_gc of rtgc.c; Collect/Cycle puts
--               roots, marking and recycling together.
--   Stop        stop_all_mutators_and_save_state and the signal handler of rtstop.c, as steps that
--               the collector and the threads make in any order.
--   Inspect     verify_white_counts of rtutil.c and verify_heap of rtcoalesce.c.
--   Room        RTroom of rtcoalesce.c and the sums of RTroom_print.
--   Concurrent  the scan of the roots, marking and the write vector of rtgc.c while mutators call
--               RTwrite_barrier. Concurrent/Snapshot has the invariant against the heap at the
--               start, Concurrent/Stores the mutators (Concurrent/Copy has RTmemcpy and RTmemset),
--               Concurrent/Cycle and Concurrent/FullGc the whole collection.
--   Threads     the thread table and the global roots of rtalloc.c.
--   Util        times, counters and the finalization ring of rtutil.c.
--   Common      shared helpers; Examples applies the theorems to concrete states.
--
-- State and operations. Memory is a function from byte addresses to words (`long`s), of which
-- those at multiples of 8 are the words of the program. An operation takes the state and returns
-- the new one in Run, which is stopped at an assertion that fails, at a call of Debugger (which
-- raises SIGSTOP) or out_of_memory, at undefined behavior, or where a loop has no fuel left.
-- Operations on a group take a GroupState, the memory and the group, and `on_group` applies them to
-- a group of the heap, so Trace, Allocate, Coalesce and Collect call them as the C code does.
--
-- A valid heap, in the results below, is IsHeap of Heap/Valid: every group represents its lists
-- (IsGroup of Group/View) and no object is in two groups; the colors are 0 and 1; a word that the
-- page table takes to an object is taken to one of the lists; no word behind the header of an
-- object is the header of another one; no object has metadata (SC_METADATA).
--
-- Mutators. A schedule lists the calls of RTwrite_barrier that come before each of the collector's
-- next steps; every list is allowed. A step of the collector traces one word, turns one object
-- black or examines one word or one bit of the write vector, and a call of RTwrite_barrier is one
-- step. Stores to memory that the collector does not read need no place in the schedule.
--
-- Bounds and fuel. Addresses and counts are natural numbers; sizes in allocation_group are 32-bit
-- patterns with their wrap-around. size_to_group_index runs with fuel 33, more than the bits of
-- an int; identify_from and merge_hole run with fuel for all pages of the partition; other loops
-- take their fuel as an argument, and a theorem about such a loop says how much is enough.
--
-- Not modelled: locks, and the interleaving of threads (an operation is one step) but for the
-- handshake of rtstop.c and for stores while the collector scans and marks; so not allocation
-- while it does, nor stores while it recycles. Further the creation of threads, output, the byte
-- version of the write barrier, which is not compiled, a.c, sigtime.c and wbcheck. What mmap and pthread_kill return, what other threads do while an
-- allocation waits, what the handlers write when they save a thread, the code of the root scanners
-- and of the custom scanner, memcpy and memset, and how the process comes back from the call of
-- Debugger in memory_segment_write_barrier are parameters.
mod Common
pub mod InfoBits
pub mod Chain
pub mod Group
pub mod SizeClass
pub mod Heap
pub mod Trace
pub mod WriteBarrier
pub mod Pages
pub mod Allocate
pub mod Coalesce
pub mod Collect
pub mod Concurrent
pub mod Stop
pub mod Threads
pub mod Util
pub mod Examples
pub mod Init
pub mod Inspect
pub mod Room
