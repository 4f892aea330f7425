-- ===== src/Concurrent.antt =====
-- Marking in rtgc.c (the loop of full_gc, scan_gray_set, the scans of objects, scan_write_vector)
-- while mutators run: between two steps of the collector, the mutators perform stores with
-- RTwrite_barrier. A schedule says which; its batches are performed one by one, and a schedule
-- that is used up stands for mutators that store nothing more. A step of the collector traces
-- one word, turns one object black, or examines one word or one bit of the write vector. The custom scanner
-- and the scan of metadata are single steps.
pub mod Snapshot
pub mod Vector
pub mod Mutators
pub mod Load
pub mod Payload
pub mod Copy
pub mod Stores
pub mod Scan
pub mod Clear
pub mod Bit
pub mod Search
pub mod WriteVector
pub mod Roots
pub mod RootWords
pub mod RootSet
pub mod Finish
pub mod Cycle
pub mod FullGc
pub mod GraySet
pub mod Passes
use rtgc.Common.{
  ℕ, zero, suc, ◌+◌, ◌-◌, ◌*◌, ◌/◌, not, ◌&&◌, List, [], ◌∷◌, Run, ok, stopped, out_of_fuel, ◌>>=◌,
  ltb, ◌==◌, if◌then◌else◌,
}
use rtgc.InfoBits.{
  Ptr, null, prev_link, get_storage_class, grayp, sc_nopointers, sc_pointers, sc_custom1,
}
use rtgc.Group.{blacken}
use rtgc.Heap.{Heap, on_group, gc_pointer_alignment}
use rtgc.Trace.{trace_pointer, scan_memory_segment_with_metadata}
use rtgc.WriteBarrier.{write_barrier, scan_bit, bits_per_long}

-- A call of RTwrite_barrier by a mutator.
pub record Store : Type 0 where
  pub lhs_address : Ptr
  pub rhs : ℕ

-- The heap, and the stores that the mutators have yet to perform before the collector's next
-- steps.
pub record Shared : Type 0 where
  pub heap : Heap
  pub schedule : List (List Store)

pub perform : List Store → Heap → Run Heap
unfolding write_barrier
perform [] h = ok h
perform (s ∷ ss) h = write_barrier s.lhs_address s.rhs h >>= perform ss

unfoldable pub interrupted : Shared → Run Shared
unfolding perform
interrupted s = elim s.schedule [
  | [] ↦ ok s
  | batch ∷ rest ↦ perform batch s.heap >>= λ h. ok (record { heap = h; schedule = rest })
]

-- A step of the collector, after the stores that come first.
unfoldable pub step : (Heap → Run Heap) → Shared → Run Shared
unfolding interrupted
step f s = interrupted s >>= λ s'. f s'.heap >>= λ h. ok (record s' { heap = h })

-- The loop of scan_memory_segment, with the rounds left.
pub scan_words : ℕ → (next : Ptr) → Shared → Run Shared
unfolding step trace_pointer
scan_words zero next s = ok s
scan_words (suc k) next s =
    step (λ h. trace_pointer (h.mem next) h) s >>= scan_words k (next + gc_pointer_alignment)

unfoldable pub scan_memory_segment : (low high : Ptr) → Shared → Run Shared
unfolding scan_words
scan_memory_segment low high s =
    scan_words ((high + (gc_pointer_alignment - 1) - low) / gc_pointer_alignment) low s

-- `fuel` bounds the offsets of a metadata record, the objects of a group and the rescans.
module _ (custom_scanner : (low high : Ptr) → Heap → Run Heap) (fuel : ℕ) where
  unfoldable pub scan_object : Ptr → (total_size : ℕ) → Shared → Run Shared
  unfolding scan_memory_segment step scan_memory_segment_with_metadata
  scan_object ptr total_size s =
      let low = ptr + 16 in
      let high = ptr + total_size in
      let class = get_storage_class s.heap.mem ptr in
      if class == sc_nopointers
      then ok s
      else if class == sc_pointers
      then scan_memory_segment low high s
      else if class == sc_custom1
      then step (custom_scanner low high) s
      else step (scan_memory_segment_with_metadata fuel low high) s

  unfoldable pub scan_object_with_group : Ptr → (group : ℕ) → Shared → Run Shared
  unfolding scan_object step on_group
  scan_object_with_group ptr i s =
      scan_object ptr ((s.heap.groups i).size) s
      >>= step (λ h. on_group i (λ g. ok (blacken h.marked_color ptr g)) h)

  -- The inner loop of scan_gray_set, from `current` back to the front of the list.
  pub scan_back :
      (rounds : ℕ) → (group : ℕ) → (current : Ptr) → (scan_count : ℕ) → Shared → Run (Shared × ℕ)
  unfolding scan_object_with_group
  scan_back zero i current scan_count s = stopped out_of_fuel
  scan_back (suc k) i current scan_count s =
      let rest = scan_object_with_group current i s >>= λ s'.
      scan_back k i (prev_link s'.heap.mem current) (scan_count + 1) s' in
      if current == null then ok (s, scan_count) else rest

  -- One group: the scan begins at `black`, or before it if that is not gray.
  unfoldable pub scan_group : (group : ℕ) → (scan_count : ℕ) → Shared → Run (Shared × ℕ)
  unfolding scan_back
  scan_group i scan_count s =
      let h = s.heap in
      let black = (h.groups i).black in
      let current =
        if not (black == null) && not (grayp h.mem black) then prev_link h.mem black else black in
      scan_back fuel i current scan_count s

  -- The groups from `i` on.
  pub scan_groups : ℕ → (group : ℕ) → (scan_count : ℕ) → Shared → Run (Shared × ℕ)
  unfolding scan_group
  scan_groups zero i scan_count s = ok (s, scan_count)
  scan_groups (suc k) i scan_count s =
      scan_group i scan_count s >>= λ (s', n). scan_groups k (i + 1) n s'

  -- The outer loop: all groups are scanned again until a pass scans nothing.
  pub rescan : (rounds : ℕ) → Shared → Run Shared
  unfolding scan_groups
  rescan zero s = stopped out_of_fuel
  rescan (suc k) s = scan_groups 20 5 0 s >>= λ (s', scan_count).
      (let rest = rescan k s' in if ltb 0 scan_count then rest else ok s')

  unfoldable pub scan_gray_set : Shared → Run Shared
  unfolding rescan
  scan_gray_set s = rescan fuel s

-- The inner loop of scan_write_vector; each word is read, and each bit is examined by a step.
pub scan_bits : ℕ → (index bit : ℕ) → (mark_count : ℕ) → Shared → Run (Shared × ℕ)
unfolding interrupted scan_bit
scan_bits zero index bit mark_count s = ok (s, mark_count)
scan_bits (suc k) index bit mark_count s = interrupted s >>= λ s1.
    scan_bit index bit mark_count s1.heap >>= λ (h, n).
    scan_bits k index (bit + 1) n (record s1 { heap = h })

pub scan_longs : ℕ → (index : ℕ) → (mark_count : ℕ) → Shared → Run (Shared × ℕ)
unfolding interrupted scan_bits
scan_longs zero index mark_count s = ok (s, mark_count)
scan_longs (suc k) index mark_count s = interrupted s >>= λ s1.
    (if s1.heap.write_vector index == 0
      then ok (s1, mark_count)
      else scan_bits bits_per_long index 0 mark_count s1)
    >>= λ (s2, n). scan_longs k (index + 1) n s2

unfoldable pub scan_write_vector : Shared → Run (Shared × ℕ)
unfolding scan_longs
scan_write_vector s = scan_longs s.heap.write_vector_length 0 0 s

-- The loop of full_gc: gray objects and marks of the write barrier, until there are no marks.
pub mark :
    (custom_scanner : (low high : Ptr) → Heap → Run Heap) (fuel rounds : ℕ) → Shared → Run Shared
unfolding scan_gray_set scan_write_vector
mark custom fuel zero s = stopped out_of_fuel
mark custom fuel (suc k) s =
    scan_gray_set custom fuel s >>= scan_write_vector >>= λ (s', mark_count).
    (let rest = mark custom fuel k s' in if ltb 0 mark_count then rest else ok s')
