-- ===== src/WriteBarrier.antt =====
-- The write barrier of rtgc.c, in its bit version (USE_BIT_WRITE_BARRIER is 1), and the locked
-- operations of atomic-booleans.s that it uses on a word of the write vector. `min_group_size` bytes of
-- the partition have one bit, 64 bits one word. The segment version begins with a call of Debugger,
-- which stops the process; how the process comes back from it is a parameter.
pub mod Marks
pub mod Scan
pub mod Idle
use rtgc.Common.{
  ℕ, zero, suc, ◌+◌, ◌-◌, ◌*◌, ◌/◌, ◌%◌, ◌^◌, Bool, true, false, ◌&&◌, none, some, Run, ok, stopped,
  debugger, fault, out_of_fuel, ◌>>=◌, ◌>>◌, ltb, ◌==◌, if◌then◌else◌, bit_and, bit_or,
}
use rtgc.Common.Bits.{and_not}
use rtgc.InfoBits.{Mem, Ptr, write}
use rtgc.Heap.{
  Heap, page_group, in_group, whitep, valid_interior_ptr, interior_to_gcptr, gc_pointer_alignment,
}
use rtgc.Trace.{make_object_gray}

-- MIN_GROUP_SIZE and BITS_PER_LONG
abbrev pub min_group_size : ℕ
min_group_size = 32

abbrev pub bits_per_long : ℕ
bits_per_long = 64

abbrev pub set_word : (ℕ → ℕ) → ℕ → ℕ → ℕ → ℕ
set_word v i w j = if j == i then w else v j

-- locked_long_or and locked_long_and
unfoldable pub locked_long_or : (ℕ → ℕ) → ℕ → ℕ → ℕ → ℕ
locked_long_or v i mask = set_word v i (bit_or (v i) mask)

-- The second operand is the complement of `mask`.
unfoldable pub locked_long_and_not : (ℕ → ℕ) → ℕ → ℕ → ℕ → ℕ
locked_long_and_not v i mask = set_word v i (and_not (v i) mask)

unfoldable pub mark_write_vector : Ptr → Heap → Heap
unfolding locked_long_or
mark_write_vector gcptr h =
    let ptr_offset = gcptr - h.first_partition_ptr in
    let long_index = ptr_offset / (min_group_size * bits_per_long) in
    let bit = ptr_offset % (min_group_size * bits_per_long) / min_group_size in
    record h { write_vector = locked_long_or h.write_vector long_index (2 ^ bit) }

-- The body of the inner loop of scan_write_vector: the object is made gray before its bit is
-- cleared.
unfoldable pub scan_bit : (index bit : ℕ) → (mark_count : ℕ) → Heap → Run (Heap × ℕ)
unfolding locked_long_and_not
scan_bit index bit mark_count h =
    let base_ptr = h.first_partition_ptr + index * min_group_size * bits_per_long in
    let mask = 2 ^ bit in
    let gcptr = base_ptr + bit * min_group_size in
    let grayed = if whitep h gcptr then make_object_gray gcptr h else ok h in
    let found = grayed >>= λ h'.
    ok (
      record h' { write_vector = locked_long_and_not h'.write_vector index mask },
      mark_count + 1,
    ) in
    if bit_and (h.write_vector index) mask == 0 then ok (h, mark_count) else found

unfoldable pub scan_bits : ℕ → (index bit : ℕ) → (mark_count : ℕ) → Heap → Run (Heap × ℕ)
unfolding scan_bit
scan_bits zero index bit mark_count h = ok (h, mark_count)
scan_bits (suc k) index bit mark_count h =
    scan_bit index bit mark_count h >>= λ (h', n). scan_bits k index (bit + 1) n h'

unfoldable pub scan_longs : ℕ → (index : ℕ) → (mark_count : ℕ) → Heap → Run (Heap × ℕ)
unfolding scan_bits
scan_longs zero index mark_count h = ok (h, mark_count)
scan_longs (suc k) index mark_count h =
    (if h.write_vector index == 0
      then ok (h, mark_count)
      else scan_bits bits_per_long index 0 mark_count h)
    >>= λ (h', n). scan_longs k (index + 1) n h'

-- The result has the number of marks found.
unfoldable pub scan_write_vector : Heap → Run (Heap × ℕ)
unfolding scan_longs
scan_write_vector h = scan_longs h.write_vector_length 0 0 h

-- The marking part of RTwrite_barrier: the object that is about to be overwritten.
unfoldable pub mark_overwritten : (object : Ptr) → Heap → Run Heap
unfolding page_group interior_to_gcptr valid_interior_ptr mark_write_vector
mark_overwritten object h = elim (in_group (page_group h object)) [
  | none ↦ ok h
  | some i ↦ interior_to_gcptr h object >>= λ gcptr.
      (if whitep h gcptr && valid_interior_ptr gcptr object
        then ok (mark_write_vector gcptr h)
        else ok h)
]

-- RTwrite_barrier; its value is `rhs`.
unfoldable pub write_barrier : (lhs_address rhs : Ptr) → Heap → Run Heap
unfolding mark_overwritten write
write_barrier lhs_address rhs h =
    (if h.enable_write_barrier then mark_overwritten (h.mem lhs_address) h else ok h) >>= λ h'.
    ok (record h' { mem = write h'.mem lhs_address rhs })

-- The loop of memory_segment_write_barrier, with the rounds left: its body marks as RTwrite_barrier
-- does. To load a pointer from an address that is not a multiple of its size is undefined.
unfoldable pub mark_words : ℕ → (next : Ptr) → Heap → Run Heap
unfolding mark_overwritten
mark_words zero next h = ok h
mark_words (suc k) next h =
    let rest = mark_overwritten (h.mem next) h >>= mark_words k (next + gc_pointer_alignment) in
    if next % gc_pointer_alignment == 0 then rest else stopped fault

-- `resumed` is how the call of Debugger at the beginning comes back from SIGSTOP, if it does.
module _ (resumed : Run (Unit {0})) where
  unfoldable pub memory_segment_write_barrier : (low high : Ptr) → Heap → Run Heap
  unfolding mark_words
  memory_segment_write_barrier low high h =
      resumed
      >> (if h.enable_write_barrier
          then mark_words ((high + (gc_pointer_alignment - 1) - low) / gc_pointer_alignment) low h
          else ok h)

  -- RTmemcpy, with memcpy of the C library; its value is `p1`. RTrecordcpy calls it.
  unfoldable pub memcpy :
      (libc_memcpy : (p1 p2 : Ptr) → (num_bytes : ℕ) → Mem → Mem)
      → (p1 p2 : Ptr) → (num_bytes : ℕ) → Heap
      → Run Heap
  unfolding memory_segment_write_barrier
  memcpy libc_memcpy p1 p2 num_bytes h =
      memory_segment_write_barrier p1 (p1 + num_bytes) h >>= λ h'.
      ok (record h' { mem = libc_memcpy p1 p2 num_bytes h'.mem })

  -- RTmemset, with memset of the C library; its value is `p1`.
  unfoldable pub memset :
      (libc_memset : (p1 : Ptr) → (fill num_bytes : ℕ) → Mem → Mem)
      → (p1 : Ptr) → (fill num_bytes : ℕ) → Heap
      → Run Heap
  unfolding memory_segment_write_barrier
  memset libc_memset p1 fill num_bytes h =
      memory_segment_write_barrier p1 (p1 + num_bytes) h >>= λ h'.
      ok (record h' { mem = libc_memset p1 fill num_bytes h'.mem })

-- RTsafe_bash with CHECK_BASH 0
unfoldable pub safe_bash : (lhs_address rhs : Ptr) → Heap → Heap
unfolding write
safe_bash lhs_address rhs h = record h { mem = write h.mem lhs_address rhs }

-- RTsafe_setfInit with CHECK_SETFINIT 1
unfoldable pub safe_setf_init : (lhs_address rhs : Ptr) → Heap → Run Heap
unfolding write
safe_setf_init lhs_address rhs h =
    if h.mem lhs_address == 0
    then ok (record h { mem = write h.mem lhs_address rhs })
    else stopped debugger
