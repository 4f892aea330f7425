-- ===== src/WriteBarrier/Scan.antt =====
-- The body of the inner loop of scan_write_vector in rtgc.c.
use rtgc.Common.{
  ℕ, ◌+◌, ◌*◌, ◌≡◌, refl, sym, ap, ◌∙◌, true, false, not, List, ◌∷◌, ◌++◌, Returns, returns,
  Returns-bind, ◌==◌, if◌then◌else◌, ==-true,
}
use rtgc.Common.Bits.{test_bit}
use rtgc.Common.Bits.Clear.{bit_and-test_bit, test_bit-and_not}
use rtgc.InfoBits.{Ptr, get_color}
use rtgc.Chain.Nodes.{All-middle}
use rtgc.Group
use rtgc.Group.View.{view, IsGroup}
use rtgc.Group.Gray.{make_object_gray-IsGroup}
use rtgc.Heap.{Heap, group_page, ptr_to_page_index, group_state, whitep}
use rtgc.Trace.Pointer.{on_group-Returns, in_its_group}
use rtgc.WriteBarrier.{scan_bit, locked_long_and_not}

-- Where the mark at a bit is set, of a white object whose group represents its lists and owns the
-- page of the header, the scan of the bit returns: the object has moved to the front of the gray
-- list of its group, which again represents its lists, the bit is cleared and the other bits of
-- the word are as they were, and one more mark is counted.
scan_bit-IsGroup :
    (h : Heap) (index bit mark_count i : ℕ) (base : Ptr) (xs ys gs bs fs : List Ptr)
    → base ≡ h.first_partition_ptr + index * 32 * 64 + bit * 32
    → test_bit (h.write_vector index) bit ≡ true
    → (h.pages (ptr_to_page_index h base)).group ≡ group_page i
    → IsGroup h.marked_color h.unmarked_color (group_state i h) (view (xs ++ base ∷ ys) gs bs fs)
    → Returns
        (λ (h', n).
          IsGroup h.marked_color h.unmarked_color
            (group_state i h')
            (view (xs ++ ys) (base ∷ gs) bs fs)
          × ((k : ℕ)
              → test_bit (h'.write_vector index) k
                ≡ (if k == bit then false else test_bit (h.write_vector index) k))
          × (n ≡ mark_count + 1))
        (scan_bit index bit mark_count h)
unfolding scan_bit locked_long_and_not
scan_bit-IsGroup h index bit c i base xs ys gs bs fs e set page g =
    let white : whitep h base ≡ true =
      ==-true _ _
        (All-middle (λ z. get_color h.mem z ≡ h.unmarked_color) xs base ys
          g.linked.white_color).0 in
    let grayed = on_group-Returns i (Group.make_object_gray h.unmarked_color base) h (
      make_object_gray-IsGroup h.marked_color h.unmarked_color (group_state i h) xs base ys gs bs fs
        g) in
    rw
      (
        bit_and-test_bit (h.write_vector index) bit ∙ ap not set,
        sym e,
        white,
        in_its_group h base i page,
      )
      (Returns-bind grayed (λ h' q. returns (
        q.0,
        λ k. rw (==-true index index refl, q.2) (test_bit-and_not (h.write_vector index) bit k),
        refl,
      )))
