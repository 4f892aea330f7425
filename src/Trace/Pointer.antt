-- ===== src/Trace/Pointer.antt =====
-- RTtrace_pointer of rtgc.c, on the lists of the group of the object.
use rtgc.Common.{
  ℕ, ◌≡◌, ◌≢◌, refl, ◌∙◌, true, List, ◌∷◌, ◌++◌, Run, Returns, returns, Returns-bind, Returns-mono,
  ==-true, ==-false,
}
use rtgc.InfoBits.{Ptr, get_color}
use rtgc.Chain.Nodes.{All-middle}
use rtgc.Group
use rtgc.Group.View.{view, IsGroup}
use rtgc.Group.Gray.{make_object_gray-IsGroup}
use rtgc.Heap.{
  Heap, group_page, in_partition, ptr_to_page_index, whitep, valid_interior_ptr, group_state,
  on_group,
}
use rtgc.Heap.Interior.{IsInside, interior_to_gcptr_3-base}
use rtgc.Trace.{make_object_gray, trace_pointer}

-- `ptr` points into the object at `base` of the group `i`, not too far behind its header.
record IsTraced (h : Heap) (base ptr : Ptr) (i : ℕ) : Type 0 where
  in_heap : in_partition h ptr ≡ true
  page : (h.pages (ptr_to_page_index h ptr)).group ≡ group_page i
  first_page : (h.pages (ptr_to_page_index h base)).group ≡ group_page i
  inside : IsInside base ptr (h.pages (ptr_to_page_index h ptr)) (h.groups i)
  near : valid_interior_ptr base ptr ≡ true

pub on_group-Returns :
    {P : Group.GroupState → Type 0} (i : ℕ) (f : Group.GroupState → Run Group.GroupState) (h : Heap)
    → Returns P (f (group_state i h))
    → Returns
        (λ h'.
          P (group_state i h')
          × ((j : ℕ) → j ≢ i → h'.groups j ≡ h.groups j)
          × (h'.write_vector ≡ h.write_vector))
        (on_group i f h)
unfolding on_group
on_group-Returns {P} i f h r =
    Returns-bind r
      (λ s p. returns (rw (==-true i i refl) p, λ j ne. rw (==-false j i ne) refl, refl))

is_grayed :
    (h : Heap) (base ptr : Ptr) (i : ℕ)
    → IsTraced h base ptr i
    → whitep h base ≡ true
    → trace_pointer ptr h ≡ make_object_gray base h
unfolding trace_pointer
is_grayed h base ptr i t white =
    rw
      (
        trace_pointer,
        t.in_heap,
        t.page,
        interior_to_gcptr_3-base base ptr (h.pages (ptr_to_page_index h ptr)) (h.groups i) t.inside,
        white,
        t.near,
      )
      refl

pub in_its_group :
    (h : Heap) (base : Ptr) (i : ℕ)
    → (h.pages (ptr_to_page_index h base)).group ≡ group_page i
    → make_object_gray base h ≡ on_group i (Group.make_object_gray h.unmarked_color base) h
unfolding make_object_gray
in_its_group h base i e = rw (make_object_gray, e) refl

-- For a heap and a pointer into a white object, not further into it than valid_interior_ptr
-- allows, where the group of the object represents its lists, RTtrace_pointer returns, the object
-- has moved to the front of the gray list of its group, which again represents its lists, and all
-- other groups are unchanged.
trace_pointer-IsGroup :
    (h : Heap) (base ptr : Ptr) (i : ℕ) (xs ys gs bs fs : List Ptr)
    → IsTraced h base ptr i
    → IsGroup h.marked_color h.unmarked_color (group_state i h) (view (xs ++ base ∷ ys) gs bs fs)
    → Returns
        (λ h'.
          IsGroup h.marked_color h.unmarked_color
            (group_state i h')
            (view (xs ++ ys) (base ∷ gs) bs fs)
          × ((j : ℕ) → j ≢ i → h'.groups j ≡ h.groups j))
        (trace_pointer ptr h)
trace_pointer-IsGroup h base ptr i xs ys gs bs fs t g =
    let white : whitep h base ≡ true =
      ==-true _ _
        (All-middle (λ z. get_color h.mem z ≡ h.unmarked_color) xs base ys
          g.linked.white_color).0 in
    rw (is_grayed h base ptr i t white ∙ in_its_group h base i t.first_page) (
      Returns-mono
        (on_group-Returns i (Group.make_object_gray h.unmarked_color base) h (
          make_object_gray-IsGroup h.marked_color h.unmarked_color (group_state i h) xs base ys gs
            bs fs g))
        (λ h' q. (q.0, q.1)))
