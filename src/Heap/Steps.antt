-- ===== src/Heap/Steps.antt =====
-- A step on one group, which keeps the lists of the whole heap of rtgc.c valid.
use rtgc.Common.{
  ℕ, ◌≡◌, inl, inr, refl, Run, Returns, returns, Returns-bind, ◌==◌, if◌then◌else◌, Bool-cases,
  eq_of_==, ==-true, SameMembers,
}
use rtgc.Group.{GroupState}
use rtgc.Group.View.{View}
use rtgc.Group.Frame.{objects_of}
use rtgc.Group.Steps.{Becomes}
use rtgc.Heap.{Heap, group_state, put_group_state, on_group}
use rtgc.Heap.Groups.{InRange, AreGroups, AreGroups-same, after-AreGroups, after-KeepsHeap, uniform}
use rtgc.Heap.Valid.{IsHeap, Marks, stepped}

abbrev pub put_view : (ℕ → View) → ℕ → View → ℕ → View
put_view views i v j = if j == i then v else views j

pub put_view_at : (views : ℕ → View) (i : ℕ) (v : View) → put_view views i v i ≡ v
put_view_at views i v = rw (==-true i i refl) refl

module _ (h : Heap) (views : ℕ → View) (i : ℕ) (r : InRange i) (valid : IsHeap h views) (v' : View)
    (s' : GroupState)
    (b : Becomes h.marked_color h.unmarked_color (group_state i h) (views i) v' s') where
  same_members : (j : ℕ) → SameMembers (objects_of (views j)) (objects_of (put_view views i v' j))
  same_members j = elim (Bool-cases (j == i)) [
    | inl e ↦ rw (e, eq_of_== j i e) b.members
    | inr e ↦ rw e (λ a m. m, λ a m. m)
  ]

  same_lists :
      AreGroups
        (put_group_state i h s')
        (uniform h.marked_color h.unmarked_color (put_view views i v'))
  same_lists =
      AreGroups-same (put_group_state i h s') _ _
        (λ j k. elim (Bool-cases (j == i)) [ inl e ↦ rw e refl | inr e ↦ rw e refl ])
        (after-AreGroups h (uniform h.marked_color h.unmarked_color views) i r valid.groups
          h.marked_color h.unmarked_color v' s' b)

  put-Marks : Marks h views (put_group_state i h s') (put_view views i v')
  put-Marks =
      stepped h views (put_group_state i h s') (put_view views i v') valid same_lists
        (after-KeepsHeap h (uniform h.marked_color h.unmarked_color views) i r valid.groups
          h.marked_color h.unmarked_color v' s' b)
        same_members (λ a p. b.frame a (p.1 i r))

pub on_group-Marks :
    (h : Heap) (views : ℕ → View) (i : ℕ) (v' : View) (f : GroupState → Run GroupState)
    → InRange i
    → IsHeap h views
    → Returns
        (Becomes h.marked_color h.unmarked_color (group_state i h) (views i) v')
        (f (group_state i h))
    → Returns (λ h'. Marks h views h' (put_view views i v')) (on_group i f h)
unfolding on_group
on_group-Marks h views i v' f r valid b =
    Returns-bind b (λ s' k. returns (put-Marks h views i r valid v' s' k))
