-- ===== src/Group/Gray.antt =====
-- RTmake_object_gray of rtgc.c, on the lists of the group.
pub mod Push
pub mod Links
use rtgc.Common.{
  ℕ, suc, ◌+◌, ◌-◌, ◌<◌, ◌≡◌, ◌≢◌, ◌⊎◌, inl, inr, refl, sym, ap, ◌∙◌, List, [], ◌∷◌, ◌++◌, Run, ok,
  Returns, returns, ◌==◌, if◌then◌else◌, ==-true, ==-false, lt→ltb, length, length-append, All, ◌∉◌,
  head_or, last_or, head_or-append, append_assoc, arith, true, false, ltb, All-append_left,
  All-append_right,
}
use rtgc.InfoBits.{
  Mem, Ptr, set_prev, set_next, get_color, set_color, gray, green, prev_link, next_link,
}
use rtgc.InfoBits.Words.{Aligned}
use rtgc.InfoBits.Fields.{prev_link-set_prev_self, get_color-set_color_self}
use rtgc.Chain.{link_next, link_prev, unlink, IsNode, AreNodes, IsChain, nil, cons, AllColor}
use rtgc.Chain.Laws.{
  IsChain-left, IsChain-right, IsChain-set_prev_other, IsChain-set_color, AllColor-set_color,
  AllColor-set_prev,
}
use rtgc.Chain.Nodes.{
  AreNodes-middle, middle-AreNodes, AreNodes-left, AreNodes-right, All-middle, AreNodes-swap,
  AreNodes-part_left, AreNodes-part_right,
}
use rtgc.Chain.Join.{
  join, join-IsChain, join-IsChain_other, join-AllColor, unlink-eq-join, unlink-IsChain,
  unlink_links,
}
use rtgc.Group.{Group, GroupState, remove_from_white, link_gray, make_object_gray}
use rtgc.Group.View.{View, view, main, BlackAt, GrayAt, IsFields, IsLinked, IsGroup}
use Push.{push, with_gray, Enters, link_gray-eq-push, IsFields-Enters, white_head}
use Links
use Links.{moved, moved_is_white, gray-IsLinked}

-- The group after the object has left the white list.
abbrev pub without : Group → Ptr → Ptr → Group
without g x next = record g { white = if x == g.white then next else g.white }

cons-ne-nil : (x : Ptr) (xs : List Ptr) → ◌≢◌ {A = List Ptr} (x ∷ xs) []
cons-ne-nil x xs e = cc

-- Where the object is linked in, `black` and `last` stay right.
with_gray-last :
    (g : Group) (x : Ptr) (ws gs bs fs : List Ptr)
    → All IsNode (gs ++ (bs ++ fs))
    → IsFields g (view ws gs bs fs)
    → (with_gray g x).last ≡ last_or x (gs ++ (bs ++ fs))
with_gray-last g x ws [] [] [] n f = ground (arith, f.gray, f.black)
with_gray-last g x ws [] [] (z ∷ fs) n f = ground (arith, f.gray, f.black, f.last)
with_gray-last g x ws [] (y ∷ bs) fs n f = ground (arith, f.gray, f.black, f.last)
with_gray-last g x ws (w ∷ gs) bs fs n f = ground (arith, f.gray, f.last)

with_gray-BlackAt :
    (g : Group) (x : Ptr) (ws gs bs fs : List Ptr)
    → All IsNode (gs ++ (bs ++ fs))
    → IsFields g (view ws gs bs fs)
    → BlackAt (with_gray g x).black (view ws (x ∷ gs) bs fs)
with_gray-BlackAt g x ws [] [] [] n f = inr (ground (arith, f.gray, f.black), cons-ne-nil x [])
with_gray-BlackAt g x ws [] [] (z ∷ fs) n f =
    inl (ground (arith, f.gray, f.black), ground (arith, f.gray, f.black))
with_gray-BlackAt g x ws [] (y ∷ bs) fs n f =
    inl (ground (arith, f.gray, f.black), ground (arith, f.gray, f.black))
with_gray-BlackAt g x ws (w ∷ gs) bs fs n f =
    let e : (with_gray g x).black ≡ g.black = ground (arith, f.gray) in
    elim f.black [
      | inl (p, q) ↦ inl (e ∙ p, λ z. absurd (cons-ne-nil w gs (q (sym e ∙ z))))
      | inr (p, q) ↦ inr (e ∙ p, cons-ne-nil x (w ∷ gs))
    ]

with_gray_same :
    (g : Group) (x : Ptr)
    → ((with_gray g x).white ≡ g.white)
      × ((with_gray g x).free ≡ g.free)
      × ((with_gray g x).black_scanned_count ≡ g.black_scanned_count)
      × ((with_gray g x).black_alloc_count ≡ g.black_alloc_count)
      × ((with_gray g x).white_count ≡ g.white_count)
with_gray_same g x = ground arith

with_gray-IsFields :
    (g : Group) (x : Ptr) (ws gs bs fs : List Ptr) (n : ℕ)
    → All IsNode (gs ++ (bs ++ fs))
    → x ≢ 0
    → IsFields g (view ws gs bs fs)
    → IsFields
        (let g' = with_gray g x in record g' { gray = x; white_count = n })
        (view ws (x ∷ gs) bs fs)
with_gray-IsFields g x ws gs bs fs k n ne f = record {
  white = (with_gray_same g x).0 ∙ f.white;
  free = (with_gray_same g x).1 ∙ f.free;
  last = with_gray-last g x ws gs bs fs n f;
  black = with_gray-BlackAt g x ws gs bs fs n f;
  gray = inr (refl, ne);
}

without-IsFields :
    (g : Group) (x next : Ptr) (xs ys gs bs fs : List Ptr)
    → x ∉ xs
    → next ≡ head_or ys 0
    → IsFields g (view (xs ++ x ∷ ys) gs bs fs)
    → IsFields (without g x next) (view (xs ++ ys) gs bs fs)
without-IsFields g x next xs ys gs bs fs o e f = record {
  white = rw e (white_head xs x ys g.white o f.white);
  free = f.free;
  last = f.last;
  black = f.black;
  gray = f.gray;
}

module _ (marked_color unmarked_color : ℕ) (s : GroupState) (xs : List Ptr) (x : Ptr)
    (ys gs bs fs : List Ptr)
    (g : IsGroup marked_color unmarked_color s (view (xs ++ x ∷ ys) gs bs fs)) where
  abbrev pub left_white : Group
  left_white = without s.group x (next_link s.mem x)

  abbrev pub grayed : GroupState
  grayed = record {
    mem = set_color (moved marked_color unmarked_color s xs x ys gs bs fs g.linked) x gray;
    group = record (with_gray left_white x) {
      gray = x;
      white_count = (with_gray left_white x).white_count - 1;
    };
  }

  nodes : AreNodes (x ∷ ((xs ++ ys) ++ (gs ++ (bs ++ fs))))
  nodes = Links.nodes marked_color unmarked_color s xs x ys gs bs fs g.linked

  main_nodes : All IsNode (gs ++ (bs ++ fs))
  main_nodes = All-append_right IsNode (xs ++ ys) (gs ++ (bs ++ fs)) nodes.0.1

  away : x ∉ xs
  away =
      All-append_left (λ z. z ≢ x) xs ys
        (All-append_left (λ z. z ≢ x) (xs ++ ys) (gs ++ (bs ++ fs)) nodes.1.0)

  left_white-IsFields : IsFields left_white (view (xs ++ ys) gs bs fs)
  left_white-IsFields =
      without-IsFields s.group x (next_link s.mem x) xs ys gs bs fs away
        (unlink_links s.mem xs x ys g.linked.white_chain).1 g.fields

  counts : (with_gray left_white x).white_count ≡ suc (length (xs ++ ys))
  counts = omega (
    arith,
    (with_gray_same left_white x).4,
    g.white_count,
    length-append xs (x ∷ ys),
    length-append xs ys,
  )

  pub grayed-IsGroup : IsGroup marked_color unmarked_color grayed (view (xs ++ ys) (x ∷ gs) bs fs)
  grayed-IsGroup = record {
    fields =
        with_gray-IsFields left_white x (xs ++ ys) gs bs fs _ main_nodes nodes.0.0.1
          left_white-IsFields;
    white_count = omega (arith, counts);
    black_count = omega (arith, with_gray_same left_white x, g.black_count);
    linked = gray-IsLinked marked_color unmarked_color s xs x ys gs bs fs g.linked;
  }

  pub make_object_gray-eq-grayed : make_object_gray unmarked_color x s ≡ ok grayed
  unfolding make_object_gray remove_from_white
  make_object_gray-eq-grayed =
      rw
        (
          link_gray-eq-push x (head_or (gs ++ (bs ++ fs)) 0) (remove_from_white x s)
              (IsFields-Enters (xs ++ ys) gs bs fs main_nodes left_white-IsFields),
          ==-true _ _ (moved_is_white marked_color unmarked_color s xs x ys gs bs fs g.linked),
          lt→ltb 0 (with_gray left_white x).white_count (omega (arith, counts)),
        )
        refl

  -- For a group that represents its lists, making a white object gray succeeds, so the assertions
  -- hold. The group then represents lists where the object has left the white list for the front
  -- of the gray list; the order and the colors of all others stay.
  pub make_object_gray-IsGroup :
      Returns
        (λ s'. IsGroup marked_color unmarked_color s' (view (xs ++ ys) (x ∷ gs) bs fs))
        (make_object_gray unmarked_color x s)
  make_object_gray-IsGroup = rw make_object_gray-eq-grayed (returns grayed-IsGroup)
