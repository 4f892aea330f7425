-- ===== src/Group/Gray/Links.antt =====
-- Links and colors after RTmake_object_gray.
use rtgc.Common.{
  ℕ, ◌≡◌, ◌≢◌, List, [], ◌∷◌, ◌++◌, All, ◌∉◌, head_or, append_assoc, arith, All-append_right,
}
use rtgc.InfoBits.{Mem, Ptr, get_color, set_color, gray, green}
use rtgc.InfoBits.Fields.{get_color-set_color_self}
use rtgc.Chain.{unlink, IsNode, AreNodes, IsChain, AllColor}
use rtgc.Chain.Laws.{IsChain-set_color, AllColor-set_color}
use rtgc.Chain.Nodes.{
  AreNodes-middle, middle-AreNodes, AreNodes-left, AreNodes-right, All-middle, AreNodes-swap,
  AreNodes-part_left, AreNodes-part_right,
}
use rtgc.Chain.Join.{join-IsChain_other, join-AllColor, unlink-eq-join, unlink-IsChain}
use rtgc.Group.{GroupState}
use rtgc.Group.View.{view, IsLinked}
use rtgc.Group.Gray.Push.{push, push-IsChain, push-IsChain_other, push-AllColor}

-- The objects of the group once `x` has left the white list.
nodes_around :
    (xs : List Ptr) (x : Ptr) (ys zs : List Ptr)
    → AreNodes ((xs ++ x ∷ ys) ++ zs)
    → AreNodes (x ∷ ((xs ++ ys) ++ zs))
nodes_around xs x ys zs h =
    let k : AreNodes (xs ++ x ∷ (ys ++ zs)) = rw (append_assoc xs (x ∷ ys) zs) at h in
    rw (append_assoc xs ys zs) (AreNodes-middle xs x (ys ++ zs) k)

module _ (marked_color unmarked_color : ℕ) (s : GroupState) (xs : List Ptr) (x : Ptr)
    (ys gs bs fs : List Ptr)
    (l : IsLinked marked_color unmarked_color s.mem (view (xs ++ x ∷ ys) gs bs fs)) where
  abbrev rest : List Ptr
  rest = gs ++ (bs ++ fs)

  abbrev pub moved : Mem
  moved = push (unlink s.mem x) x (head_or rest 0)

  pub nodes : AreNodes (x ∷ ((xs ++ ys) ++ rest))
  nodes = nodes_around xs x ys rest l.nodes

  pub white_nodes : AreNodes (xs ++ x ∷ ys)
  white_nodes = AreNodes-left (xs ++ x ∷ ys) rest l.nodes

  main_nodes : AreNodes (x ∷ rest)
  main_nodes = (
    (nodes.0.0, All-append_right IsNode (xs ++ ys) rest nodes.0.1),
    (
      All-append_right (λ y. y ≢ x) (xs ++ ys) rest nodes.1.0,
      (AreNodes-right (xs ++ ys) rest (nodes.0.1, nodes.1.1)).1,
    ),
  )

  left_nodes : AreNodes (x ∷ (xs ++ ys))
  left_nodes = AreNodes-middle xs x ys white_nodes

  apart : AreNodes (rest ++ (xs ++ ys))
  apart = AreNodes-swap (xs ++ ys) rest (nodes.0.1, nodes.1.1)

  unlink_keeps_IsChain : IsChain (unlink s.mem x) 0 rest 0
  unlink_keeps_IsChain = rw (unlink-eq-join s.mem xs x ys l.white_chain) (
      join-IsChain_other s.mem xs ys (left_nodes.0.1, left_nodes.1.1) rest
        (AreNodes-part_left xs ys rest (nodes.0.1, nodes.1.1))
        (AreNodes-part_right xs ys rest (nodes.0.1, nodes.1.1)) l.main_chain)

  unlink_keeps_color :
      (c : ℕ) (zs : List Ptr) → All IsNode zs → AllColor s.mem c zs → AllColor (unlink s.mem x) c zs
  unlink_keeps_color c zs n h =
      rw (unlink-eq-join s.mem xs x ys l.white_chain)
        (join-AllColor s.mem xs ys (left_nodes.0.1, left_nodes.1.1) c zs n h)

  moved_main : IsChain moved 0 (x ∷ rest) 0
  moved_main = push-IsChain (unlink s.mem x) x rest main_nodes unlink_keeps_IsChain

  moved_white : IsChain moved 0 (xs ++ ys) 0
  moved_white =
      push-IsChain_other (unlink s.mem x) x rest main_nodes (xs ++ ys) left_nodes apart
        (unlink-IsChain s.mem xs x ys white_nodes l.white_chain)

  moved_color : (c : ℕ) (zs : List Ptr) → All IsNode zs → AllColor s.mem c zs → AllColor moved c zs
  moved_color c zs n h =
      push-AllColor (unlink s.mem x) x rest main_nodes c zs n (unlink_keeps_color c zs n h)

  -- `x` is white until the color is set.
  pub moved_is_white : get_color moved x ≡ unmarked_color
  moved_is_white =
      (moved_color unmarked_color (x ∷ []) (nodes.0.0, tt)
        ((All-middle (λ z. get_color s.mem z ≡ unmarked_color) xs x ys l.white_color).0, tt)).0

  colored :
      (c : ℕ) (zs : List Ptr)
      → All IsNode zs
      → x ∉ zs
      → AllColor s.mem c zs
      → AllColor (set_color moved x gray) c zs
  colored c zs n o h =
      AllColor-set_color moved x gray nodes.0.0.0 (omega arith) c zs o (moved_color c zs n h)

  gray_nodes : AreNodes (x ∷ gs)
  gray_nodes = AreNodes-left (x ∷ gs) (bs ++ fs) main_nodes

  later_nodes : AreNodes (x ∷ (bs ++ fs))
  later_nodes = AreNodes-right gs (x ∷ (bs ++ fs)) (middle-AreNodes gs x (bs ++ fs) main_nodes)

  black_nodes : AreNodes (x ∷ bs)
  black_nodes = AreNodes-left (x ∷ bs) fs later_nodes

  green_nodes : AreNodes (x ∷ fs)
  green_nodes = AreNodes-right bs (x ∷ fs) (middle-AreNodes bs x fs later_nodes)

  pub gray-IsLinked :
      IsLinked marked_color unmarked_color (set_color moved x gray) (view (xs ++ ys) (x ∷ gs) bs fs)
  gray-IsLinked = record {
    nodes = middle-AreNodes (xs ++ ys) x rest nodes;
    white_chain =
        IsChain-set_color moved x gray nodes.0.0.0 (omega arith) (xs ++ ys) left_nodes.0.1
          moved_white;
    main_chain =
        IsChain-set_color moved x gray nodes.0.0.0 (omega arith) (x ∷ rest) main_nodes.0 moved_main;
    white_color =
        colored unmarked_color (xs ++ ys) left_nodes.0.1 left_nodes.1.0
          (All-middle (λ z. get_color s.mem z ≡ unmarked_color) xs x ys l.white_color).1;
    gray_color = (
      get_color-set_color_self moved x gray (omega arith),
      colored gray gs gray_nodes.0.1 gray_nodes.1.0 l.gray_color,
    );
    black_color = colored marked_color bs black_nodes.0.1 black_nodes.1.0 l.black_color;
    green_color = colored green fs green_nodes.0.1 green_nodes.1.0 l.green_color;
  }
