-- ===== src/Group/Remove.antt =====
-- remove_object_from_free_list of rtcoalesce.c, on the lists of the group.
use rtgc.Common.{
  ℕ, ◌≡◌, ◌≢◌, inl, inr, refl, ap, List, [], ◌∷◌, ◌++◌, All, All-append, ◌∉◌, ◌==◌, if◌then◌else◌,
  head_or, last_or, last_or-append, append_assoc, append-nil, arith,
}
use rtgc.InfoBits.{Ptr, get_color, green, next_link, prev_link}
use rtgc.Chain.{unlink, IsNode, AreNodes, IsChain, AllColor}
use rtgc.Chain.Nodes.{
  AreNodes-left, AreNodes-right, AreNodes-middle, middle-AreNodes, AreNodes-swap, All-middle,
  AreNodes-part_left, AreNodes-part_right,
}
use rtgc.Chain.Join.{
  join-IsChain_other, join-AllColor, unlink-eq-join, unlink-IsChain, unlink_links,
}
use rtgc.Group.{GroupState, remove_object_from_free_list}
use rtgc.Group.View.{view, GrayAt, IsGroup}

-- How the three pointers move, in terms of the objects before and behind the one removed.
first_after :
    (p x : Ptr) (us ys : List Ptr)
    → x ∉ us
    → p ≡ head_or (us ++ x ∷ ys) 0
    → (if x == p then head_or ys 0 else p) ≡ head_or (us ++ ys) 0
first_after p x [] ys o e = ground arith
first_after p x (u ∷ us) ys o e = ground (arith, o.0)

last_in :
    (a x : Ptr) (us : List Ptr) (y : Ptr) (ys : List Ptr)
    → last_or a (us ++ x ∷ y ∷ ys) ≡ last_or y ys
last_in a x us y ys = last_or-append a us (x ∷ y ∷ ys)

last_without :
    (a : Ptr) (us : List Ptr) (y : Ptr) (ys : List Ptr) → last_or a (us ++ y ∷ ys) ≡ last_or y ys
last_without a us y ys = last_or-append a us (y ∷ ys)

last_ne : (x y : Ptr) (ys : List Ptr) → x ∉ (y ∷ ys) → last_or y ys ≢ x
last_ne x y [] o = o.0
last_ne x y (z ∷ ys) o = last_ne x z ys o.1

last_after :
    (p x : Ptr) (us ys : List Ptr)
    → All IsNode (x ∷ ys)
    → x ∉ ys
    → p ≡ last_or 0 (us ++ x ∷ ys)
    → (if x == p then (if head_or ys 0 == 0 then last_or 0 us else head_or ys 0) else p)
      ≡ last_or 0 (us ++ ys)
last_after p x us [] n o e =
    ground (arith, last_or-append 0 us (x ∷ []), ap (last_or 0) (append-nil us))
last_after p x us (y ∷ ys) n o e =
    ground (arith, last_in 0 x us y ys, last_without 0 us y ys, last_ne x y ys o)

module _ (marked_color unmarked_color : ℕ) (s : GroupState) (ws bs us : List Ptr) (x : Ptr)
    (ys : List Ptr) (i : IsGroup marked_color unmarked_color s (view ws [] bs (us ++ x ∷ ys))) where
  abbrev before : List Ptr
  before = bs ++ us

  list_nodes : AreNodes (ws ++ (before ++ x ∷ ys))
  list_nodes = rw (append_assoc bs us (x ∷ ys)) i.linked.nodes

  chain : IsChain s.mem 0 (before ++ x ∷ ys) 0
  chain = rw (append_assoc bs us (x ∷ ys)) i.linked.main_chain

  left : AreNodes (x ∷ ((ws ++ before) ++ ys))
  left = AreNodes-middle (ws ++ before) x ys (rw (append_assoc ws before (x ∷ ys)) list_nodes)

  rest_nodes : AreNodes (ws ++ (before ++ ys))
  rest_nodes = rw (← append_assoc ws before ys) (left.0.1, left.1.1)

  main_nodes : AreNodes (x ∷ (before ++ ys))
  main_nodes = AreNodes-middle before x ys (AreNodes-right ws (before ++ x ∷ ys) list_nodes)

  bs_us : AreNodes (x ∷ before)
  bs_us = AreNodes-left (x ∷ before) ys main_nodes

  bs_nodes : AreNodes (x ∷ bs)
  bs_nodes = AreNodes-left (x ∷ bs) us bs_us

  us_nodes : AreNodes (x ∷ us)
  us_nodes = AreNodes-right bs (x ∷ us) (middle-AreNodes bs x us bs_us)

  ys_nodes : AreNodes (x ∷ ys)
  ys_nodes = AreNodes-right before (x ∷ ys) (middle-AreNodes before x ys main_nodes)

  ws_nodes : AreNodes ws
  ws_nodes = AreNodes-left ws (before ++ x ∷ ys) list_nodes

  apart : AreNodes ((before ++ ys) ++ ws)
  apart = AreNodes-swap ws (before ++ ys) rest_nodes

  keeps_white : IsChain (unlink s.mem x) 0 ws 0
  keeps_white = rw (unlink-eq-join s.mem before x ys chain) (
      join-IsChain_other s.mem before ys (main_nodes.0.1, main_nodes.1.1) ws
        (AreNodes-part_left before ys ws apart) (AreNodes-part_right before ys ws apart)
        i.linked.white_chain)

  keeps_color :
      (c : ℕ) (l : List Ptr) → All IsNode l → AllColor s.mem c l → AllColor (unlink s.mem x) c l
  keeps_color c l n h =
      rw (unlink-eq-join s.mem before x ys chain)
        (join-AllColor s.mem before ys (main_nodes.0.1, main_nodes.1.1) c l n h)

  links : (prev_link s.mem x ≡ last_or 0 before) × (next_link s.mem x ≡ head_or ys 0)
  links = unlink_links s.mem before x ys chain

  first : s.group.black ≡ head_or (before ++ x ∷ ys) 0
  first = elim i.fields.black [
    | inl h ↦ rw (append_assoc bs us (x ∷ ys)) h.0
    | inr h ↦ absurd (h.1 refl)
  ]

  removed_black :
      (if x == s.group.black then head_or ys 0 else s.group.black) ≡ head_or (bs ++ (us ++ ys)) 0
  removed_black =
      rw (← append_assoc bs us ys) (first_after s.group.black x before ys bs_us.1.0 first)

  removed_last :
      (if x == s.group.last
        then (if head_or ys 0 == 0 then last_or 0 before else head_or ys 0)
        else s.group.last)
      ≡ last_or 0 (bs ++ (us ++ ys))
  removed_last = rw (← append_assoc bs us ys) (
      last_after s.group.last x before ys ys_nodes.0 ys_nodes.1.0
        (rw (append_assoc bs us (x ∷ ys)) i.fields.last))

  removed_gray : GrayAt s.group.gray (view ws [] bs (us ++ ys))
  removed_gray = i.fields.gray

  -- For a group that represents its lists and has nothing gray, a free object, wherever it stands
  -- on the free list, is taken out of it: the fields and links then represent the lists without
  -- it, and all colors stay.
  pub remove_object_from_free_list-IsGroup :
      IsGroup marked_color unmarked_color
        (remove_object_from_free_list x s)
        (view ws [] bs (us ++ ys))
  unfolding remove_object_from_free_list
  remove_object_from_free_list-IsGroup =
      let f = i.fields in
      let l = i.linked in
      let green_parts = All-middle (λ z. get_color s.mem z ≡ green) us x ys l.green_color in
      rw (links.0, links.1)
        (record {
          fields = record {
            white = f.white;
            free = first_after s.group.free x us ys us_nodes.1.0 f.free;
            last = removed_last;
            black = inl (removed_black, λ e. refl);
            gray = removed_gray;
          };
          white_count = i.white_count;
          black_count = i.black_count;
          linked = record {
            nodes = rw (← append_assoc bs us ys) rest_nodes;
            white_chain = keeps_white;
            main_chain = rw (← append_assoc bs us ys) (
                unlink-IsChain s.mem before x ys (AreNodes-right ws (before ++ x ∷ ys) list_nodes)
                  chain);
            white_color = keeps_color unmarked_color ws ws_nodes.0 l.white_color;
            gray_color = tt;
            black_color = keeps_color marked_color bs bs_nodes.0.1 l.black_color;
            green_color = keeps_color green (us ++ ys) (part us ys us_nodes ys_nodes) green_parts.1;
          };
        })
    where
      part : (us ys : List Ptr) → AreNodes (x ∷ us) → AreNodes (x ∷ ys) → All IsNode (us ++ ys)
      part us ys n k = All-append IsNode us ys n.0.1 k.0.1
