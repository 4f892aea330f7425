-- ===== src/Group/Allocate.antt =====
-- The part of RTallocate in rtalloc.c that takes an object, on the lists of the group.
use rtgc.Common.{
  ℕ, ◌<◌, ◌≡◌, inl, inr, sym, ◌∙◌, ap, List, [], ◌∷◌, ◌++◌, length-append, All, All-append, head_or,
  last_or, append_assoc, arith,
}
use rtgc.InfoBits.{Ptr, set_color, green}
use rtgc.InfoBits.Fields.{get_color-set_color_self}
use rtgc.Chain.{IsNode, AreNodes, IsChain, AllColor}
use rtgc.Chain.Laws.{IsChain-set_color, AllColor-set_color, IsChain-right}
use rtgc.Chain.Nodes.{AreNodes-left, AreNodes-right, AreNodes-middle, middle-AreNodes}
use rtgc.Chain.Join.{head_links}
use rtgc.Group.{GroupState, take_free}
use rtgc.Group.View.{view, BlackAt, GrayAt, IsGroup}

-- The list of a group does not change when its first free object turns black.
main_same :
    (gs bs : List Ptr) (z : Ptr) (fs : List Ptr)
    → gs ++ ((bs ++ z ∷ []) ++ fs) ≡ gs ++ (bs ++ z ∷ fs)
main_same gs bs z fs = rw (append_assoc bs (z ∷ []) fs)

black_kept :
    {b : Ptr} (ws gs bs : List Ptr) (z : Ptr) (fs : List Ptr)
    → BlackAt b (view ws gs bs (z ∷ fs))
    → BlackAt b (view ws gs (bs ++ z ∷ []) fs)
black_kept ws gs bs z fs (inl h) =
    inl (h.0 ∙ sym (ap (λ l. head_or l 0) (append_assoc bs (z ∷ []) fs)), h.1)
black_kept ws gs bs z fs (inr h) = inr h

gray_kept :
    {g : Ptr} (ws gs bs : List Ptr) (z : Ptr) (fs : List Ptr)
    → GrayAt g (view ws gs bs (z ∷ fs))
    → GrayAt g (view ws gs (bs ++ z ∷ []) fs)
gray_kept ws gs bs z fs (inl h) = inl h
gray_kept ws [] [] z fs (inr h) = absurd (h.1 h.0)
gray_kept ws [] (y ∷ bs) z fs (inr h) = inr h
gray_kept ws (w ∷ gs) bs z fs (inr h) = inr h

module _ (marked_color unmarked_color : ℕ) (s : GroupState) (ws gs bs : List Ptr) (z : Ptr)
    (fs : List Ptr) (small : marked_color < 4)
    (i : IsGroup marked_color unmarked_color s (view ws gs bs (z ∷ fs))) where
  -- All objects but the first free one.
  others : AreNodes (z ∷ ((ws ++ (gs ++ bs)) ++ fs))
  others =
      AreNodes-middle (ws ++ (gs ++ bs)) z fs
        (rw (append_assoc ws (gs ++ bs) (z ∷ fs), append_assoc gs bs (z ∷ fs)) i.linked.nodes)

  front : AreNodes (z ∷ (ws ++ (gs ++ bs)))
  front = AreNodes-left (z ∷ (ws ++ (gs ++ bs))) fs others

  ws_nodes : AreNodes (z ∷ ws)
  ws_nodes = AreNodes-left (z ∷ ws) (gs ++ bs) front

  gs_bs_nodes : AreNodes (z ∷ (gs ++ bs))
  gs_bs_nodes = AreNodes-right ws (z ∷ (gs ++ bs)) (middle-AreNodes ws z (gs ++ bs) front)

  gs_nodes : AreNodes (z ∷ gs)
  gs_nodes = AreNodes-left (z ∷ gs) bs gs_bs_nodes

  bs_nodes : AreNodes (z ∷ bs)
  bs_nodes = AreNodes-right gs (z ∷ bs) (middle-AreNodes gs z bs gs_bs_nodes)

  fs_nodes : AreNodes (z ∷ fs)
  fs_nodes =
      AreNodes-right (ws ++ (gs ++ bs)) (z ∷ fs) (middle-AreNodes (ws ++ (gs ++ bs)) z fs others)

  painted :
      (c : ℕ) (l : List Ptr)
      → AreNodes (z ∷ l)
      → AllColor s.mem c l
      → AllColor (set_color s.mem z marked_color) c l
  painted c l n h = AllColor-set_color s.mem z marked_color n.0.0.0 small c l n.1.0 h

  chained :
      {a b : Ptr} (l : List Ptr)
      → All IsNode l
      → IsChain s.mem a l b
      → IsChain (set_color s.mem z marked_color) a l b
  chained l n h = IsChain-set_color s.mem z marked_color others.0.0.0 small l n h

  -- For a group that represents its lists and has a free object, where the marked color has two
  -- bits, allocation takes the first free object and colors it as marked; it becomes the last
  -- black object, and the fields, links and counts of the group represent the lists so changed.
  pub take_free-IsGroup :
      IsGroup marked_color unmarked_color (take_free marked_color s) (view ws gs (bs ++ z ∷ []) fs)
  unfolding take_free
  take_free-IsGroup =
      let f = i.fields in
      let l = i.linked in
      let main_nodes = AreNodes-right ws (gs ++ (bs ++ z ∷ fs)) l.nodes in
      rw f.free (record {
        fields = record {
          white = f.white;
          free =
              (head_links
                (IsChain-right bs (z ∷ fs) (IsChain-right gs (bs ++ z ∷ fs) l.main_chain))).1;
          last = f.last ∙ sym (ap (last_or 0) (main_same gs bs z fs));
          black = black_kept ws gs bs z fs f.black;
          gray = gray_kept ws gs bs z fs f.gray;
        };
        white_count = i.white_count;
        black_count = omega (arith, i.black_count, length-append bs (z ∷ []));
        linked = record {
          nodes = rw (main_same gs bs z fs) l.nodes;
          white_chain = chained ws ws_nodes.0.1 l.white_chain;
          main_chain =
              rw (main_same gs bs z fs) (chained (gs ++ (bs ++ z ∷ fs)) main_nodes.0 l.main_chain);
          white_color = painted unmarked_color ws ws_nodes l.white_color;
          gray_color = painted 2 gs gs_nodes l.gray_color;
          black_color =
              All-append _ bs (z ∷ []) (painted marked_color bs bs_nodes l.black_color)
                (get_color-set_color_self s.mem z marked_color small, tt);
          green_color = painted green fs fs_nodes l.green_color.1;
        };
      })
