-- ===== src/Group/Scan.antt =====
-- The end of scan_object_with_group in rtgc.c, on the lists of the group.
use rtgc.Common.{
  ℕ, ◌<◌, ◌≡◌, ◌≢◌, inl, inr, refl, ◌∙◌, ap, List, [], ◌∷◌, ◌++◌, All-append_left, last_or,
  append_assoc, arith,
}
use rtgc.InfoBits.{Ptr, set_color, gray, green}
use rtgc.InfoBits.Fields.{get_color-set_color_self}
use rtgc.Chain.{AreNodes, AllColor}
use rtgc.Chain.Laws.{IsChain-set_color, AllColor-set_color}
use rtgc.Chain.Nodes.{AreNodes-left, AreNodes-right, AreNodes-middle, middle-AreNodes}
use rtgc.Group.{GroupState, blacken}
use rtgc.Group.View.{view, GrayAt, IsGroup}

main_same :
    (gs : List Ptr) (x : Ptr) (bs fs : List Ptr)
    → (gs ++ x ∷ []) ++ (bs ++ fs) ≡ gs ++ (x ∷ bs ++ fs)
main_same gs x bs fs = append_assoc gs (x ∷ []) (bs ++ fs)

gray_kept :
    {g : Ptr} (ws gs : List Ptr) (x : Ptr) (bs fs : List Ptr)
    → GrayAt g (view ws (gs ++ x ∷ []) bs fs)
    → GrayAt g (view ws gs (x ∷ bs) fs)
gray_kept ws [] x bs fs (inl h) = absurd (cons-ne-nil x [] h.1)
  where
    cons-ne-nil : (x : Ptr) (xs : List Ptr) → ◌≢◌ {A = List Ptr} (x ∷ xs) []
    cons-ne-nil x xs e = cc
gray_kept ws (w ∷ gs) x bs fs (inl h) = absurd (cons-ne-nil w (gs ++ x ∷ []) h.1)
  where
    cons-ne-nil : (x : Ptr) (xs : List Ptr) → ◌≢◌ {A = List Ptr} (x ∷ xs) []
    cons-ne-nil x xs e = cc
gray_kept ws [] x bs fs (inr h) = inr h
gray_kept ws (w ∷ gs) x bs fs (inr h) = inr h

module _ (marked_color unmarked_color : ℕ) (s : GroupState) (ws gs : List Ptr) (x : Ptr)
    (bs fs : List Ptr) (small : marked_color < 4)
    (i : IsGroup marked_color unmarked_color s (view ws (gs ++ x ∷ []) bs fs)) where
  all_nodes : AreNodes (ws ++ (gs ++ (x ∷ bs ++ fs)))
  all_nodes = rw (← main_same gs x bs fs) i.linked.nodes

  others : AreNodes (x ∷ ((ws ++ gs) ++ (bs ++ fs)))
  others =
      AreNodes-middle (ws ++ gs) x (bs ++ fs) (rw (append_assoc ws gs (x ∷ bs ++ fs)) all_nodes)

  front : AreNodes (x ∷ (ws ++ gs))
  front = AreNodes-left (x ∷ (ws ++ gs)) (bs ++ fs) others

  ws_nodes : AreNodes (x ∷ ws)
  ws_nodes = AreNodes-left (x ∷ ws) gs front

  gs_nodes : AreNodes (x ∷ gs)
  gs_nodes = AreNodes-right ws (x ∷ gs) (middle-AreNodes ws x gs front)

  back : AreNodes (x ∷ (bs ++ fs))
  back = AreNodes-right (ws ++ gs) (x ∷ (bs ++ fs)) (middle-AreNodes (ws ++ gs) x (bs ++ fs) others)

  bs_nodes : AreNodes (x ∷ bs)
  bs_nodes = AreNodes-left (x ∷ bs) fs back

  fs_nodes : AreNodes (x ∷ fs)
  fs_nodes = AreNodes-right bs (x ∷ fs) (middle-AreNodes bs x fs back)

  painted :
      (c : ℕ) (l : List Ptr)
      → AreNodes (x ∷ l)
      → AllColor s.mem c l
      → AllColor (set_color s.mem x marked_color) c l
  painted c l n h = AllColor-set_color s.mem x marked_color n.0.0.0 small c l n.1.0 h

  -- For a group that represents its lists, where the marked color has two bits, the end of a scan
  -- takes the last gray object to the front of the black ones, with the marked color, and counts
  -- it; the fields and links represent the new lists.
  pub blacken-IsGroup :
      IsGroup marked_color unmarked_color (blacken marked_color x s) (view ws gs (x ∷ bs) fs)
  unfolding blacken
  blacken-IsGroup =
      let f = i.fields in
      let l = i.linked in
      let main_nodes = AreNodes-right ws (gs ++ (x ∷ bs ++ fs)) all_nodes in
      record {
        fields = record {
          white = f.white;
          free = f.free;
          last = f.last ∙ ap (last_or 0) (main_same gs x bs fs);
          black = inl (refl, λ e. absurd (others.0.0.1 e));
          gray = gray_kept ws gs x bs fs f.gray;
        };
        white_count = i.white_count;
        black_count = omega (arith, i.black_count);
        linked = record {
          nodes = all_nodes;
          white_chain =
              IsChain-set_color s.mem x marked_color others.0.0.0 small ws ws_nodes.0.1
                l.white_chain;
          main_chain =
              IsChain-set_color s.mem x marked_color others.0.0.0 small (gs ++ (x ∷ bs ++ fs))
                main_nodes.0 (rw (← main_same gs x bs fs) l.main_chain);
          white_color = painted unmarked_color ws ws_nodes l.white_color;
          gray_color = painted gray gs gs_nodes (All-append_left _ gs (x ∷ []) l.gray_color);
          black_color = (
            get_color-set_color_self s.mem x marked_color small,
            painted marked_color bs bs_nodes l.black_color,
          );
          green_color = painted green fs fs_nodes l.green_color;
        };
      }
