-- ===== src/Group/Flip.antt =====
-- The body of the loop of flip in rtgc.c, on the lists of the group.
use rtgc.Common.{
  ℕ, ◌+◌, ◌≡◌, inl, inr, refl, ◌∙◌, List, [], ◌∷◌, ◌++◌, ◌==◌, if◌then◌else◌, ==-false, All,
  head_or, last_or, last_or-append, append-nil, arith,
}
use rtgc.InfoBits.{Mem, Ptr}
use rtgc.Chain.{link_next, link_prev, IsNode, AreNodes, IsChain, AllColor}
use rtgc.Chain.Laws.{IsChain-left, IsChain-right, IsChain-link_next, IsChain-link_prev}
use rtgc.Chain.Nodes.{
  AreNodes-left, AreNodes-right, AreNodes-swap, last_or-away, head_or-away, last_or-Aligned,
  head_or-Aligned,
}
use rtgc.Chain.Join.{
  IsChain-link_next_other, IsChain-link_prev_other, AllColor-link_next, AllColor-link_prev,
  head_links,
}
use rtgc.Group.{Group, GroupState, cut_black_set, flip_group}
use rtgc.Group.View.{view, BlackAt, IsGroup}

-- The two writes that part the chain between `bs` and `fs`.
abbrev pub cut : Mem → (bs fs : List Ptr) → Mem
cut m bs fs = link_prev (link_next m (last_or 0 bs) 0) (head_or fs 0) 0

module _ (m : Mem) (bs fs : List Ptr) (n : AreNodes (bs ++ fs)) (h : IsChain m 0 (bs ++ fs) 0) where
  nb : AreNodes bs
  nb = AreNodes-left bs fs n

  nf : AreNodes fs
  nf = AreNodes-right bs fs n

  cut-front : IsChain (cut m bs fs) 0 bs 0
  cut-front =
      IsChain-link_prev_other _ _ _ (head_or-Aligned fs nf.0) refl bs nb.0
        (head_or-away fs bs (AreNodes-swap bs fs n))
        (IsChain-link_next m 0 bs refl nb (IsChain-left bs fs h))

  cut-back : IsChain (cut m bs fs) 0 fs 0
  cut-back = IsChain-link_prev _ 0 fs refl nf (
      IsChain-link_next_other m _ 0 (last_or-Aligned bs nb.0) refl fs nf.0 (last_or-away bs fs n)
        (IsChain-right bs fs h))

  cut-AllColor :
      (c : ℕ) (zs : List Ptr) → All IsNode zs → AllColor m c zs → AllColor (cut m bs fs) c zs
  cut-AllColor c zs nz k =
      AllColor-link_prev _ _ _ (head_or-Aligned fs nf.0) refl c zs
        (AllColor-link_next m _ _ (last_or-Aligned bs nb.0) refl c zs nz k)

-- The group's part of cut_black_set: `last` is given up where nothing is free.
abbrev pub after_cut : Group → List Ptr → Group
after_cut g [] = record g { last = 0 }
after_cut g (z ∷ fs) = g

cut_black_set-eq-cut :
    (s : GroupState) (bs fs : List Ptr)
    → All IsNode fs
    → IsChain s.mem 0 (bs ++ fs) 0
    → s.group.free ≡ head_or fs 0
    → s.group.last ≡ last_or 0 (bs ++ fs)
    → cut_black_set s ≡ record { mem = cut s.mem bs fs; group = after_cut s.group fs }
unfolding cut_black_set link_prev
cut_black_set-eq-cut s bs [] n h e l = rw (e, l, append-nil)
cut_black_set-eq-cut s bs (z ∷ fs) n h e l =
    rw (e, ==-false z 0 n.0.1, (head_links (IsChain-right bs (z ∷ fs) h)).0)

-- What `white` becomes.
white_of :
    (b f : Ptr) (bs fs : List Ptr)
    → AreNodes (bs ++ fs)
    → b ≡ head_or (bs ++ fs) 0
    → f ≡ head_or fs 0
    → (if b == f then 0 else b) ≡ head_or bs 0
white_of b f [] fs n p q = ground arith
white_of b f (y ∷ bs) [] n p q = ground (arith, n.0.0.1)
white_of b f (y ∷ bs) (z ∷ fs) n p q =
    ground (arith, (head_or-away (z ∷ fs) (y ∷ bs) (AreNodes-swap (y ∷ bs) (z ∷ fs) n)).0)

black_of : {b : Ptr} (ws bs fs : List Ptr) → BlackAt b (view ws [] bs fs) → b ≡ head_or (bs ++ fs) 0
black_of ws bs fs (inl h) = h.0
black_of ws bs fs (inr h) = absurd (h.1 refl)

last_of :
    (g : Group) (bs fs : List Ptr)
    → g.last ≡ last_or 0 (bs ++ fs)
    → (after_cut g fs).last ≡ last_or 0 fs
last_of g bs [] e = refl
last_of g bs (z ∷ fs) e = e ∙ last_or-append 0 bs (z ∷ fs)

after_cut_same :
    (g : Group) (fs : List Ptr)
    → ((after_cut g fs).black ≡ g.black)
      × ((after_cut g fs).free ≡ g.free)
      × ((after_cut g fs).black_scanned_count ≡ g.black_scanned_count)
      × ((after_cut g fs).black_alloc_count ≡ g.black_alloc_count)
after_cut_same g [] = (refl, refl, refl, refl)
after_cut_same g (z ∷ fs) = (refl, refl, refl, refl)

module _ (marked_color unmarked_color : ℕ) (s : GroupState) (bs fs : List Ptr)
    (i : IsGroup marked_color unmarked_color s (view [] [] bs fs)) where
  abbrev pub flipped : GroupState
  flipped =
      let g = after_cut s.group fs in
      record {
        mem = cut s.mem bs fs;
        group = record g {
          white = if g.black == g.free then 0 else g.black;
          black = g.free;
          gray = 0;
          white_count = g.black_scanned_count + g.black_alloc_count;
          black_scanned_count = 0;
          black_alloc_count = 0;
        };
      }

  n : AreNodes (bs ++ fs)
  n = i.linked.nodes

  pub flipped-IsGroup : IsGroup unmarked_color marked_color flipped (view bs [] [] fs)
  flipped-IsGroup =
      let l = i.linked in
      let f = i.fields in
      let same = after_cut_same s.group fs in
      record {
        fields = record {
          white = white_of _ _ bs fs n (same.0 ∙ black_of [] bs fs f.black) (same.1 ∙ f.free);
          free = same.1 ∙ f.free;
          last = last_of s.group bs fs f.last;
          black = inl (same.1 ∙ f.free, λ e. refl);
          gray = inl (refl, refl);
        };
        white_count = omega (arith, same, i.black_count);
        black_count = refl;
        linked = record {
          nodes = n;
          white_chain = cut-front s.mem bs fs n l.main_chain;
          main_chain = cut-back s.mem bs fs n l.main_chain;
          white_color =
              cut-AllColor s.mem bs fs n l.main_chain marked_color bs (AreNodes-left bs fs n).0
                l.black_color;
          gray_color = tt;
          black_color = tt;
          green_color =
              cut-AllColor s.mem bs fs n l.main_chain 3 fs (AreNodes-right bs fs n).0 l.green_color;
        };
      }

  pub flip_group-eq-flipped : flip_group s ≡ flipped
  unfolding flip_group
  flip_group-eq-flipped =
      rw
        (cut_black_set-eq-cut s bs fs (AreNodes-right bs fs n).0 i.linked.main_chain i.fields.free
          i.fields.last)
        refl

  -- For a group that represents its lists and has nothing white or gray, the flip makes its black
  -- objects the white list, under the exchanged colors, and leaves exactly the free objects on
  -- the main list.
  pub flip_group-IsGroup : IsGroup unmarked_color marked_color (flip_group s) (view bs [] [] fs)
  flip_group-IsGroup = rw flip_group-eq-flipped flipped-IsGroup
