-- ===== src/Group/Extend.antt =====
-- The part of init_pages_for_group in rtalloc.c that links in new objects.
pub mod Objects
mod Links
use rtgc.Common.{
  ℕ, zero, suc, ◌+◌, ◌%◌, ◌<◌, ◌≡◌, ◌≢◌, inl, inr, refl, sym, ◌∙◌, ap, List, [], ◌∷◌, ◌++◌, length,
  All, All-append_left, All-append_right, eq_of_==, Bool-cases, ◌==◌, if◌then◌else◌, ==-true,
  ==-false, Returns, returns, head_or, last_or, last_or-append, head_or-append, append_assoc,
  append-nil, arith, ok, ◌∉◌, Disjoint,
}
use rtgc.InfoBits.{Mem, Ptr, green, gray, set_next, set_prev}
use rtgc.InfoBits.Words.{Aligned}
use rtgc.Chain.{link_next, link_prev, IsNode, AreNodes, IsChain, nil, AllColor}
use rtgc.Chain.Laws.{IsChain-link_next, All-last_or}
use rtgc.Chain.Nodes.{
  AreNodes-left, AreNodes-right, AreNodes-swap, AreNodes-Disjoint, last_or-Aligned, last_or-away,
  head_or-Aligned, head_or-away, AreNodes-part_left, AreNodes-part_right,
}
use rtgc.Chain.Join.{
  IsChain-link_next_other, IsChain-link_prev_other, AllColor-link_next, AllColor-link_prev,
  join_back, join_back-IsChain, join_back-IsChain_other, join_back-AllColor,
}
use rtgc.Group.{Group, GroupState, init_objects, add_objects}
use rtgc.Group.View.{View, view, main, BlackAt, GrayAt, IsFields, IsLinked, IsGroup}
use Objects.{
  objects, stop, SameHeader, IsChain-same, AllColor-same, init_objects_other, init_objects-IsChain,
}
use Links.{
  laid_out, extended, laid_out-IsChain, laid_out-AllColor, laid_out_color, extended-AllColor,
  extended-IsChain, extended-IsChain_other, extended-eq,
}

cons-ne-nil : (x : Ptr) (xs : List Ptr) → ◌≢◌ {A = List Ptr} (x ∷ xs) []
cons-ne-nil x xs e = cc

-- `black` once the new objects stand at `base`.
black_of :
    (b l base : Ptr) (ws gs bs os : List Ptr)
    → All IsNode (gs ++ bs)
    → base ≡ head_or os 0
    → l ≡ last_or 0 (gs ++ (bs ++ []))
    → BlackAt b (view ws gs bs [])
    → BlackAt (if l == 0 then base else b) (view ws gs bs os)
black_of b l base ws [] [] os n e q h = inl (rw (q, e) refl, λ z. refl)
black_of b l base ws [] (y ∷ bs) os n e q (inl h) =
    inl (ground (arith, q, h.0, append-nil bs, ne), λ z. refl)
  where
    ne : last_or y bs ≢ 0
    ne = (All-last_or IsNode y bs n.0 n.1).1
black_of b l base ws [] (y ∷ bs) os n e q (inr h) = absurd (h.1 refl)
black_of b l base ws (w ∷ gs) bs os n e q h =
    rw (==-false l 0 (λ z. (ends w gs bs n) (sym q ∙ z))) (kept bs h)
  where
    ends :
        (w : Ptr) (gs bs : List Ptr)
        → All IsNode (w ∷ gs ++ bs)
        → last_or 0 (w ∷ gs ++ (bs ++ [])) ≢ 0
    ends w gs bs n = rw (append-nil bs) (All-last_or IsNode w (gs ++ bs) n.0 n.1).1

    kept : (bs : List Ptr) → BlackAt b (view ws (w ∷ gs) bs []) → BlackAt b (view ws (w ∷ gs) bs os)
    kept [] (inl h) = absurd (cons-ne-nil w gs (h.1 h.0))
    kept (y ∷ bs) (inl h) = inl h
    kept bs (inr h) = inr h

module _ (marked_color unmarked_color : ℕ) (s : GroupState) (ws gs bs : List Ptr) (k : ℕ)
    (base : Ptr) (hs : Aligned s.group.size)
    (i : IsGroup marked_color unmarked_color s (view ws gs bs []))
    (d : AreNodes (ws ++ (gs ++ (bs ++ objects s.group.size (suc k) base)))) where
  abbrev os : List Ptr
  os = objects s.group.size (suc k) base

  abbrev ms : List Ptr
  ms = gs ++ bs

  abbrev after : GroupState
  after =
      let g = s.group in
      record {
        mem = extended s.mem s.group.size (suc k) base ms;
        group = record g {
          free = base;
          black = if g.last == 0 then base else g.black;
          last = last_or base (objects s.group.size k (base + s.group.size));
        };
      }

  ms_os : AreNodes (ms ++ os)
  ms_os = rw (append_assoc gs bs os) (AreNodes-right ws (gs ++ (bs ++ os)) d)

  nos : AreNodes os
  nos = AreNodes-right ms os ms_os

  nms : AreNodes ms
  nms = AreNodes-left ms os ms_os

  all_parts : AreNodes ((ws ++ ms) ++ os)
  all_parts = rw (append_assoc ws ms os, append_assoc gs bs os) d

  ws_os : AreNodes (ws ++ os)
  ws_os = AreNodes-part_left ws ms os all_parts

  ws_ms : AreNodes (ws ++ ms)
  ws_ms = AreNodes-left (ws ++ ms) os all_parts

  gs_os : AreNodes (gs ++ os)
  gs_os = AreNodes-part_left gs bs os ms_os

  bs_os : AreNodes (bs ++ os)
  bs_os = AreNodes-part_right gs bs os ms_os

  keeps_color :
      (c : ℕ) (zs : List Ptr)
      → AreNodes (zs ++ os)
      → AllColor s.mem c zs
      → AllColor (extended s.mem s.group.size (suc k) base ms) c zs
  keeps_color c zs dz h =
      extended-AllColor s.mem s.group.size (suc k) base hs c ms zs ms_os (AreNodes-left zs os dz).0
        (laid_out_color s.mem s.group.size (suc k) base hs nos zs dz c h)

  old-IsChain : IsChain s.mem 0 ms 0
  old-IsChain = rw (sym (ap (λ t. gs ++ t) (append-nil bs))) i.linked.main_chain

  after-IsGroup : IsGroup marked_color unmarked_color after (view ws gs bs os)
  after-IsGroup =
      let f = i.fields in
      let l = i.linked in
      record {
        fields = record {
          white = f.white;
          free = refl;
          last = sym (last_or-append 0 gs (bs ++ os) ∙ last_or-append (last_or 0 gs) bs os);
          black = black_of s.group.black s.group.last base ws gs bs os nms.0 refl f.last f.black;
          gray = f.gray;
        };
        white_count = i.white_count;
        black_count = i.black_count;
        linked = record {
          nodes = d;
          white_chain =
              extended-IsChain_other s.mem s.group.size (suc k) base hs ms ws ms_os
                (AreNodes-swap ws ms ws_ms) ws_os l.white_chain;
          main_chain =
              rw (← append_assoc gs bs os)
                (extended-IsChain s.mem s.group.size (suc k) base hs ms ms_os old-IsChain);
          white_color = keeps_color unmarked_color ws ws_os l.white_color;
          gray_color = keeps_color gray gs gs_os l.gray_color;
          black_color = keeps_color marked_color bs bs_os l.black_color;
          green_color =
              extended-AllColor s.mem s.group.size (suc k) base hs green ms os ms_os nos.0
                (laid_out-AllColor s.mem s.group.size (suc k) base hs nos);
        };
      }

  last_object : (init_objects s.group.size (suc k) 0 base s.mem).1 ≡ last_or 0 os
  last_object = (init_objects-IsChain s.group.size (suc k) 0 base s.mem hs refl nos).2

  last_ne_zero : last_or 0 os ≢ 0
  last_ne_zero = (All-last_or IsNode base _ nos.0.0 nos.0.1).1

  closed :
      laid_out s.mem s.group.size (suc k) base
      ≡ set_next (init_objects s.group.size (suc k) 0 base s.mem).0 (last_or 0 os) 0
  unfolding link_next
  closed = rw (==-false _ 0 last_ne_zero)

  add_objects-eq-after : add_objects (suc k) base s ≡ ok after
  unfolding add_objects
  add_objects-eq-after =
      let last_ms : s.group.last ≡ last_or 0 ms =
        i.fields.last ∙ ap (λ t. last_or 0 (gs ++ t)) (append-nil bs) in
      rw
        (
          i.fields.free,
          last_object,
          ← closed,
          extended-eq s.mem s.group.size (suc k) base hs ms s.group.last ms_os nos.0.0.1 refl
              last_ms,
        )
        refl

  -- For a group that represents its lists and has no free object, and whose size is a multiple of
  -- 16, the objects of new pages, at least one, are linked in: they become its free objects,
  -- green and in address order, behind the list that the group has. Their addresses have to be
  -- distinct nodes, apart from the objects of the group.
  pub add_objects-IsGroup :
      Returns
        (λ s'. IsGroup marked_color unmarked_color s' (view ws gs bs os))
        (add_objects (suc k) base s)
  add_objects-IsGroup = rw add_objects-eq-after (returns after-IsGroup)
