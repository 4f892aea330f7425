-- ===== src/Group/Recycle.antt =====
-- recycle_group_garbage of rtgc.c, on the lists of the group.
pub mod Sweep
use rtgc.Common.{
  ℕ, ◌+◌, ◌<◌, ◌≡◌, ◌≢◌, inl, inr, refl, sym, ◌∙◌, ap, List, [], ◌∷◌, ◌++◌, length, All, All-append,
  ◌==◌, if◌then◌else◌, ==-true, ==-false, Returns, returns, head_or, last_or, last_or-append,
  head_or-append, append_assoc, append-nil, arith, ok,
}
use rtgc.InfoBits.{Mem, Ptr, green, set_next, set_prev}
use rtgc.Chain.{link_next, link_prev, IsNode, AreNodes, IsChain, nil, AllColor}
use rtgc.Chain.Laws.{IsChain-link_next, All-last_or}
use rtgc.Chain.Nodes.{
  AreNodes-left, AreNodes-right, AreNodes-swap, AreNodes-Disjoint, last_or-Aligned, last_or-away,
  AreNodes-part_left,
}
use rtgc.Chain.Join.{join, join-IsChain, join-AllColor, AllColor-link_next, IsChain-link_next_other}
use rtgc.Group.{Group, GroupState, Swept, append_garbage, recycle_group_garbage}
use rtgc.Group.View.{View, view, main, BlackAt, GrayAt, IsFields, IsLinked, IsGroup}
use Sweep.{paint, sweep-eq-paint, IsChain-paint, AllColor-paint, paint-AllColor}

-- The memory after the garbage `ws` is linked in behind `ms`.
abbrev pub appended : Mem → (ms ws : List Ptr) → Mem
appended m ms ws = join (link_next (paint m ws) (last_or 0 ws) 0) ms ws

module _ (m : Mem) (ms ws : List Ptr) (n : AreNodes (ms ++ ws)) where
  nw : AreNodes ws
  nw = AreNodes-right ms ws n

  nm : AreNodes ms
  nm = AreNodes-left ms ws n

  apart : AreNodes (ws ++ ms)
  apart = AreNodes-swap ms ws n

  appended-IsChain :
      {a b : Ptr} → IsChain m 0 ms a → IsChain m 0 ws b → IsChain (appended m ms ws) 0 (ms ++ ws) 0
  appended-IsChain h k =
      join-IsChain _ ms ws n
        (IsChain-link_next_other _ _ 0 (last_or-Aligned ws nw.0) refl ms nm.0
          (last_or-away ws ms apart) (IsChain-paint m ws ms nw.0 nm.0 h))
        (IsChain-link_next _ 0 ws refl nw (IsChain-paint m ws ws nw.0 nw.0 k))

  appended-AllColor :
      (c : ℕ) (zs : List Ptr)
      → All IsNode zs
      → AllColor (paint m ws) c zs
      → AllColor (appended m ms ws) c zs
  appended-AllColor c zs k h =
      join-AllColor _ ms ws n c zs k
        (AllColor-link_next _ _ 0 (last_or-Aligned ws nw.0) refl c zs k h)

free_of :
    (f w : Ptr) (fs ws : List Ptr)
    → All IsNode fs
    → f ≡ head_or fs 0
    → w ≡ head_or ws 0
    → (if f == 0 then w else f) ≡ head_or (fs ++ ws) 0
free_of f w [] ws n p q = ground arith
free_of f w (z ∷ fs) ws n p q = ground (arith, n.0.1)

black_of : {b : Ptr} (ws bs fs : List Ptr) → BlackAt b (view ws [] bs fs) → b ≡ head_or (bs ++ fs) 0
black_of ws bs fs (inl h) = h.0
black_of ws bs fs (inr h) = absurd (h.1 refl)

module _ (marked_color unmarked_color : ℕ) (s : GroupState) (w : Ptr) (ws bs fs : List Ptr)
    (i : IsGroup marked_color unmarked_color s (view (w ∷ ws) [] bs fs)) where
  abbrev pub garbage : List Ptr
  garbage = w ∷ ws

  abbrev pub kept : List Ptr
  kept = bs ++ fs

  abbrev pub recycled : GroupState
  recycled =
      let g = s.group in
      record {
        mem = appended s.mem kept garbage;
        group = record g {
          free = if g.free == 0 then g.white else g.free;
          black = if g.black == 0 then g.white else g.black;
          last = last_or w ws;
          white = 0;
          white_count = 0;
        };
      }

  n : AreNodes (kept ++ garbage)
  n = AreNodes-swap garbage kept i.linked.nodes

  nk : AreNodes kept
  nk = AreNodes-left kept garbage n

  ng : AreNodes garbage
  ng = AreNodes-right kept garbage n

  nb : AreNodes bs
  nb = AreNodes-left bs fs nk

  nf : AreNodes fs
  nf = AreNodes-right bs fs nk

  keeps_color :
      (c : ℕ) (zs : List Ptr)
      → All IsNode zs
      → AreNodes (garbage ++ zs)
      → AllColor s.mem c zs
      → AllColor (appended s.mem kept garbage) c zs
  keeps_color c zs nz d h =
      appended-AllColor s.mem kept garbage n c zs nz
        (AllColor-paint s.mem c garbage zs ng.0 (AreNodes-Disjoint garbage zs d) h)

  g_bs : AreNodes (garbage ++ bs)
  g_bs = AreNodes-left (garbage ++ bs) fs (rw (append_assoc ws bs fs) i.linked.nodes)

  g_fs : AreNodes (garbage ++ fs)
  g_fs = AreNodes-part_left garbage bs fs (rw (append_assoc ws bs fs) i.linked.nodes)

  pub recycled-IsGroup :
      IsGroup marked_color unmarked_color recycled (view [] [] bs (fs ++ garbage))
  recycled-IsGroup =
      let f = i.fields in
      let l = i.linked in
      let b = black_of garbage bs fs f.black in
      record {
        fields = record {
          white = refl;
          free = free_of s.group.free s.group.white fs garbage nf.0 f.free f.white;
          last =
              sym (last_or-append 0 bs (fs ++ garbage) ∙ last_or-append (last_or 0 bs) fs garbage);
          black = inl (
            free_of s.group.black s.group.white kept garbage nk.0 b f.white
                ∙ ap (λ t. head_or t 0) (append_assoc bs fs garbage),
            λ e. refl,
          );
          gray = f.gray;
        };
        white_count = refl;
        black_count = i.black_count;
        linked = record {
          nodes = rw (← append_assoc bs fs garbage) n;
          white_chain = nil;
          main_chain =
              rw (← append_assoc bs fs garbage)
                (appended-IsChain s.mem kept garbage n l.main_chain l.white_chain);
          white_color = tt;
          gray_color = tt;
          black_color = keeps_color marked_color bs nb.0 g_bs l.black_color;
          green_color = All-append _ fs garbage (keeps_color green fs nf.0 g_fs l.green_color) (
              appended-AllColor s.mem kept garbage n green garbage ng.0
                (paint-AllColor s.mem garbage ng));
        };
      }

  pub recycle-eq-recycled :
      (fuel : ℕ) → length garbage < fuel → recycle_group_garbage fuel s ≡ ok recycled
  unfolding recycle_group_garbage append_garbage link_prev link_next
  recycle-eq-recycled fuel h =
      rw
        (
          i.fields.white,
          sweep-eq-paint fuel s.mem 0 0 0 garbage h ng.0 i.linked.white_chain,
          ==-true (0 + length garbage) s.group.white_count (omega (arith, i.white_count)),
          ==-false (last_or w ws) 0 (All-last_or IsNode w ws ng.0.0 ng.0.1).1,
          ==-false w 0 ng.0.0.1,
          i.fields.last,
        )
        refl

-- With nothing white only `white` and its count are set.
abbrev pub unrecycled : GroupState → GroupState
unrecycled s = record s { group = record (s.group) { white = 0; white_count = 0 } }

module _ (marked_color unmarked_color : ℕ) (s : GroupState) (bs fs : List Ptr)
    (i : IsGroup marked_color unmarked_color s (view [] [] bs fs)) where
  pub recycle-eq-unrecycled :
      (fuel : ℕ) → 0 < fuel → recycle_group_garbage fuel s ≡ ok (unrecycled s)
  unfolding recycle_group_garbage
  recycle-eq-unrecycled fuel h =
      rw
        (
          i.fields.white,
          sweep-eq-paint fuel s.mem 0 0 0 [] h tt nil,
          ==-true (0 + 0) s.group.white_count (omega (arith, i.white_count)),
        )
        refl

  pub unrecycled-IsGroup : IsGroup marked_color unmarked_color (unrecycled s) (view [] [] bs fs)
  unrecycled-IsGroup = record {
    fields = record {
      white = refl;
      free = i.fields.free;
      last = i.fields.last;
      black = i.fields.black;
      gray = i.fields.gray;
    };
    white_count = refl;
    black_count = i.black_count;
    linked = i.linked;
  }

-- For a group that represents its lists and has nothing gray, recycling with more fuel than there
-- are white objects ends normally, its check of the white count included. The group then
-- represents lists with no white object, where those that were white are green and stand, in
-- their order, behind the free objects.
pub recycle_group_garbage-IsGroup :
    (marked_color unmarked_color : ℕ) (s : GroupState) (ws bs fs : List Ptr) (fuel : ℕ)
    → IsGroup marked_color unmarked_color s (view ws [] bs fs)
    → length ws < fuel
    → Returns
        (λ s'. IsGroup marked_color unmarked_color s' (view [] [] bs (fs ++ ws)))
        (recycle_group_garbage fuel s)
recycle_group_garbage-IsGroup marked_color unmarked_color s [] bs fs fuel i h =
    rw (append-nil fs, recycle-eq-unrecycled marked_color unmarked_color s bs fs i fuel h)
      (returns (unrecycled-IsGroup marked_color unmarked_color s bs fs i))
recycle_group_garbage-IsGroup marked_color unmarked_color s (w ∷ ws) bs fs fuel i h =
    rw (recycle-eq-recycled marked_color unmarked_color s w ws bs fs i fuel h)
      (returns (recycled-IsGroup marked_color unmarked_color s w ws bs fs i))
