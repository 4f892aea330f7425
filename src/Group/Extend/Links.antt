-- ===== src/Group/Extend/Links.antt =====
-- Links and colors once the objects of new pages stand behind the list of the group.
use rtgc.Common.{
  ℕ, ◌≡◌, ◌≢◌, refl, List, [], ◌∷◌, ◌++◌, All, All-append_left, ◌==◌, if◌then◌else◌, ==-false,
  head_or, last_or, Disjoint,
}
use rtgc.InfoBits.{Mem, Ptr, green, set_next, set_prev}
use rtgc.InfoBits.Words.{Aligned}
use rtgc.Chain.{link_next, link_prev, IsNode, AreNodes, IsChain, AllColor}
use rtgc.Chain.Laws.{IsChain-link_next, All-last_or}
use rtgc.Chain.Nodes.{
  AreNodes-left, AreNodes-right, AreNodes-swap, AreNodes-Disjoint, last_or-Aligned, last_or-away,
}
use rtgc.Chain.Join.{
  IsChain-link_next_other, AllColor-link_next, join_back, join_back-IsChain,
  join_back-IsChain_other, join_back-AllColor,
}
use rtgc.Group.{init_objects}
use rtgc.Group.Extend.Objects.{
  objects, SameHeader, IsChain-same, AllColor-same, init_objects_other, init_objects-IsChain,
}

-- The new objects, laid out and closed, behind the chain `ms`.
abbrev pub laid_out : Mem → (size k : ℕ) → (base : Ptr) → Mem
laid_out m size k base =
    link_next (init_objects size k 0 base m).0 (last_or 0 (objects size k base)) 0

abbrev pub extended : Mem → (size k : ℕ) → (base : Ptr) → List Ptr → Mem
extended m size k base [] = laid_out m size k base
extended m size k base (x ∷ ms) = join_back (laid_out m size k base) (x ∷ ms) (objects size k base)

All-other :
    (m : Mem) (size k : ℕ) (base : Ptr) (zs : List Ptr)
    → Aligned size
    → All IsNode (objects size k base)
    → All IsNode zs
    → Disjoint zs (objects size k base)
    → All (SameHeader m (init_objects size k 0 base m).0) zs
All-other m size k base [] hs n zs_nodes d = tt
All-other m size k base (z ∷ zs) hs n zs_nodes d = (
  init_objects_other size k 0 base m z hs refl n zs_nodes.0.0 d.0,
  All-other m size k base zs hs n zs_nodes.1 d.1,
)

module _ (m : Mem) (size k : ℕ) (base : Ptr) (hs : Aligned size)
    (n : AreNodes (objects size k base)) where
  pub laid_out-IsChain : IsChain (laid_out m size k base) 0 (objects size k base) 0
  laid_out-IsChain =
      IsChain-link_next _ 0 _ refl n (init_objects-IsChain size k 0 base m hs refl n).0

  pub laid_out-AllColor : AllColor (laid_out m size k base) green (objects size k base)
  laid_out-AllColor =
      AllColor-link_next _ _ 0 (last_or-Aligned _ n.0) refl green _ n.0
        (init_objects-IsChain size k 0 base m hs refl n).1

  module _ (zs : List Ptr) (d : AreNodes (zs ++ objects size k base)) where
    zs_nodes : AreNodes zs
    zs_nodes = AreNodes-left zs (objects size k base) d

    same : All (SameHeader m (init_objects size k 0 base m).0) zs
    same =
        All-other m size k base zs hs n.0 zs_nodes.0 (AreNodes-Disjoint zs (objects size k base) d)

    laid_out_other : {b a : Ptr} → IsChain m b zs a → IsChain (laid_out m size k base) b zs a
    laid_out_other h =
        IsChain-link_next_other _ _ 0 (last_or-Aligned _ n.0) refl zs zs_nodes.0
          (last_or-away (objects size k base) zs (AreNodes-swap zs (objects size k base) d))
          (IsChain-same zs same h)

    pub laid_out_color : (c : ℕ) → AllColor m c zs → AllColor (laid_out m size k base) c zs
    laid_out_color c h =
        AllColor-link_next _ _ 0 (last_or-Aligned _ n.0) refl c zs zs_nodes.0
          (AllColor-same m _ c zs same h)

module _ (m : Mem) (size k : ℕ) (base : Ptr) (hs : Aligned size) where
  pub extended-AllColor :
      (c : ℕ) (ms zs : List Ptr)
      → AreNodes (ms ++ objects size k base)
      → All IsNode zs
      → AllColor (laid_out m size k base) c zs
      → AllColor (extended m size k base ms) c zs
  extended-AllColor c [] zs n zn h = h
  extended-AllColor c (x ∷ ms) zs n zn h =
      join_back-AllColor _ (x ∷ ms) (objects size k base) n c zs zn h

  pub extended-IsChain :
      {a : Ptr} (ms : List Ptr)
      → AreNodes (ms ++ objects size k base)
      → IsChain m 0 ms a
      → IsChain (extended m size k base ms) 0 (ms ++ objects size k base) 0
  extended-IsChain [] n h = laid_out-IsChain m size k base hs n
  extended-IsChain (x ∷ ms) n h =
      let no = AreNodes-right (x ∷ ms) (objects size k base) n in
      join_back-IsChain _ (x ∷ ms) (objects size k base) n
        (laid_out_other m size k base hs no (x ∷ ms) n h) (laid_out-IsChain m size k base hs no)

  pub extended-IsChain_other :
      (ms zs : List Ptr)
      → AreNodes (ms ++ objects size k base)
      → AreNodes (ms ++ zs)
      → AreNodes (zs ++ objects size k base)
      → IsChain m 0 zs 0
      → IsChain (extended m size k base ms) 0 zs 0
  extended-IsChain_other [] zs n zn d h = laid_out_other m size k base hs n zs d h
  extended-IsChain_other (x ∷ ms) zs n zn d h =
      let no = AreNodes-right (x ∷ ms) (objects size k base) n in
      join_back-IsChain_other _ (x ∷ ms) (objects size k base) n zs zn
        (AreNodes-swap zs (objects size k base) d) (laid_out_other m size k base hs no zs d h)

  -- Both writes are made where there is a list, and neither where there is none.
  pub extended-eq :
      (ms : List Ptr) (l : Ptr)
      → AreNodes (ms ++ objects size k base)
      → base ≢ 0
      → head_or (objects size k base) 0 ≡ base
      → l ≡ last_or 0 ms
      → (if l == 0
          then laid_out m size k base
          else set_next (set_prev (laid_out m size k base) base l) l base)
        ≡ extended m size k base ms
  unfolding link_next link_prev
  extended-eq [] l n b o e = rw e refl
  extended-eq (x ∷ ms) l n b o e =
      rw
        (
          e,
          o,
          ==-false (last_or x ms) 0
              (All-last_or IsNode x ms n.0.0 (All-append_left IsNode ms _ n.0.1)).1,
          ==-false base 0 b,
        )
        refl
