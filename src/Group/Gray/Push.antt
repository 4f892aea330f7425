-- ===== src/Group/Gray/Push.antt =====
-- The part of RTmake_object_gray that links an object in before the list.
use rtgc.Common.{
  ℕ, ◌≡◌, ◌≢◌, ◌⊎◌, refl, List, [], ◌∷◌, ◌++◌, ok, ◌==◌, if◌then◌else◌, ==-false, All, ◌∉◌, head_or,
  arith,
}
use rtgc.InfoBits.{Mem, Ptr, set_prev, set_next, next_link}
use rtgc.InfoBits.Fields.{prev_link-set_prev_self}
use rtgc.Chain.{link_next, link_prev, IsNode, AreNodes, IsChain, nil, cons, AllColor}
use rtgc.Chain.Laws.{IsChain-set_prev_other, AllColor-set_prev}
use rtgc.Chain.Join.{join, join-IsChain, join-IsChain_other, join-AllColor}
use rtgc.Group.{Group, GroupState, link_gray}
use rtgc.Group.View.{view, IsFields}

-- The three writes that put `x` before a list that begins with `h`.
abbrev pub push : Mem → Ptr → Ptr → Mem
push m x h = link_prev (set_next (set_prev m x 0) x h) h x

-- The group after link_gray.
abbrev pub with_gray : Group → Ptr → Group
with_gray g x =
    if g.gray == 0 then (if g.black == 0 then record g { black = x; last = x } else g) else g

-- `h` is where link_gray finds the first object of the list.
abbrev pub Enters : Group → Ptr → Type 0
Enters g h = ((g.gray ≡ 0) × (g.black ≡ h) × (h ≡ 0 → g.free ≡ 0)) ⊎ ((g.gray ≡ h) × (h ≢ 0))

pub link_gray-eq-push :
    (x h : Ptr) (s : GroupState)
    → Enters s.group h
    → link_gray x s ≡ ok (record { mem = push s.mem x h; group = with_gray s.group x })
unfolding link_gray link_next link_prev
link_gray-eq-push x h s e = ground arith

pub IsFields-Enters :
    {g : Group} (ws gs bs fs : List Ptr)
    → All IsNode (gs ++ (bs ++ fs))
    → IsFields g (view ws gs bs fs)
    → Enters g (head_or (gs ++ (bs ++ fs)) 0)
IsFields-Enters ws [] [] [] n f = ground (arith, f.free)
IsFields-Enters ws [] [] (z ∷ fs) n f = ground (arith, f.gray, f.black)
IsFields-Enters ws [] (y ∷ bs) fs n f = ground (arith, f.gray, f.black)
IsFields-Enters ws (w ∷ gs) bs fs n f = ground (arith, f.gray)

push-eq-join :
    (m : Mem) (x : Ptr) (zs : List Ptr)
    → x ≢ 0
    → push m x (head_or zs 0) ≡ join (set_prev m x 0) (x ∷ []) zs
unfolding link_next
push-eq-join m x zs ne = rw (==-false x 0 ne)

module _ (m : Mem) (x : Ptr) (zs : List Ptr) (n : AreNodes (x ∷ zs)) where
  before_join : IsChain (set_prev m x 0) 0 (x ∷ []) (next_link (set_prev m x 0) x)
  before_join = cons (prev_link-set_prev_self m x 0 refl) refl nil

  pub push-IsChain : IsChain m 0 zs 0 → IsChain (push m x (head_or zs 0)) 0 (x ∷ zs) 0
  push-IsChain h = rw (push-eq-join m x zs n.0.0.1) (
      join-IsChain (set_prev m x 0) (x ∷ []) zs n before_join
        (IsChain-set_prev_other m x 0 n.0.0.0 refl zs n.0.1 n.1.0 h))

  pub push-IsChain_other :
      (ys : List Ptr)
      → AreNodes (x ∷ ys)
      → AreNodes (zs ++ ys)
      → IsChain m 0 ys 0
      → IsChain (push m x (head_or zs 0)) 0 ys 0
  push-IsChain_other ys nx nz h = rw (push-eq-join m x zs n.0.0.1) (
      join-IsChain_other (set_prev m x 0) (x ∷ []) zs n ys nx nz
        (IsChain-set_prev_other m x 0 n.0.0.0 refl ys nx.0.1 nx.1.0 h))

  pub push-AllColor :
      (c : ℕ) (ys : List Ptr)
      → All IsNode ys
      → AllColor m c ys
      → AllColor (push m x (head_or zs 0)) c ys
  push-AllColor c ys ny h = rw (push-eq-join m x zs n.0.0.1) (
      join-AllColor (set_prev m x 0) (x ∷ []) zs n c ys ny
        (AllColor-set_prev m x 0 n.0.0.0 refl c ys h))

pub white_head :
    (xs : List Ptr) (x : Ptr) (ys : List Ptr) (w : Ptr)
    → x ∉ xs
    → w ≡ head_or (xs ++ x ∷ ys) 0
    → (if x == w then head_or ys 0 else w) ≡ head_or (xs ++ ys) 0
white_head [] x ys w o e = ground arith
white_head (z ∷ xs) x ys w o e = ground (arith, o.0)
