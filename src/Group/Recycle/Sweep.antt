-- ===== src/Group/Recycle/Sweep.antt =====
-- The loop of recycle_group_garbage in rtgc.c.
use rtgc.Common.{
  ℕ, zero, suc, ◌+◌, ◌<◌, ◌≡◌, sym, ◌∙◌, ap, List, [], ◌∷◌, length, All, ◌∉◌, ok, head_or, last_or,
  ==-false, arith, Disjoint,
}
use rtgc.InfoBits.{Mem, Ptr, set_color, green, next_link}
use rtgc.InfoBits.Fields.{get_color-set_color_self}
use rtgc.Chain.{IsNode, AreNodes, IsChain, cons, AllColor}
use rtgc.Chain.Laws.{IsChain-set_color, AllColor-set_color}
use rtgc.Group.{sweep}

abbrev pub paint : Mem → List Ptr → Mem
paint m [] = m
paint m (x ∷ xs) = paint (set_color m x green) xs

module _ {m : Mem} where
  IsChain-tail : {b a x : Ptr} {xs : List Ptr} → IsChain m b (x ∷ xs) a → IsChain m x xs a
  IsChain-tail (cons e f h) = h

  chain_next : {b a x : Ptr} {xs : List Ptr} → IsChain m b (x ∷ xs) a → next_link m x ≡ head_or xs a
  chain_next (cons e f h) = f

pub sweep-eq-paint :
    (fuel : ℕ) (m : Mem) (b l n : ℕ) (xs : List Ptr)
    → length xs < fuel
    → All IsNode xs
    → IsChain m b xs 0
    → sweep fuel (head_or xs 0) (record { mem = m; last = l; count = n })
      ≡ ok (record { mem = paint m xs; last = last_or l xs; count = n + length xs })
unfolding sweep
sweep-eq-paint zero m b l n xs h k c = absurd (omega arith)
sweep-eq-paint (suc fuel) m b l n [] h k c =
    ap (λ t. ok (record { mem = m; last = l; count = t })) (omega arith)
sweep-eq-paint (suc fuel) m b l n (x ∷ xs) h k c =
    let c' = IsChain-set_color m x green k.0.0 (omega arith) (x ∷ xs) k c in
    rw (==-false x 0 k.0.1, chain_next c')
      (sweep-eq-paint fuel (set_color m x green) x x (n + 1) xs (omega arith) k.1 (IsChain-tail c')
        ∙ ap
            (λ t.
              ok (record { mem = paint (set_color m x green) xs; last = last_or x xs; count = t }))
            (omega arith))

pub IsChain-paint :
    (m : Mem) (xs zs : List Ptr) {b a : Ptr}
    → All IsNode xs
    → All IsNode zs
    → IsChain m b zs a
    → IsChain (paint m xs) b zs a
IsChain-paint m [] zs n k h = h
IsChain-paint m (x ∷ xs) zs n k h =
    IsChain-paint (set_color m x green) xs zs n.1 k
      (IsChain-set_color m x green n.0.0 (omega arith) zs k h)

pub AllColor-paint :
    (m : Mem) (c : ℕ) (xs zs : List Ptr)
    → All IsNode xs
    → Disjoint xs zs
    → AllColor m c zs
    → AllColor (paint m xs) c zs
AllColor-paint m c [] zs n d h = h
AllColor-paint m c (x ∷ xs) zs n d h =
    AllColor-paint (set_color m x green) c xs zs n.1 d.1
      (AllColor-set_color m x green n.0.0 (omega arith) c zs d.0 h)

not_in_singleton : (x : Ptr) (xs : List Ptr) → x ∉ xs → Disjoint xs (x ∷ [])
not_in_singleton x [] o = tt
not_in_singleton x (y ∷ xs) o = ((λ e. o.0 (sym e), tt), not_in_singleton x xs o.1)

pub paint-AllColor : (m : Mem) (xs : List Ptr) → AreNodes xs → AllColor (paint m xs) green xs
paint-AllColor m [] n = tt
paint-AllColor m (x ∷ xs) n = (
  (AllColor-paint (set_color m x green) green xs (x ∷ []) n.0.1 (not_in_singleton x xs n.1.0)
      (get_color-set_color_self m x green (omega arith), tt)).0,
  paint-AllColor (set_color m x green) xs (n.0.1, n.1.1),
)
