-- ===== src/Chain/Laws.antt =====
-- How writes of links act on chains.
use rtgc.Common.{
  ℕ, ◌≡◌, ◌≢◌, sym, ◌∙◌, List, [], ◌∷◌, ◌++◌, ◌<◌, ◌==◌, All, ◌∉◌, head_or, last_or, false,
  ==-false,
}
use rtgc.InfoBits.{Mem, Ptr, set_prev, set_next, set_color}
use rtgc.InfoBits.Words.{Aligned}
use rtgc.InfoBits.Fields.{
  next_link-set_prev, prev_link-set_next, get_color-set_prev, get_color-set_next,
  prev_link-set_color, next_link-set_color, prev_link-set_prev_self, next_link-set_next_self,
  prev_link-set_prev_ne, next_link-set_next_ne, get_color-set_color_ne,
}
use rtgc.Chain.{link_next, link_prev, IsNode, AreNodes, IsChain, nil, cons, AllColor}

pub All-last_or {ℓ} : (P : ℕ → Type ℓ) (x : ℕ) (xs : List ℕ) → P x → All P xs → P (last_or x xs)
All-last_or P x [] p h = p
All-last_or P x (y ∷ ys) p h = All-last_or P y ys h.0 h.1

module _ {m : Mem} where
  pub append-IsChain :
      {b a : Ptr} (xs ys : List Ptr)
      → IsChain m b xs (head_or ys a)
      → IsChain m (last_or b xs) ys a
      → IsChain m b (xs ++ ys) a
  append-IsChain [] ys h k = k
  append-IsChain (x ∷ []) ys (cons p n h) k = cons p n k
  append-IsChain (x ∷ y ∷ xs) ys (cons p n h) k = cons p n (append-IsChain (y ∷ xs) ys h k)

  pub IsChain-left :
      {b a : Ptr} (xs ys : List Ptr) → IsChain m b (xs ++ ys) a → IsChain m b xs (head_or ys a)
  IsChain-left [] ys h = nil
  IsChain-left (x ∷ []) ys (cons p n h) = cons p n nil
  IsChain-left (x ∷ y ∷ xs) ys (cons p n h) = cons p n (IsChain-left (y ∷ xs) ys h)

  pub IsChain-right :
      {b a : Ptr} (xs ys : List Ptr) → IsChain m b (xs ++ ys) a → IsChain m (last_or b xs) ys a
  IsChain-right [] ys h = h
  IsChain-right (x ∷ xs) ys (cons p n h) = IsChain-right xs ys h

module _ (m : Mem) (p v : Ptr) (hp : Aligned p) (hv : Aligned v) where
  pub IsChain-set_next_other :
      {b a : Ptr} (xs : List Ptr)
      → All IsNode xs
      → p ∉ xs
      → IsChain m b xs a
      → IsChain (set_next m p v) b xs a
  IsChain-set_next_other [] n o nil = nil
  IsChain-set_next_other (x ∷ xs) n o (cons e f h) =
      cons (prev_link-set_next m p v x hp n.0.0 ∙ e) (next_link-set_next_ne m p v hv x o.0 ∙ f)
        (IsChain-set_next_other xs n.1 o.1 h)

  pub IsChain-set_prev_other :
      {b a : Ptr} (xs : List Ptr)
      → All IsNode xs
      → p ∉ xs
      → IsChain m b xs a
      → IsChain (set_prev m p v) b xs a
  IsChain-set_prev_other [] n o nil = nil
  IsChain-set_prev_other (x ∷ xs) n o (cons e f h) =
      cons (prev_link-set_prev_ne m p v hv x o.0 ∙ e) (next_link-set_prev m p v x hp n.0.0 ∙ f)
        (IsChain-set_prev_other xs n.1 o.1 h)

  pub AllColor-set_next :
      (c : ℕ) (xs : List Ptr) → All IsNode xs → AllColor m c xs → AllColor (set_next m p v) c xs
  AllColor-set_next c [] n h = tt
  AllColor-set_next c (x ∷ xs) n h =
      (get_color-set_next m p v x hp n.0.0 ∙ h.0, AllColor-set_next c xs n.1 h.1)

  pub AllColor-set_prev : (c : ℕ) (xs : List Ptr) → AllColor m c xs → AllColor (set_prev m p v) c xs
  AllColor-set_prev c [] h = tt
  AllColor-set_prev c (x ∷ xs) h = (get_color-set_prev m p v x hv ∙ h.0, AllColor-set_prev c xs h.1)

module _ (m : Mem) (p c : ℕ) (hp : Aligned p) (hc : c < 4) where
  pub IsChain-set_color :
      {b a : Ptr} (xs : List Ptr)
      → All IsNode xs
      → IsChain m b xs a
      → IsChain (set_color m p c) b xs a
  IsChain-set_color [] n nil = nil
  IsChain-set_color (x ∷ xs) n (cons e f h) =
      cons (prev_link-set_color m p c x hc ∙ e) (next_link-set_color m p c x hp n.0.0 ∙ f)
        (IsChain-set_color xs n.1 h)

  pub AllColor-set_color :
      (d : ℕ) (xs : List Ptr) → p ∉ xs → AllColor m d xs → AllColor (set_color m p c) d xs
  AllColor-set_color d [] o h = tt
  AllColor-set_color d (x ∷ xs) o h =
      (get_color-set_color_ne m p c hc x o.0 ∙ h.0, AllColor-set_color d xs o.1 h.1)

-- The last link of a chain can be set anew.
set_next_last :
    (m : Mem) (v : Ptr) {b a : Ptr} (x : Ptr) (xs : List Ptr)
    → Aligned v
    → AreNodes (x ∷ xs)
    → IsChain m b (x ∷ xs) a
    → IsChain (set_next m (last_or x xs) v) b (x ∷ xs) v
set_next_last m v x [] hv n (cons e f h) =
    cons (prev_link-set_next m x v x n.0.0.0 n.0.0.0 ∙ e) (next_link-set_next_self m x v hv) nil
set_next_last m v x (y ∷ xs) hv n (cons e f h) =
    let ne : last_or y xs ≢ x = All-last_or (λ z. z ≢ x) y xs n.1.0.0 n.1.0.1 in
    let al : Aligned (last_or y xs) = (All-last_or IsNode y xs n.0.1.0 n.0.1.1).0 in
    cons (prev_link-set_next m (last_or y xs) v x al n.0.0.0 ∙ e)
      (next_link-set_next_ne m (last_or y xs) v hv x (λ q. ne (sym q)) ∙ f)
      (set_next_last m v y xs hv (n.0.1, n.1.1) h)

-- With nothing before the chain, the guard passes over an empty one.
pub IsChain-link_next :
    (m : Mem) (v : Ptr) {a : Ptr} (xs : List Ptr)
    → Aligned v
    → AreNodes xs
    → IsChain m 0 xs a
    → IsChain (link_next m (last_or 0 xs) v) 0 xs v
unfolding link_next
IsChain-link_next m v [] hv n h = nil
IsChain-link_next m v (x ∷ xs) hv n h =
    let ne : (last_or x xs == 0) ≡ false = ==-false _ _ (All-last_or IsNode x xs n.0.0 n.0.1).1 in
    rw ne (set_next_last m v x xs hv n h)

pub IsChain-link_prev :
    (m : Mem) (v : Ptr) {b a : Ptr} (xs : List Ptr)
    → Aligned v
    → AreNodes xs
    → IsChain m b xs a
    → IsChain (link_prev m (head_or xs 0) v) v xs a
unfolding link_prev
IsChain-link_prev m v [] hv n nil = nil
IsChain-link_prev m v (x ∷ xs) hv n (cons e f h) =
    let ne : (x == 0) ≡ false = ==-false x 0 n.0.0.1 in
    rw ne (
      cons (prev_link-set_prev_self m x v hv) (next_link-set_prev m x v x n.0.0.0 n.0.0.0 ∙ f)
        (IsChain-set_prev_other m x v n.0.0.0 hv xs n.0.1 n.1.0 h))
