-- ===== src/Chain/Join.antt =====
-- Joining two chains, taking an object out of a chain, and what these writes leave alone.
use rtgc.Common.{ℕ, ◌≡◌, List, ◌∷◌, ◌++◌, All, ◌∉◌, head_or, last_or, Bool-cases, inl, inr, ◌==◌}
use rtgc.InfoBits.{Mem, Ptr, prev_link, next_link}
use rtgc.InfoBits.Words.{Aligned}
use rtgc.Chain.{link_next, link_prev, unlink, IsNode, AreNodes, IsChain, cons, AllColor}
use rtgc.Chain.Laws.{
  append-IsChain, IsChain-left, IsChain-right, IsChain-set_next_other, IsChain-set_prev_other,
  AllColor-set_next, AllColor-set_prev, IsChain-link_next, IsChain-link_prev,
}
use rtgc.Chain.Nodes.{
  AreNodes-left, AreNodes-right, AreNodes-swap, AreNodes-middle, last_or-away, head_or-away,
  last_or-Aligned, head_or-Aligned,
}

module _ (m : Mem) (p v : Ptr) (hp : Aligned p) (hv : Aligned v) where
  pub IsChain-link_next_other :
      {b a : Ptr} (xs : List Ptr)
      → All IsNode xs
      → p ∉ xs
      → IsChain m b xs a
      → IsChain (link_next m p v) b xs a
  unfolding link_next
  IsChain-link_next_other xs n o h = elim (Bool-cases (p == 0)) [
    | inl e ↦ rw e h
    | inr e ↦ rw e (IsChain-set_next_other m p v hp hv xs n o h)
  ]

  pub IsChain-link_prev_other :
      {b a : Ptr} (xs : List Ptr)
      → All IsNode xs
      → p ∉ xs
      → IsChain m b xs a
      → IsChain (link_prev m p v) b xs a
  unfolding link_prev
  IsChain-link_prev_other xs n o h = elim (Bool-cases (p == 0)) [
    | inl e ↦ rw e h
    | inr e ↦ rw e (IsChain-set_prev_other m p v hp hv xs n o h)
  ]

  pub AllColor-link_next :
      (c : ℕ) (xs : List Ptr) → All IsNode xs → AllColor m c xs → AllColor (link_next m p v) c xs
  unfolding link_next
  AllColor-link_next c xs n h = elim (Bool-cases (p == 0)) [
    | inl e ↦ rw e h
    | inr e ↦ rw e (AllColor-set_next m p v hp hv c xs n h)
  ]

  pub AllColor-link_prev :
      (c : ℕ) (xs : List Ptr) → AllColor m c xs → AllColor (link_prev m p v) c xs
  unfolding link_prev
  AllColor-link_prev c xs h = elim (Bool-cases (p == 0)) [
    | inl e ↦ rw e h
    | inr e ↦ rw e (AllColor-set_prev m p v hp hv c xs h)
  ]

-- The two writes that put `ys` behind `xs`.
abbrev pub join : Mem → (xs ys : List Ptr) → Mem
join m xs ys = link_prev (link_next m (last_or 0 xs) (head_or ys 0)) (head_or ys 0) (last_or 0 xs)

module _ (m : Mem) (xs ys : List Ptr) (n : AreNodes (xs ++ ys)) where
  nx : AreNodes xs
  nx = AreNodes-left xs ys n

  ny : AreNodes ys
  ny = AreNodes-right xs ys n

  ax : Aligned (last_or 0 xs)
  ax = last_or-Aligned xs nx.0

  ay : Aligned (head_or ys 0)
  ay = head_or-Aligned ys ny.0

  pub join-IsChain :
      {b a : Ptr} → IsChain m 0 xs a → IsChain m b ys 0 → IsChain (join m xs ys) 0 (xs ++ ys) 0
  join-IsChain h k =
      let m1 = link_next m (last_or 0 xs) (head_or ys 0) in
      let apart = head_or-away ys xs (AreNodes-swap xs ys n) in
      append-IsChain xs ys
        (IsChain-link_prev_other m1 _ _ ay ax xs nx.0 apart (IsChain-link_next m _ xs ay nx h))
        (IsChain-link_prev m1 _ ys ax ny
          (IsChain-link_next_other m _ _ ax ay ys ny.0 (last_or-away xs ys n) k))

  pub join-IsChain_other :
      {b a : Ptr} (zs : List Ptr)
      → AreNodes (xs ++ zs)
      → AreNodes (ys ++ zs)
      → IsChain m b zs a
      → IsChain (join m xs ys) b zs a
  join-IsChain_other zs nxz nyz h =
      let nz = AreNodes-right xs zs nxz in
      IsChain-link_prev_other _ _ _ ay ax zs nz.0 (head_or-away ys zs nyz)
        (IsChain-link_next_other m _ _ ax ay zs nz.0 (last_or-away xs zs nxz) h)

  pub join-AllColor :
      (c : ℕ) (zs : List Ptr) → All IsNode zs → AllColor m c zs → AllColor (join m xs ys) c zs
  join-AllColor c zs nz h =
      AllColor-link_prev _ _ _ ay ax c zs (AllColor-link_next m _ _ ax ay c zs nz h)

pub head_links :
    {m : Mem} {b a x : Ptr} {ys : List Ptr}
    → IsChain m b (x ∷ ys) a
    → (prev_link m x ≡ b) × (next_link m x ≡ head_or ys a)
head_links (cons e f h) = (e, f)

-- Taking out an object joins what stood before it and what stood behind it.
module _ (m : Mem) (xs : List Ptr) (x : Ptr) (ys : List Ptr) where
  pub unlink_links :
      IsChain m 0 (xs ++ x ∷ ys) 0 → (prev_link m x ≡ last_or 0 xs) × (next_link m x ≡ head_or ys 0)
  unlink_links h = head_links (IsChain-right xs (x ∷ ys) h)

  pub unlink-eq-join : IsChain m 0 (xs ++ x ∷ ys) 0 → unlink m x ≡ join m xs ys
  unfolding unlink
  unlink-eq-join h = let l = unlink_links h in rw (l.0, l.1)

  tail-IsChain : {b : Ptr} → IsChain m b (x ∷ ys) 0 → IsChain m x ys 0
  tail-IsChain (cons e f h) = h

  pub unlink-IsChain :
      AreNodes (xs ++ x ∷ ys) → IsChain m 0 (xs ++ x ∷ ys) 0 → IsChain (unlink m x) 0 (xs ++ ys) 0
  unlink-IsChain n h =
      let k = AreNodes-middle xs x ys n in
      rw (unlink-eq-join h) (
        join-IsChain m xs ys (k.0.1, k.1.1) (IsChain-left xs (x ∷ ys) h)
          (tail-IsChain (IsChain-right xs (x ∷ ys) h)))

-- The same two writes, the one to `ys` first.
abbrev pub join_back : Mem → (xs ys : List Ptr) → Mem
join_back m xs ys =
    link_next (link_prev m (head_or ys 0) (last_or 0 xs)) (last_or 0 xs) (head_or ys 0)

module _ (m : Mem) (xs ys : List Ptr) (n : AreNodes (xs ++ ys)) where
  nx' : AreNodes xs
  nx' = AreNodes-left xs ys n

  ny' : AreNodes ys
  ny' = AreNodes-right xs ys n

  ax' : Aligned (last_or 0 xs)
  ax' = last_or-Aligned xs nx'.0

  ay' : Aligned (head_or ys 0)
  ay' = head_or-Aligned ys ny'.0

  pub join_back-IsChain :
      {b a : Ptr} → IsChain m 0 xs a → IsChain m b ys 0 → IsChain (join_back m xs ys) 0 (xs ++ ys) 0
  join_back-IsChain h k =
      append-IsChain xs ys
        (IsChain-link_next _ _ xs ay' nx' (
          IsChain-link_prev_other m _ _ ay' ax' xs nx'.0
            (head_or-away ys xs (AreNodes-swap xs ys n)) h))
        (IsChain-link_next_other _ _ _ ax' ay' ys ny'.0 (last_or-away xs ys n)
          (IsChain-link_prev m _ ys ax' ny' k))

  pub join_back-IsChain_other :
      {b a : Ptr} (zs : List Ptr)
      → AreNodes (xs ++ zs)
      → AreNodes (ys ++ zs)
      → IsChain m b zs a
      → IsChain (join_back m xs ys) b zs a
  join_back-IsChain_other zs nxz nyz h =
      let nz = AreNodes-right xs zs nxz in
      IsChain-link_next_other _ _ _ ax' ay' zs nz.0 (last_or-away xs zs nxz)
        (IsChain-link_prev_other m _ _ ay' ax' zs nz.0 (head_or-away ys zs nyz) h)

  pub join_back-AllColor :
      (c : ℕ) (zs : List Ptr) → All IsNode zs → AllColor m c zs → AllColor (join_back m xs ys) c zs
  join_back-AllColor c zs nz h =
      AllColor-link_next _ _ _ ax' ay' c zs nz (AllColor-link_prev m _ _ ay' ax' c zs h)
