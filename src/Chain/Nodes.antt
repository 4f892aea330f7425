-- ===== src/Chain/Nodes.antt =====
-- Distinct nodes in joined lists.
use rtgc.Common.{
  append-nil, append_assoc, ℕ, ◌≢◌, refl, sym, List, [], ◌∷◌, ◌++◌, All, All-append,
  All-append_left, All-append_right, IsDistinct, ◌∉◌, Disjoint, head_or, last_or, append-nil,
}
use rtgc.InfoBits.{Ptr}
use rtgc.InfoBits.Words.{Aligned}
use rtgc.Chain.{IsNode, AreNodes}
use rtgc.Chain.Laws.{All-last_or}

module _ {ℓ} (P : ℕ → Type ℓ) where
  pub All-middle :
      (xs : List ℕ) (x : ℕ) (ys : List ℕ) → All P (xs ++ x ∷ ys) → P x × All P (xs ++ ys)
  All-middle [] x ys h = h
  All-middle (z ∷ xs) x ys h = let r = All-middle xs x ys h.1 in (r.0, (h.0, r.1))

  pub middle-All :
      (xs : List ℕ) (x : ℕ) (ys : List ℕ) → P x → All P (xs ++ ys) → All P (xs ++ x ∷ ys)
  middle-All [] x ys p h = (p, h)
  middle-All (z ∷ xs) x ys p h = (h.0, middle-All xs x ys p h.1)

IsDistinct-middle :
    (xs : List ℕ) (x : ℕ) (ys : List ℕ)
    → IsDistinct (xs ++ x ∷ ys)
    → (x ∉ (xs ++ ys)) × IsDistinct (xs ++ ys)
IsDistinct-middle [] x ys h = h
IsDistinct-middle (z ∷ xs) x ys h =
    let r = IsDistinct-middle xs x ys h.1 in
    let k = All-middle (λ y. y ≢ z) xs x ys h.0 in ((λ e. k.0 (sym e), r.0), (k.1, r.1))

middle-IsDistinct :
    (xs : List ℕ) (x : ℕ) (ys : List ℕ)
    → x ∉ (xs ++ ys)
    → IsDistinct (xs ++ ys)
    → IsDistinct (xs ++ x ∷ ys)
middle-IsDistinct [] x ys o h = (o, h)
middle-IsDistinct (z ∷ xs) x ys o h =
    (middle-All (λ y. y ≢ z) xs x ys (λ e. o.0 (sym e)) h.0, middle-IsDistinct xs x ys o.1 h.1)

pub AreNodes-middle :
    (xs : List Ptr) (x : Ptr) (ys : List Ptr) → AreNodes (xs ++ x ∷ ys) → AreNodes (x ∷ (xs ++ ys))
AreNodes-middle xs x ys h = (All-middle IsNode xs x ys h.0, IsDistinct-middle xs x ys h.1)

pub middle-AreNodes :
    (xs : List Ptr) (x : Ptr) (ys : List Ptr) → AreNodes (x ∷ (xs ++ ys)) → AreNodes (xs ++ x ∷ ys)
middle-AreNodes xs x ys h =
    (middle-All IsNode xs x ys h.0.0 h.0.1, middle-IsDistinct xs x ys h.1.0 h.1.1)

-- The order of two parts does not matter.
pub AreNodes-swap : (xs ys : List Ptr) → AreNodes (xs ++ ys) → AreNodes (ys ++ xs)
AreNodes-swap [] ys h = rw append-nil h
AreNodes-swap (x ∷ xs) ys h =
    let r = AreNodes-swap xs ys (h.0.1, h.1.1) in
    middle-AreNodes ys x xs ((h.0.0, r.0), (away ys xs x (flip xs ys x h.1.0), r.1))
  where
    flip : (us vs : List Ptr) (x : Ptr) → x ∉ (us ++ vs) → (x ∉ vs) × (x ∉ us)
    flip us vs x o = (All-append_right (λ y. y ≢ x) us vs o, All-append_left (λ y. y ≢ x) us vs o)

    away : (us vs : List Ptr) (x : Ptr) → (x ∉ us) × (x ∉ vs) → x ∉ (us ++ vs)
    away us vs x o = All-append (λ y. y ≢ x) us vs o.0 o.1

IsDistinct-left : (xs ys : List ℕ) → IsDistinct (xs ++ ys) → IsDistinct xs
IsDistinct-left [] ys h = tt
IsDistinct-left (x ∷ xs) ys h = (All-append_left (λ y. y ≢ x) xs ys h.0, IsDistinct-left xs ys h.1)

IsDistinct-right : (xs ys : List ℕ) → IsDistinct (xs ++ ys) → IsDistinct ys
IsDistinct-right [] ys h = h
IsDistinct-right (x ∷ xs) ys h = IsDistinct-right xs ys h.1

pub AreNodes-left : (xs ys : List Ptr) → AreNodes (xs ++ ys) → AreNodes xs
AreNodes-left xs ys h = (All-append_left IsNode xs ys h.0, IsDistinct-left xs ys h.1)

pub AreNodes-right : (xs ys : List Ptr) → AreNodes (xs ++ ys) → AreNodes ys
AreNodes-right xs ys h = (All-append_right IsNode xs ys h.0, IsDistinct-right xs ys h.1)

IsDistinct-Disjoint : (xs ys : List ℕ) → IsDistinct (xs ++ ys) → Disjoint xs ys
IsDistinct-Disjoint [] ys h = tt
IsDistinct-Disjoint (x ∷ xs) ys h =
    (All-append_right (λ y. y ≢ x) xs ys h.0, IsDistinct-Disjoint xs ys h.1)

pub AreNodes-Disjoint : (xs ys : List Ptr) → AreNodes (xs ++ ys) → Disjoint xs ys
AreNodes-Disjoint xs ys h = IsDistinct-Disjoint xs ys h.1

zero_away : (ys : List Ptr) → All IsNode ys → 0 ∉ ys
zero_away [] n = tt
zero_away (y ∷ ys) n = (n.0.1, zero_away ys n.1)

-- The ends of one part are away from the other, also where the part is empty.
pub last_or-away : (xs ys : List Ptr) → AreNodes (xs ++ ys) → last_or 0 xs ∉ ys
last_or-away [] ys h = zero_away ys h.0
last_or-away (x ∷ xs) ys h =
    let d = AreNodes-Disjoint (x ∷ xs) ys h in All-last_or (λ z. z ∉ ys) x xs d.0 d.1

pub head_or-away : (xs ys : List Ptr) → AreNodes (xs ++ ys) → head_or xs 0 ∉ ys
head_or-away [] ys h = zero_away ys h.0
head_or-away (x ∷ xs) ys h = (AreNodes-Disjoint (x ∷ xs) ys h).0

pub last_or-Aligned : (xs : List Ptr) → All IsNode xs → Aligned (last_or 0 xs)
last_or-Aligned [] h = refl
last_or-Aligned (x ∷ xs) h = (All-last_or IsNode x xs h.0 h.1).0

pub head_or-Aligned : (xs : List Ptr) → All IsNode xs → Aligned (head_or xs 0)
head_or-Aligned [] h = refl
head_or-Aligned (x ∷ xs) h = h.0.0

-- Two of three parts.
pub AreNodes-part_right : (xs ys zs : List Ptr) → AreNodes ((xs ++ ys) ++ zs) → AreNodes (ys ++ zs)
AreNodes-part_right xs ys zs h = AreNodes-right xs (ys ++ zs) (rw (append_assoc xs ys zs) at h)

pub AreNodes-part_left : (xs ys zs : List Ptr) → AreNodes ((xs ++ ys) ++ zs) → AreNodes (xs ++ zs)
AreNodes-part_left xs [] zs h = rw append-nil at h
AreNodes-part_left xs (y ∷ ys) zs h =
    let k : AreNodes (xs ++ y ∷ (ys ++ zs)) = rw (append_assoc xs (y ∷ ys) zs) at h in
    let d = AreNodes-middle xs y (ys ++ zs) k in
    AreNodes-part_left xs ys zs (rw (append_assoc xs ys zs) (d.0.1, d.1.1))
