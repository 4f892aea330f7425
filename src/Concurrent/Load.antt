-- ===== src/Concurrent/Load.antt =====
-- What is left to do for all objects of the snapshot while rtgc.c marks: it bounds the rounds of
-- the loop of full_gc.
use rtgc.Common.{
  ℕ, zero, suc, ◌+◌, ◌*◌, ◌≤◌, ◌<◌, ◌≡◌, inl, inr, refl, Bool, true, false, ◌∈◌, List, [], ◌∷◌,
  ◌++◌, length, length-append, if◌then◌else◌, arith,
}
use native.Mathlib.Decide.{ℕ_discrete}
use rtgc.InfoBits.{Ptr}
use rtgc.Group.View.{View, main}
use rtgc.Group.Frame.{objects_of}
use rtgc.Heap.{Heap, whitep}
use rtgc.Trace.Total.{pending, total}
use rtgc.WriteBarrier.Marks.{marked}
use rtgc.Concurrent.Snapshot.{weight}

abbrev weigh : Heap → List Ptr → ℕ
weigh h [] = 0
weigh h (x ∷ xs) = weight h x + weigh h xs

-- The groups from `i` on.
abbrev pub load : ℕ → (i : ℕ) → (ℕ → View) → Heap → ℕ
load zero i v h = 0
load (suc k) i v h = weigh h (objects_of (v i)) + load k (i + 1) v h

abbrev pub object_count : ℕ → (i : ℕ) → (ℕ → View) → ℕ
object_count zero i v = 0
object_count (suc k) i v = length (objects_of (v i)) + object_count k (i + 1) v

two_at_most : (m w : Bool) → (if m then 1 else (if w then 2 else 0)) ≤ 2
two_at_most true w = omega arith
two_at_most false true = omega arith
two_at_most false false = omega arith

weigh-le_length : (h : Heap) (xs : List Ptr) → weigh h xs ≤ 2 * length xs
weigh-le_length h [] = omega arith
weigh-le_length h (x ∷ xs) =
    sum_of (weight h x) (weigh h xs) (length xs) (two_at_most (marked h x) (whitep h x))
      (weigh-le_length h xs)
  where
    sum_of : (a b c : ℕ) → a ≤ 2 → b ≤ 2 * c → a + b ≤ 2 * suc c
    sum_of a b c p q = omega arith

pub load-le_count : (k i : ℕ) (v : ℕ → View) (h : Heap) → load k i v h ≤ 2 * object_count k i v
load-le_count zero i v h = omega arith
load-le_count (suc k) i v h =
    sum_of (weigh h (objects_of (v i))) (load k (i + 1) v h) (length (objects_of (v i)))
      (object_count k (i + 1) v) (weigh-le_length h (objects_of (v i)))
      (load-le_count k (i + 1) v h)
  where
    sum_of : (a b c d : ℕ) → a ≤ 2 * c → b ≤ 2 * d → a + b ≤ 2 * (c + d)
    sum_of a b c d p q = omega arith

both_le : (a b c d : ℕ) → a ≤ c → b ≤ d → a + b ≤ c + d
both_le a b c d p q = omega arith

pending-le : (v : View) → pending v ≤ length (objects_of v)
pending-le v =
    counted (length v.whites) (length v.grays) (length (v.blacks ++ v.greens)) (length (main v))
      (length (objects_of v)) (length-append v.whites (main v))
      (length-append v.grays (v.blacks ++ v.greens))
  where
    counted : (w g r m o : ℕ) → o ≡ w + m → m ≡ g + r → w + g ≤ o
    counted w g r m o p q = omega arith

pub total-le_count : (k i : ℕ) (v : ℕ → View) → total k i v ≤ object_count k i v
total-le_count zero i v = omega arith
total-le_count (suc k) i v =
    both_le (pending (v i)) (total k (i + 1) v) (length (objects_of (v i)))
      (object_count k (i + 1) v) (pending-le (v i)) (total-le_count k (i + 1) v)

left_lt : (a b c d : ℕ) → a < c → b ≤ d → a + b < c + d
left_lt a b c d p q = omega arith

right_lt : (a b c d : ℕ) → a ≤ c → b < d → a + b < c + d
right_lt a b c d p q = omega arith

module _ (h h' : Heap) where
  weigh-le :
      (xs : List Ptr) → ((x : ℕ) → x ∈ xs → weight h' x ≤ weight h x) → weigh h' xs ≤ weigh h xs
  weigh-le [] f = omega arith
  weigh-le (x ∷ xs) f =
      both_le (weight h' x) (weigh h' xs) (weight h x) (weigh h xs) (f x (inl refl))
        (weigh-le xs (λ y m. f y (inr m)))

  weigh-lt :
      (xs : List Ptr) (z : ℕ)
      → z ∈ xs
      → weight h' z < weight h z
      → ((x : ℕ) → x ∈ xs → weight h' x ≤ weight h x)
      → weigh h' xs < weigh h xs
  weigh-lt [] z m l f = absurd m
  weigh-lt (x ∷ xs) z (inl e) l f =
      left_lt (weight h' x) (weigh h' xs) (weight h x) (weigh h xs) (rw (← e) l)
        (weigh-le xs (λ y m. f y (inr m)))
  weigh-lt (x ∷ xs) z (inr m) l f =
      right_lt (weight h' x) (weigh h' xs) (weight h x) (weigh h xs) (f x (inl refl))
        (weigh-lt xs z m l (λ y n. f y (inr n)))

  module _ (v : ℕ → View) where
    abbrev Lighter : (lowest : ℕ) → ℕ → Type 0
    Lighter i k = (j x : ℕ) → i ≤ j → j < i + k → x ∈ objects_of (v j) → weight h' x ≤ weight h x

    pub load-le : (k i : ℕ) → Lighter i k → load k i v h' ≤ load k i v h
    load-le zero i f = omega arith
    load-le (suc k) i f =
        both_le (weigh h' (objects_of (v i))) (load k (i + 1) v h') (weigh h (objects_of (v i)))
          (load k (i + 1) v h)
          (weigh-le (objects_of (v i)) (λ x m. f i x (omega arith) (omega arith) m))
          (load-le k (i + 1) (λ j x a b m. f j x (omega arith) (omega arith) m))

    pub load-lt :
        (k i j z : ℕ)
        → i ≤ j
        → j < i + k
        → z ∈ objects_of (v j)
        → weight h' z < weight h z
        → Lighter i k
        → load k i v h' < load k i v h
    load-lt zero i j z a b m l f = absurd (omega arith)
    load-lt (suc k) i j z a b m l f = elim (ℕ_discrete i j) [
      | yes e ↦
          left_lt (weigh h' (objects_of (v i))) (load k (i + 1) v h') (weigh h (objects_of (v i)))
            (load k (i + 1) v h)
            (weigh-lt (objects_of (v i)) z (rw e m) l (λ x n. f i x (omega arith) (omega arith) n))
            (load-le k (i + 1) (λ q x c d n. f q x (omega arith) (omega arith) n))
      | no ne ↦
          right_lt (weigh h' (objects_of (v i))) (load k (i + 1) v h') (weigh h (objects_of (v i)))
            (load k (i + 1) v h)
            (weigh-le (objects_of (v i)) (λ x n. f i x (omega arith) (omega arith) n))
            (load-lt k (i + 1) j z (omega arith) (omega arith) m l
              (λ q x c d n. f q x (omega arith) (omega arith) n))
    ]
