-- ===== src/Trace/Total.antt =====
-- The objects that marking may still scan: the white and gray ones of all groups.
use rtgc.Common.{ℕ, zero, suc, ◌+◌, ◌≤◌, ◌<◌, ◌≡◌, ◌≢◌, refl, sym, ap₂, length, arith}
use native.Mathlib.Decide.{ℕ_discrete}
use rtgc.Group.View.{View}

abbrev pub pending : View → ℕ
pending v = length v.whites + length v.grays

-- Over the groups from `i` on.
abbrev pub total : ℕ → (i : ℕ) → (ℕ → View) → ℕ
total zero i views = 0
total (suc k) i views = pending (views i) + total k (i + 1) views

pub total_same :
    (k i : ℕ) (v v' : ℕ → View)
    → ((j : ℕ) → i ≤ j → pending (v' j) ≡ pending (v j))
    → total k i v' ≡ total k i v
total_same zero i v v' e = refl
total_same (suc k) i v v' e =
    ap₂ (λ (a b : ℕ). a + b) (e i (omega arith))
      (total_same k (i + 1) v v' (λ j l. e j (omega arith)))

-- One group has one object less, and the others have as many as before.
pub total_less :
    (k i j : ℕ) (v v' : ℕ → View)
    → i ≤ j
    → j < i + k
    → pending (v' j) + 1 ≡ pending (v j)
    → ((n : ℕ) → n ≢ j → pending (v' n) ≡ pending (v n))
    → total k i v' + 1 ≡ total k i v
total_less zero i j v v' l u e f = absurd (omega arith)
total_less (suc k) i j v v' l u e f = elim (ℕ_discrete i j) [
  | yes s ↦
      let rest = total_same k (i + 1) v v' (λ n b. f n (λ q. omega arith)) in
      let here : pending (v' i) + 1 ≡ pending (v i) = rw s e in
      sum_of (pending (v' i)) (pending (v i)) (total k (i + 1) v') (total k (i + 1) v) here rest
  | no n ↦
      let rest = total_less k (i + 1) j v v' (omega arith) (omega arith) e f in
      other (pending (v' i)) (pending (v i)) (total k (i + 1) v') (total k (i + 1) v) (f i n) rest
]
  where
    sum_of : (a b c d : ℕ) → a + 1 ≡ b → c ≡ d → (a + c) + 1 ≡ b + d
    sum_of a b c d p q = omega arith

    other : (a b c d : ℕ) → a ≡ b → c + 1 ≡ d → (a + c) + 1 ≡ b + d
    other a b c d p q = omega arith

pub pending_one_at : (k i j : ℕ) (v : ℕ → View) → i ≤ j → j < i + k → pending (v j) ≤ total k i v
pending_one_at zero i j v l u = absurd (omega arith)
pending_one_at (suc k) i j v l u = elim (ℕ_discrete i j) [
  | yes s ↦ rw (sym s) (left (pending (v i)) (total k (i + 1) v))
  | no n ↦ right (pending (v i)) _ _ (pending_one_at k (i + 1) j v (omega arith) (omega arith))
]
  where
    left : (a b : ℕ) → a ≤ a + b
    left a b = omega arith

    right : (a b c : ℕ) → c ≤ b → c ≤ a + b
    right a b c h = omega arith
