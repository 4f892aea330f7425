-- ===== src/Room/Totals.antt =====
-- The sums that RTroom_print of rtcoalesce.c prints.
use rtgc.Common.{
  ℕ, zero, suc, ◌+◌, ◌*◌, ◌≤◌, ◌<◌, ◌≡◌, inl, inr, refl, sym, ap, false, ◌||◌, ltb, if◌then◌else◌,
  Bool-cases, ==-true, ==-false, arith,
}
use native.Mathlib.Decide.{ℕ_discrete}
use native.Mathlib.Nat.{add-mul, zero-mul}
use rtgc.Heap.{Heap}
use rtgc.Room.{Room, add_at, empty_pages_from, committed_from}

-- A sum of weights.
abbrev pub weigh : (weight : ℕ → ℕ) → ℕ → (i : ℕ) → (ℕ → ℕ) → ℕ
weigh w zero i f = 0
weigh w (suc k) i f = f i * w i + weigh w k (i + 1) f

pub weigh_zero : (w : ℕ → ℕ) (k i : ℕ) → weigh w k i (λ j. 0) ≡ 0
weigh_zero w zero i = refl
weigh_zero w (suc k) i = omega (arith, zero-mul (w i), weigh_zero w k (i + 1))

weigh_below :
    (w : ℕ → ℕ) (k i a n : ℕ) (f : ℕ → ℕ) → a < i → weigh w k i (add_at f a n) ≡ weigh w k i f
weigh_below w zero i a n f l = refl
weigh_below w (suc k) i a n f l =
    rw (==-false i a (λ e. omega arith))
      (ap (λ (t : ℕ). f i * w i + t) (weigh_below w k (i + 1) a n f (omega arith)))

pub weigh-add_at :
    (w : ℕ → ℕ) (k i a n : ℕ) (f : ℕ → ℕ)
    → i ≤ a
    → a < i + k
    → weigh w k i (add_at f a n) ≡ weigh w k i f + n * w a
weigh-add_at w zero i a n f l u = absurd (omega arith)
weigh-add_at w (suc k) i a n f l u = elim (ℕ_discrete i a) [
  | yes e ↦ rw (==-true i a e) (
      here (f i) n (w i) (w a) (weigh w k (i + 1) f) (ap w e)
        (weigh_below w k (i + 1) a n f (omega arith)))
  | no ne ↦ rw (==-false i a ne) (
      there (f i * w i) (weigh w k (i + 1) f) (n * w a)
        (weigh-add_at w k (i + 1) a n f (omega arith) (omega arith)))
]
  where
    here : (a b c d s : ℕ) {t : ℕ} → c ≡ d → t ≡ s → (a + b) * c + t ≡ a * c + s + b * d
    here a b c d s e f = rw (add-mul a b c, sym e, f) (omega arith)

    there : (a s c : ℕ) {t : ℕ} → t ≡ s + c → a + t ≡ a + s + c
    there a s c e = omega arith

pub empty_pages-eq-weigh : (k i : ℕ) (f : ℕ → ℕ) → empty_pages_from k i f ≡ weigh (λ j. j) k i f
unfolding empty_pages_from
empty_pages-eq-weigh zero i f = refl
empty_pages-eq-weigh (suc k) i f = ap (λ (t : ℕ). f i * i + t) (empty_pages-eq-weigh k (i + 1) f)

-- Groups with no objects add nothing either way.
committed_one : (a g s : ℕ) → (if ltb 0 g || ltb 0 a then (a + g) * s else 0) ≡ g * s + a * s
committed_one a g s = elim (Bool-cases (ltb 0 g || ltb 0 a)) [
  | inl e ↦ rw e (omega (arith, add-mul a g s))
  | inr e ↦ rw (e, both_zero.0 g a e, both_zero.1 g a e, zero-mul s) refl
]
  where
    both_zero :
        ((g a : ℕ) → (ltb 0 g || ltb 0 a) ≡ false → g ≡ 0)
        × ((g a : ℕ) → (ltb 0 g || ltb 0 a) ≡ false → a ≡ 0)
    both_zero = (λ g a e. ground (arith, e), λ g a e. ground (arith, e))

pub committed-eq-weigh :
    (k i : ℕ) (h : Heap) (r : Room)
    → committed_from k i h r
      ≡ weigh (λ j. (h.groups j).size) k i r.green_count
        + weigh (λ j. (h.groups j).size) k i r.alloc_count
unfolding committed_from
committed-eq-weigh zero i h r = refl
committed-eq-weigh (suc k) i h r =
    regroup _ _ _ _ (committed_one (r.alloc_count i) (r.green_count i) (h.groups i).size)
      (committed-eq-weigh k (i + 1) h r)
  where
    regroup : (b c e f : ℕ) {a d : ℕ} → a ≡ b + c → d ≡ e + f → a + d ≡ (b + e) + (c + f)
    regroup b c e f p q = omega arith
