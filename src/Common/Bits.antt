-- ===== src/Common/Bits.antt =====
-- Laws of `&` and `|` at variables.
pub mod Clear
use Prim.Native.Nat.{
  ℕ, zero, suc, ◌+◌, ◌-◌, ◌*◌, ◌/◌, ◌%◌, ◌^◌, ◌≤◌, ◌<◌, min, max, bit_and, bit_or, digits,
  bit_and-bitwise, bit_or-bitwise,
}
use mathlib.Core.Path.{◌≡◌, refl, ap, ◌∙◌}
use native.Mathlib.Omega.{arith}
use native.Mathlib.Nat.{pow-suc, one-le-pow}
use mathlib.Core.Bool.{Bool, true, false, ◌||◌, ◌&&◌, not}
use rtgc.Common.Tests.{◌==◌, ==-true, ==-false, if◌then◌else◌}

-- `x & ~m`: the bits of `m` are cleared.
abbrev pub and_not : ℕ → ℕ → ℕ
and_not x m = x - bit_and x m

-- The digits do not depend on fuel beyond the number itself.
more_fuel :
    (z : ℕ → ℕ) (f : ℕ → ℕ → ℕ) (n k a b : ℕ) → a ≤ n → a ≤ k → digits z f n a b ≡ digits z f k a b
more_fuel z f n k zero b p q = both n k
  where
    both : (n k : ℕ) → digits z f n 0 b ≡ digits z f k 0 b
    both zero zero = refl
    both zero (suc k) = refl
    both (suc n) zero = refl
    both (suc n) (suc k) = refl
more_fuel z f zero k (suc a) b p q = absurd (omega arith)
more_fuel z f (suc n) zero (suc a) b p q = absurd (omega arith)
more_fuel z f (suc n) (suc k) (suc a) b p q =
    ap (λ (t : ℕ). t * 2 + f (suc a % 2) (b % 2))
      (more_fuel z f n k (suc a / 2) (b / 2) (omega arith) (omega arith))

pub bit_and_step : (a b : ℕ) → bit_and a b ≡ bit_and (a / 2) (b / 2) * 2 + min (a % 2) (b % 2)
bit_and_step zero b = omega (arith, bit_and-bitwise 0 b, bit_and-bitwise 0 (b / 2))
bit_and_step (suc a) b = omega (
  arith,
  bit_and-bitwise (suc a) b,
  bit_and-bitwise (suc a / 2) (b / 2),
  more_fuel (λ y. 0) min a (suc a / 2) (suc a / 2) (b / 2) (omega arith) (omega arith),
)

pub bit_or_step : (a b : ℕ) → bit_or a b ≡ bit_or (a / 2) (b / 2) * 2 + max (a % 2) (b % 2)
bit_or_step zero b = omega (arith, bit_or-bitwise 0 b, bit_or-bitwise 0 (b / 2))
bit_or_step (suc a) b = omega (
  arith,
  bit_or-bitwise (suc a) b,
  bit_or-bitwise (suc a / 2) (b / 2),
  more_fuel (λ y. y) max a (suc a / 2) (suc a / 2) (b / 2) (omega arith) (omega arith),
)

bit_and-zero_below : (n a : ℕ) → a ≤ n → bit_and a 0 ≡ 0
bit_and-zero_below n zero h = refl
bit_and-zero_below zero (suc a) h = absurd (omega arith)
bit_and-zero_below (suc n) (suc a) h =
    omega (arith, bit_and_step (suc a) 0, bit_and-zero_below n (suc a / 2) (omega arith))

pub bit_and-zero : (a : ℕ) → bit_and a 0 ≡ 0
bit_and-zero a = bit_and-zero_below a a (omega arith)

pub zero-bit_or : (b : ℕ) → bit_or 0 b ≡ b
zero-bit_or b = bit_or-bitwise 0 b

bit_or-zero_below : (n a : ℕ) → a ≤ n → bit_or a 0 ≡ a
bit_or-zero_below n zero h = refl
bit_or-zero_below zero (suc a) h = absurd (omega arith)
bit_or-zero_below (suc n) (suc a) h =
    omega (arith, bit_or_step (suc a) 0, bit_or-zero_below n (suc a / 2) (omega arith))

pub bit_or-zero : (a : ℕ) → bit_or a 0 ≡ a
bit_or-zero a = bit_or-zero_below a a (omega arith)

-- The masks of two and of four low bits.
pub bit_and_three : (a : ℕ) → bit_and a 3 ≡ a % 4
bit_and_three a = omega (arith, bit_and_step a 3, bit_and_step (a / 2) 1, bit_and-zero (a / 2 / 2))

pub bit_and_fifteen : (a : ℕ) → bit_and a 15 ≡ a % 16
bit_and_fifteen a =
    omega (arith, bit_and_step a 15, bit_and_step (a / 2) 7, bit_and_three (a / 2 / 2))

-- `|` of a value of four bits and one whose four low bits are clear is their sum.
pub bit_or_low_four : (r v : ℕ) → r < 16 → v % 16 ≡ 0 → bit_or r v ≡ r + v
bit_or_low_four r v h k = omega (
  arith,
  bit_or_step r v,
  bit_or_step (r / 2) (v / 2),
  bit_or_step (r / 2 / 2) (v / 2 / 2),
  bit_or_step (r / 2 / 2 / 2) (v / 2 / 2 / 2),
  ap (λ (t : ℕ). bit_or t (v / 2 / 2 / 2 / 2)) (top r h),
  zero-bit_or (v / 2 / 2 / 2 / 2),
)
  where
    top : (r : ℕ) → r < 16 → r / 2 / 2 / 2 / 2 ≡ 0
    top r h = omega arith

-- `|` of a value whose two low bits are clear and a value of two bits is their sum.
pub bit_or_low_two : (v c : ℕ) → v % 4 ≡ 0 → c < 4 → bit_or v c ≡ v + c
bit_or_low_two v c k h = omega (
  arith,
  bit_or_step v c,
  bit_or_step (v / 2) (c / 2),
  ap (λ (t : ℕ). bit_or (v / 2 / 2) t) (top c h),
  bit_or-zero (v / 2 / 2),
)
  where
    top : (c : ℕ) → c < 4 → c / 2 / 2 ≡ 0
    top c h = omega arith

half_mask : (k : ℕ) → (2 ^ suc k - 1) / 2 ≡ 2 ^ k - 1
half_mask k = omega (arith, pow-suc 2 k, one-le-pow k 2)

split_mod : (d a : ℕ) → 0 < d → a % (d * 2) ≡ (a / 2 % d) * 2 + a % 2
split_mod d a h = grind arith

-- A mask of `k` low bits is the remainder by `2 ^ k`.
pub bit_and_mask : (k a : ℕ) → bit_and a (2 ^ k - 1) ≡ a % 2 ^ k
bit_and_mask zero a = omega (arith, bit_and-zero a)
bit_and_mask (suc k) a = omega (
  arith,
  bit_and_step a (2 ^ suc k - 1),
  ap (λ (t : ℕ). bit_and (a / 2) t) (half_mask k) ∙ bit_and_mask k (a / 2),
  pow-suc 2 k,
  one-le-pow k 2 (omega arith),
  split_mod (2 ^ k) a (one-le-pow k 2 (omega arith)),
  ap (λ (t : ℕ). a % t) (pow-suc 2 k),
)

-- The bit at a position.
unfoldable pub test_bit : ℕ → ℕ → Bool
test_bit x zero = x % 2 == 1
test_bit x (suc k) = test_bit (x / 2) k

pub test_bit-zero : (b : ℕ) → test_bit 0 b ≡ false
unfolding test_bit
test_bit-zero zero = refl
test_bit-zero (suc b) = test_bit-zero b

pow_half : (k : ℕ) → 2 ^ suc k / 2 ≡ 2 ^ k
pow_half k = omega (arith, pow-suc 2 k)

pow_even : (k : ℕ) → 2 ^ suc k % 2 ≡ 0
pow_even k = omega (arith, pow-suc 2 k)

bit_or_half : (x k : ℕ) → bit_or x (2 ^ suc k) / 2 ≡ bit_or (x / 2) (2 ^ k)
bit_or_half x k =
    omega
      (arith, bit_or_step x (2 ^ suc k), ap (λ (t : ℕ). bit_or (x / 2) t) (pow_half k), pow_even k)

bit_or_low : (x k : ℕ) → bit_or x (2 ^ suc k) % 2 ≡ x % 2
bit_or_low x k = omega (arith, bit_or_step x (2 ^ suc k), pow_even k)

bit_or_one_half : (x : ℕ) → bit_or x 1 / 2 ≡ x / 2
bit_or_one_half x = omega (arith, bit_or_step x 1, bit_or-zero (x / 2))

-- `x | 1 << k` sets the bit `k` and no other.
pub test_bit-bit_or :
    (x k j : ℕ) → test_bit (bit_or x (2 ^ k)) j ≡ (if j == k then true else test_bit x j)
unfolding test_bit
test_bit-bit_or x zero zero = ==-true _ 1 (omega (arith, bit_or_step x 1))
test_bit-bit_or x zero (suc j) = ground (arith, ap (λ (t : ℕ). test_bit t j) (bit_or_one_half x))
test_bit-bit_or x (suc k) zero = rw (bit_or_low x k) (ground arith)
test_bit-bit_or x (suc k) (suc j) =
    rw (bit_or_half x k) (test_bit-bit_or (x / 2) k j ∙ ground arith)
