-- ===== src/Common/Bits/Clear.antt =====
-- `x & 1 << k` reads a bit, and `x & ~(1 << k)` clears it.
use Prim.Native.Nat.{ℕ, zero, suc, ◌*◌, ◌/◌, ◌%◌, ◌^◌, ◌≤◌, bit_and, bit_and-bitwise}
use mathlib.Core.Path.{◌≡◌, ap, ◌∙◌}
use mathlib.Core.Bool.{false, not}
use native.Mathlib.Omega.{arith}
use rtgc.Common.Tests.{◌==◌, ==-false, if◌then◌else◌}
use rtgc.Common.Bits.{and_not, bit_and_step, bit_and-zero, test_bit, pow_half, pow_even}

bit_and-le_below : (n a b : ℕ) → a ≤ n → bit_and a b ≤ a
bit_and-le_below n zero b h = omega (arith, bit_and_step 0 b, zero_and (b / 2))
  where
    zero_and : (b : ℕ) → bit_and 0 b ≡ 0
    zero_and b = bit_and-bitwise 0 b
bit_and-le_below zero (suc a) b h = absurd (omega arith)
bit_and-le_below (suc n) (suc a) b h =
    omega (arith, bit_and_step (suc a) b, bit_and-le_below n (suc a / 2) (b / 2) (omega arith))

bit_and-le : (a b : ℕ) → bit_and a b ≤ a
bit_and-le a b = bit_and-le_below a a b (omega arith)

bit_and-pow_suc : (x k : ℕ) → bit_and x (2 ^ suc k) ≡ bit_and (x / 2) (2 ^ k) * 2
bit_and-pow_suc x k =
    omega (
      arith,
      bit_and_step x (2 ^ suc k),
      ap (λ (t : ℕ). bit_and (x / 2) t) (pow_half k),
      pow_even k,
    )

bit_and-one : (x : ℕ) → bit_and x 1 ≡ x % 2
bit_and-one x = omega (arith, bit_and_step x 1, bit_and-zero (x / 2))

double_zero : (b : ℕ) → (b * 2 == 0) ≡ (b == 0)
double_zero b = ground arith

-- The test of the C code, `0 != (x & 1 << k)`.
pub bit_and-test_bit : (x k : ℕ) → (bit_and x (2 ^ k) == 0) ≡ not (test_bit x k)
unfolding test_bit
bit_and-test_bit x zero = ground (arith, bit_and-one x)
bit_and-test_bit x (suc k) =
    rw (bit_and-pow_suc x k) (double_zero (bit_and (x / 2) (2 ^ k)) ∙ bit_and-test_bit (x / 2) k)

clear_half : (x k : ℕ) → and_not x (2 ^ suc k) / 2 ≡ and_not (x / 2) (2 ^ k)
clear_half x k = omega (arith, bit_and-pow_suc x k, bit_and-le (x / 2) (2 ^ k))

clear_low : (x k : ℕ) → and_not x (2 ^ suc k) % 2 ≡ x % 2
clear_low x k = omega (arith, bit_and-pow_suc x k, bit_and-le (x / 2) (2 ^ k))

clear_one_half : (x : ℕ) → and_not x 1 / 2 ≡ x / 2
clear_one_half x = omega (arith, bit_and-one x)

pub test_bit-and_not :
    (x k j : ℕ) → test_bit (and_not x (2 ^ k)) j ≡ (if j == k then false else test_bit x j)
unfolding test_bit
test_bit-and_not x zero zero = ==-false _ 1 (omega (arith, bit_and-one x))
test_bit-and_not x zero (suc j) = ground (arith, ap (λ (t : ℕ). test_bit t j) (clear_one_half x))
test_bit-and_not x (suc k) zero = rw (clear_low x k) (ground arith)
test_bit-and_not x (suc k) (suc j) =
    rw (clear_half x k) (test_bit-and_not (x / 2) k j ∙ ground arith)
