-- ===== src/Heap/Interior.antt =====
-- interior_to_gcptr_3 of rtgc.c.
use rtgc.Common.{
  zero, suc, inl, inr, false, ltb, ltb→lt, ◌*◌, Bool-cases, ℕ, ◌+◌, ◌-◌, ◌%◌, ◌^◌, ◌≤◌, ◌<◌, ◌≡◌,
  sym, ◌∙◌, ap, leb, arith, true,
}
use rtgc.Common.Bits.{bit_and_mask}
use mathlib.Core.Path.{subst}
use Prim.Native.Nat.{◌∣◌}
use native.Mathlib.Nat.{
  mod-add-mod, mod-eq_of_lt, pow-suc, pow-le-pow_right, dvd_refl, dvd_trans, dvd-add, dvd-mul_left,
  dvd-mul_right_of_dvd, mod-eq-zero_of_dvd, dvd_of_mod-eq-zero,
}
use rtgc.InfoBits.{Ptr}
use rtgc.Group.{Group}
use rtgc.Heap.{Page, interior_to_gcptr_3}

-- `base` is the header of an object of the group whose bytes hold `ptr`: an object smaller than a
-- page stands at a multiple of its size, and the page of a larger one names its base.
pub record IsInside (base ptr : Ptr) (page : Page) (group : Group) : Type 0 where
  pub size : group.size ≡ 2 ^ group.index
  pub from : base ≤ ptr
  pub below : ptr < base + group.size
  pub stands : leb 4096 group.size ≡ false → base % 2 ^ group.index ≡ 0
  pub large : leb 4096 group.size ≡ true → page.base ≡ base

offset_mod : (d base o : ℕ) → base % d ≡ 0 → o < d → (base + o) % d ≡ o
offset_mod d base o e h =
    sym (mod-add-mod base d o)
    ∙ ap (λ (t : ℕ). (t + o) % d) e
    ∙ ap (λ (t : ℕ). t % d) zero_plus
    ∙ mod-eq_of_lt h
  where
    zero_plus : 0 + o ≡ o
    zero_plus = omega arith

mask_to_base : (d base ptr : ℕ) → base ≤ ptr → ptr < base + d → base % d ≡ 0 → ptr - ptr % d ≡ base
mask_to_base d base ptr a b c =
    omega (arith, offset_mod d base (ptr - base) c (omega arith), ap (λ (t : ℕ). t % d) back)
  where
    back : base + (ptr - base) ≡ ptr
    back = omega arith

pub interior_to_gcptr_3-base :
    (base ptr : Ptr) (page : Page) (group : Group)
    → IsInside base ptr page group
    → interior_to_gcptr_3 ptr page group ≡ base
unfolding interior_to_gcptr_3
interior_to_gcptr_3-base base ptr page group h = elim (Bool-cases (leb 4096 group.size)) [
  | inl e ↦ rw e (h.large e)
  | inr e ↦ rw e (
      ap (λ (t : ℕ). ptr - t) (bit_and_mask group.index ptr)
      ∙ mask_to_base (2 ^ group.index) base ptr h.from (subst (λ n. ptr < base + n) h.size h.below)
          (h.stands e))
]

power_dvd : (i k : ℕ) → 2 ^ i ∣ 2 ^ (i + k)
power_dvd i zero = subst (λ n. 2 ^ i ∣ 2 ^ n) (plus_zero i) (dvd_refl (2 ^ i))
  where
    plus_zero : (n : ℕ) → n ≡ n + 0
    plus_zero n = omega arith
power_dvd i (suc k) =
    subst (λ n. 2 ^ i ∣ 2 ^ n) (plus_suc i k)
      (subst (λ n. 2 ^ i ∣ n) (sym (pow-suc 2 (i + k))) (dvd-mul_right_of_dvd _ (power_dvd i k) 2))
  where
    plus_suc : (n m : ℕ) → suc (n + m) ≡ n + suc m
    plus_suc n m = omega arith

-- The size of small objects divides that of a page.
size_dvd : (i : ℕ) → 2 ^ i < 4096 → 2 ^ i ∣ 4096
size_dvd i l = subst (λ n. 2 ^ i ∣ 2 ^ n) back (power_dvd i (12 - i))
  where
    below : i < 12
    below = elim (Bool-cases (ltb i 12)) [
      | inl e ↦ ltb→lt i 12 e
      | inr e ↦ absurd (too_large (pow-le-pow_right (omega arith) (not_below e)))
    ]
      where
        not_below : ltb i 12 ≡ false → 12 ≤ i
        not_below e = ground arith

        too_large : 2 ^ 12 ≤ 2 ^ i → ⊥
        too_large g = omega arith

    back : i + (12 - i) ≡ 12
    back = omega (arith, below)

-- Where the partition begins at a multiple of the page size, and the size of a group is the power
-- of two that its index says and less than a page, every pointer to the bytes of the object number
-- `k` behind a page boundary is taken to the header of that object, whatever the page table says.
pub interior_to_gcptr_3_small :
    (page_ptr k o : ℕ) (page : Page) (group : Group)
    → page_ptr % 4096 ≡ 0
    → group.size ≡ 2 ^ group.index
    → group.size < 4096
    → o < group.size
    → interior_to_gcptr_3 (page_ptr + k * group.size + o) page group ≡ page_ptr + k * group.size
interior_to_gcptr_3_small page_ptr k o page group a e l u =
    interior_to_gcptr_3-base (page_ptr + k * group.size) (page_ptr + k * group.size + o) page group
      (record {
        size = e;
        from = at_least (page_ptr + k * group.size);
        below = within (page_ptr + k * group.size) u;
        stands = λ q.
            subst (λ n. (page_ptr + k * n) % 2 ^ group.index ≡ 0) (sym e)
              (mod-eq-zero_of_dvd _ (
                dvd-add _
                  (dvd_trans _ (size_dvd group.index (subst (λ n. n < 4096) e l))
                    (dvd_of_mod-eq-zero _ a))
                  (dvd-mul_left (2 ^ group.index) k)));
        large = λ q. absurd (small l q);
      })
  where
    at_least : (b : ℕ) → b ≤ b + o
    at_least b = omega arith

    within : (b : ℕ) {n : ℕ} → o < n → b + o < b + n
    within b l = omega arith

    small : {n : ℕ} → n < 4096 → leb 4096 n ≡ true → ⊥
    small l q = ground arith
