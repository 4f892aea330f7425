-- ===== src/SizeClass/Bounds.antt =====
-- size_to_group_index and allocation_group of rtalloc.c, by the size of their group.
use rtgc.Common.{
  ℕ, zero, suc, ◌+◌, ◌-◌, ◌*◌, ◌/◌, ◌%◌, ◌^◌, ◌≤◌, ◌<◌, ◌≡◌, ◌≢◌, ◌⊎◌, inl, inr, refl, ◌∙◌, ap, max,
  Run, ◌>>=◌, ok, stopped, debugger, Returns, returns, Returns-mono, Returns-bind, ltb, ◌==◌,
  if◌then◌else◌, ==-true, arith, lt→ltb, Bool-cases, eq_of_==, ne_of_==, false,
}
use native.Mathlib.Nat.{pow-suc, pow-le-pow_right}
use native.Mathlib.Decide.{dec_lt}
use rtgc.InfoBits.{Mem}
use rtgc.SizeClass.{
  magnitude_before, halvings, size_to_group_index, real_size, allocation_group, negative,
}

-- `w` is the number of binary digits of `s`.
abbrev pub IsWidth : ℕ → ℕ → Type 0
IsWidth s w = (s < 2 ^ w) × ((w ≡ 0) ⊎ (2 ^ w ≤ 2 * s))

IsWidth-suc : (s w : ℕ) → s ≢ 0 → IsWidth (s / 2) w → IsWidth s (suc w)
IsWidth-suc s zero ne h = (omega arith, inr (omega arith))
IsWidth-suc s (suc w) ne (a, inl e) = absurd (omega arith)
IsWidth-suc s (suc w) ne (a, inr b) =
    (omega (arith, pow-suc 2 (suc w)), inr (omega (arith, pow-suc 2 (suc w))))

halvings-IsWidth :
    (fuel s index : ℕ)
    → s < 2 ^ fuel
    → Returns (λ r. (w : ℕ) × (r ≡ index + w) × IsWidth s w) (halvings fuel s index)
unfolding halvings
halvings-IsWidth zero s index h =
    rw (==-true s 0 (omega arith)) (returns (0, omega arith, (omega arith, inl refl)))
halvings-IsWidth (suc fuel) s index h = elim (Bool-cases (s == 0)) [
  | inl e ↦ let z = eq_of_== s 0 e in rw e (returns (0, omega arith, (omega arith, inl refl)))
  | inr e ↦ rw e (
      Returns-mono (halvings-IsWidth fuel (s / 2) (index + 1) (omega (arith, pow-suc 2 fuel)))
        (λ r (w, p, q). (suc w, omega arith, IsWidth-suc s w (ne_of_== s 0 e) q)))
]

-- What a good group index for a positive size is: within the range from below, large enough, and
-- the smallest such.
abbrev pub Fits : (size index : ℕ) → Type 0
Fits size index = (5 ≤ index) × (size ≤ 2 ^ index) × ((index ≡ 5) ⊎ (2 ^ (index - 1) < size))

two_pos : 0 < 2
two_pos = omega arith

Fits-of_width : (size w : ℕ) → 0 < size → IsWidth (size - 1) w → Fits size (max 5 w)
Fits-of_width size w pos (a, b) = elim (dec_lt 5 w) [
  | yes h ↦
      let e : max 5 w ≡ w = omega arith in
      let step : 2 ^ w ≡ 2 ^ (w - 1) * 2 =
        ap (λ (t : ℕ). 2 ^ t) (pred_suc w h) ∙ pow-suc 2 (w - 1) in
      rw e (omega arith, omega arith, inr (omega arith))
  | no h ↦
      let e : max 5 w ≡ 5 = omega arith in
      let up : 2 ^ w ≤ 2 ^ 5 = pow-le-pow_right {n = 2} two_pos {i = w} {j = 5} (omega arith) in
      rw e (omega arith, omega arith, inl refl)
]
  where
    pred_suc : (w : ℕ) → 5 < w → w ≡ suc (w - 1)
    pred_suc w h = omega arith

-- For every positive `int` the loop ends, and the index is that of the smallest group, from the
-- first one on, whose objects have room for `size` bytes.
pub size_to_group_index-Fits :
    (size : ℕ) → 0 < size → size < 2 ^ 31 → Returns (Fits size) (size_to_group_index size)
unfolding size_to_group_index magnitude_before
size_to_group_index-Fits size pos h =
    let e : magnitude_before size ≡ size - 1 = ground arith in
    rw e (
      Returns-bind (halvings-IsWidth 33 (size - 1) 0 (omega arith)) (λ r (w, p, q).
        let e' : r ≡ w = omega arith in returns (rw e' (Fits-of_width size w pos q))))

index-le : (size g : ℕ) → Fits size g → size ≤ 2 ^ 24 → g ≤ 24
index-le size g (a, b, inl e) h = omega arith
index-le size g (a, b, inr c) h = elim (dec_lt 24 g) [
  | yes k ↦
      let up : 2 ^ 24 ≤ 2 ^ (g - 1) =
        pow-le-pow_right {n = 2} two_pos {i = 24} {j = g - 1} (omega arith) in
      absurd (omega arith)
  | no k ↦ omega arith
]

index-gt : (size g : ℕ) → Fits size g → 2 ^ 24 < size → 24 < g
index-gt size g (a, b, c) h = elim (dec_lt 24 g) [
  | yes k ↦ k
  | no k ↦
      let up : 2 ^ g ≤ 2 ^ 24 = pow-le-pow_right {n = 2} two_pos {i = g} {j = 24} (omega arith) in
      absurd (omega arith)
]

abbrev choose : Run ℕ → Run ℕ
choose r = r >>= λ index. if ltb 24 index then stopped debugger else ok index

choose-Fits :
    (size : ℕ) {r : Run ℕ}
    → Returns (Fits size) r
    → size ≤ 2 ^ 24
    → Returns (λ g. Fits size g × (g ≤ 24)) (choose r)
choose-Fits size (returns {a = g} f) h =
    let e : ltb 24 g ≡ false = ground (arith, index-le size g f h) in
    rw e (returns (f, index-le size g f h))

choose-stops :
    (size : ℕ) {r : Run ℕ} → Returns (Fits size) r → 2 ^ 24 < size → choose r ≡ stopped debugger
choose-stops size (returns {a = g} f) h = rw (lt→ltb 24 g (index-gt size g f h)) refl

-- The bytes that an allocation needs, header and metadata pointer included.
abbrev pub needed : Mem → (metadata size : ℕ) → ℕ
needed m metadata size = if ltb metadata 3 then size + 16 else m metadata * size + 24

real_size-needed :
    (m : Mem) (metadata size : ℕ) → real_size m metadata size ≡ needed m metadata size % 2 ^ 32
unfolding real_size
real_size-needed m metadata size = ground arith

module _ (m : Mem) (metadata size : ℕ) (nonneg : size < 2 ^ 31) where
  not_negative : negative size ≡ false
  not_negative = ground arith

  -- Where the requested size is an `int` that is not negative and the bytes needed fit an `int`,
  -- an allocation of up to 2 ^ 24 bytes gets the smallest group whose objects have room for them,
  -- and a larger one goes to the debugger.
  pub allocation_group-Fits :
      needed m metadata size < 2 ^ 31
      → ((needed m metadata size ≤ 2 ^ 24)
          × Returns
              (λ g. Fits (needed m metadata size) g × (g ≤ 24))
              (allocation_group m metadata size))
        ⊎ ((2 ^ 24 < needed m metadata size)
            × (allocation_group m metadata size ≡ stopped debugger))
  unfolding allocation_group
  allocation_group-Fits h =
      let n = needed m metadata size in
      let e : real_size m metadata size ≡ n = omega (arith, real_size-needed m metadata size) in
      let pos : 0 < n = ground arith in
      let f = size_to_group_index-Fits n pos h in
      rw (not_negative, e)
        (elim (dec_lt (2 ^ 24) n) [
          | yes k ↦ inr (k, choose-stops n f k)
          | no k ↦ inl (omega arith, choose-Fits n f (omega arith))
        ])

  -- Where the requested size is an `int` that is not negative, the bytes needed are 2 ^ 32 or
  -- more and their low 32 bits are a positive number of at most 2 ^ 24, allocation succeeds with
  -- a group whose objects are too small.
  pub allocation_group_overflow :
      2 ^ 32 ≤ needed m metadata size
      → 0 < needed m metadata size % 2 ^ 32
      → needed m metadata size % 2 ^ 32 ≤ 2 ^ 24
      → Returns (λ g. 2 ^ g < needed m metadata size) (allocation_group m metadata size)
  unfolding allocation_group
  allocation_group_overflow big pos small =
      let n = needed m metadata size % 2 ^ 32 in
      rw (not_negative, real_size-needed m metadata size)
        (Returns-mono (choose-Fits n (size_to_group_index-Fits n pos (omega arith)) small) (λ g f.
          let up : 2 ^ g ≤ 2 ^ 24 = pow-le-pow_right {n = 2} two_pos {i = g} {j = 24} f.1 in
          omega arith))
