-- ===== src/InfoBits/Words.antt =====
-- The macros of info-bits.h on one link word.
use rtgc.Common.{ℕ, ◌+◌, ◌-◌, ◌%◌, ◌≡◌, ◌<◌, arith}
use rtgc.Common.Bits.{bit_and_three, bit_and_fifteen, bit_or_low_four, bit_or_low_two}
use rtgc.InfoBits.{get_link_pointer, set_link_pointer, get_link_info, set_link_info}

-- What GC_HEADER pointers are: no info bits are set in them.
abbrev pub Aligned : ℕ → Type 0
Aligned p = p % 16 ≡ 0

pub get_link_pointer_lem : (l : ℕ) → get_link_pointer l ≡ l - l % 16
unfolding get_link_pointer
get_link_pointer_lem l = omega (arith, bit_and_fifteen l)

set_link_pointer_lem : (l v : ℕ) → Aligned v → set_link_pointer l v ≡ l % 16 + v
unfolding set_link_pointer
set_link_pointer_lem l v h =
    ground (arith, bit_and_fifteen l, bit_or_low_four (l % 16) v (omega arith) h)

get_info_lem : (l : ℕ) → get_link_info l 3 ≡ l % 4
unfolding get_link_info
get_info_lem l = bit_and_three l

pub set_info_lem : (l c : ℕ) → c < 4 → set_link_info l 3 c ≡ l - l % 4 + c
unfolding set_link_info
set_info_lem l c h = ground (arith, bit_and_three l, bit_or_low_two (l - l % 4) c (omega arith) h)

pub get-set_link_pointer : (l v : ℕ) → Aligned v → get_link_pointer (set_link_pointer l v) ≡ v
get-set_link_pointer l v h =
    omega (arith, set_link_pointer_lem l v h, get_link_pointer_lem (set_link_pointer l v))

pub get-set_link_info : (l c : ℕ) → c < 4 → get_link_info (set_link_info l 3 c) 3 ≡ c
get-set_link_info l c h = omega (arith, set_info_lem l c h, get_info_lem (set_link_info l 3 c))

pub get_link_pointer-set_link_info :
    (l c : ℕ) → c < 4 → get_link_pointer (set_link_info l 3 c) ≡ get_link_pointer l
get_link_pointer-set_link_info l c h =
    omega (
      arith,
      set_info_lem l c h,
      get_link_pointer_lem (set_link_info l 3 c),
      get_link_pointer_lem l,
    )

pub get_link_info-set_link_pointer :
    (l v : ℕ) → Aligned v → get_link_info (set_link_pointer l v) 3 ≡ get_link_info l 3
get_link_info-set_link_pointer l v h =
    omega (arith, set_link_pointer_lem l v h, get_info_lem (set_link_pointer l v), get_info_lem l)

pub get_link_info-lt : (l : ℕ) → get_link_info l 3 < 4
get_link_info-lt l = omega (arith, get_info_lem l)

-- A plain store of an aligned pointer leaves no info bits.
pub get_link_pointer-Aligned' : (v : ℕ) → Aligned v → get_link_pointer v ≡ v
get_link_pointer-Aligned' v h = omega (arith, get_link_pointer_lem v)

pub get_link_pointer-Aligned : (l : ℕ) → Aligned (get_link_pointer l)
get_link_pointer-Aligned l = omega (arith, get_link_pointer_lem l)
