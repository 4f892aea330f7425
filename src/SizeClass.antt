-- ===== src/SizeClass.antt =====
-- The size classes of rtalloc.c: size_to_group_index, init_group_info and allocation_group. A C
-- `int` is its bit pattern, a number below 2 ^ 32; from 2 ^ 31 on it stands for a negative value.
pub mod Bounds
use rtgc.Common.{
  ℕ, zero, suc, ◌+◌, ◌-◌, ◌*◌, ◌/◌, ◌%◌, ◌^◌, Bool, max, Run, ok, stopped, debugger, out_of_fuel,
  ◌>>=◌, leb, ltb, ◌==◌, if◌then◌else◌,
}
use rtgc.InfoBits.{Mem, Ptr, null, sc_metadata}
use rtgc.Group.{Group}

-- MIN_GROUP_INDEX and MAX_GROUP_INDEX
abbrev pub min_group_index : ℕ
min_group_index = 5

abbrev pub max_group_index : ℕ
max_group_index = 24

-- sizeof (GC_HEADER) and sizeof (void *)
abbrev pub header_size : ℕ
header_size = 16

abbrev pub pointer_size : ℕ
pointer_size = 8

-- The conversion of a wider value to `int`.
abbrev pub to_int : ℕ → ℕ
to_int n = n % 2 ^ 32

abbrev pub negative : ℕ → Bool
negative n = leb (2 ^ 31) n

-- The absolute value of `size - 1`. C divides towards zero, so the loop halves it.
unfoldable pub magnitude_before : ℕ → ℕ
magnitude_before size =
    if negative size then 2 ^ 32 - size + 1 else if size == 0 then 1 else size - 1

-- The loop of size_to_group_index, with fuel for its rounds.
unfoldable pub halvings : (fuel s index : ℕ) → Run ℕ
halvings zero s index = if s == 0 then ok index else stopped out_of_fuel
halvings (suc fuel) s index =
    let rest = halvings fuel (s / 2) (index + 1) in if s == 0 then ok index else rest

unfoldable pub size_to_group_index : ℕ → Run ℕ
unfolding halvings magnitude_before
size_to_group_index size = do
  index ← halvings 33 (magnitude_before size) 0
  ok (max min_group_index index)

-- init_group_info for one index.
unfoldable pub init_group_info : ℕ → Group
init_group_info index = record {
  size = 2 ^ index;
  index = index;
  last = null;
  free = null;
  gray = null;
  black = null;
  white = null;
  white_count = 0;
  black_scanned_count = 0;
  black_alloc_count = 0;
}

-- The size that allocation_group asks for: of `size` bytes, or of `size` records that are as long
-- as the first word of the metadata says, and the pointer to the metadata.
unfoldable pub real_size : Mem → (metadata size : ℕ) → ℕ
real_size m metadata size =
    if ltb metadata sc_metadata
    then to_int (size + header_size)
    else to_int (to_int (m metadata * size + pointer_size) + header_size)

-- The index of the group; a negative or a too large size goes to the debugger.
unfoldable pub allocation_group : Mem → (metadata size : ℕ) → Run ℕ
unfolding real_size size_to_group_index
allocation_group m metadata size = if negative size then stopped debugger else do
  index ← size_to_group_index (real_size m metadata size)
  if ltb max_group_index index then stopped debugger else ok index
