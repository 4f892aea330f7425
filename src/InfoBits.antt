-- ===== src/InfoBits.antt =====
-- info-bits.h: links that hold a pointer and low order info bits, and the header of an object in
-- memory. A word of memory is a `long` at a byte address; `prev` is the word at the header's
-- address and `next` the one after it.
pub mod Words
pub mod Fields
use rtgc.Common.{ℕ, ◌+◌, ◌-◌, Bool, bit_and, bit_or, ◌==◌, if◌then◌else◌}
use rtgc.Common.Bits.{and_not}

-- The words of memory by byte address.
abbrev pub Mem : Type 0
Mem = ℕ → ℕ

abbrev pub Ptr : Type 0
Ptr = ℕ

abbrev pub null : Ptr
null = 0

-- A store of a word at an address that is a multiple of 8, as all other words of memory are at.
unfoldable pub write : Mem → ℕ → ℕ → Mem
write m a v b = if b == a then v else m b

-- LINK_INFO_MASK
abbrev pub link_info_mask : ℕ
link_info_mask = 15

-- GC_STORAGE_INFO_MASK and GC_COLOR_INFO_MASK
abbrev pub gc_storage_info_mask : ℕ
gc_storage_info_mask = 3

abbrev pub gc_color_info_mask : ℕ
gc_color_info_mask = 3

-- SC_NOPOINTERS, SC_POINTERS, SC_CUSTOM1 and SC_METADATA
abbrev pub sc_nopointers : ℕ
sc_nopointers = 0

abbrev pub sc_pointers : ℕ
sc_pointers = 1

abbrev pub sc_custom1 : ℕ
sc_custom1 = 2

abbrev pub sc_metadata : ℕ
sc_metadata = 3

-- GENERATION0, GENERATION1, GRAY and GREEN
abbrev pub generation0 : ℕ
generation0 = 0

abbrev pub generation1 : ℕ
generation1 = 1

abbrev pub gray : ℕ
gray = 2

abbrev pub green : ℕ
green = 3

-- The macros on one link word.
unfoldable pub get_link_pointer : ℕ → Ptr
get_link_pointer l = and_not l link_info_mask

unfoldable pub set_link_pointer : ℕ → Ptr → ℕ
set_link_pointer l v = bit_or (bit_and l link_info_mask) v

unfoldable pub get_link_info : ℕ → ℕ → ℕ
get_link_info l mask = bit_and l mask

unfoldable pub set_link_info : ℕ → ℕ → ℕ → ℕ
set_link_info l mask bits = bit_or (and_not l mask) bits

-- The same macros on the `prev` and `next` fields of the header at `p`.
unfoldable pub prev_link : Mem → Ptr → Ptr
prev_link m p = get_link_pointer (m p)

unfoldable pub next_link : Mem → Ptr → Ptr
next_link m p = get_link_pointer (m (p + 8))

unfoldable pub set_prev : Mem → Ptr → Ptr → Mem
unfolding write
set_prev m p v = write m p (set_link_pointer (m p) v)

unfoldable pub set_next : Mem → Ptr → Ptr → Mem
unfolding write
set_next m p v = write m (p + 8) (set_link_pointer (m (p + 8)) v)

-- GET_COLOR, SET_COLOR, GET_STORAGE_CLASS and SET_STORAGE_CLASS
unfoldable pub get_color : Mem → Ptr → ℕ
get_color m p = get_link_info (m p) gc_color_info_mask

unfoldable pub set_color : Mem → Ptr → ℕ → Mem
unfolding write
set_color m p c = write m p (set_link_info (m p) gc_color_info_mask c)

unfoldable pub get_storage_class : Mem → Ptr → ℕ
get_storage_class m p = get_link_info (m (p + 8)) gc_storage_info_mask

unfoldable pub set_storage_class : Mem → Ptr → ℕ → Mem
unfolding write
set_storage_class m p c = write m (p + 8) (set_link_info (m (p + 8)) gc_storage_info_mask c)

-- GRAYP and GREENP; WHITEP and BLACKP compare with the current colors.
abbrev pub grayp : Mem → Ptr → Bool
grayp m p = get_color m p == gray

abbrev pub greenp : Mem → Ptr → Bool
greenp m p = get_color m p == green
