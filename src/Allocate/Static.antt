-- ===== src/Allocate/Static.antt =====
-- RTstatic_allocate of rtalloc.c, and the header word as scan_static_space of rtgc.c reads it.
use rtgc.Common.{
  ℕ, ◌+◌, ◌-◌, ◌*◌, ◌/◌, ◌^◌, ◌<◌, ◌≤◌, ◌≡◌, refl, ◌∙◌, ap, true, false, ◌||◌, Returns, returns,
  leb, ltb, ◌==◌, arith,
}
use rtgc.InfoBits.{Mem, Ptr, write, set_link_info, get_link_info, get_storage_class}
use rtgc.InfoBits.Words.{get-set_link_info, set_info_lem}
use rtgc.SizeClass.{to_int}
use rtgc.Heap.{Heap}
use rtgc.Allocate.{clear_words, static_allocate}

-- The size of an object in words of 8 bytes, in bytes.
abbrev pub rounded : ℕ → ℕ
rounded size = (size + 7) / 8 * 8

header_size_lem :
    (n c : ℕ) → n < 2 ^ 28 → c < 4 → to_int (set_link_info (to_int (n * 16)) 3 c) / 16 ≡ n
header_size_lem n c h k = omega (arith, set_info_lem (to_int (n * 16)) c k)

header_stays : (m : Mem) (f v n : ℕ) → clear_words (write m f v) (f + 8) n f ≡ v
unfolding clear_words write
header_stays m f v n = ground arith

body_cleared : (m : Mem) (p n a : ℕ) → p ≤ a → a < p + n → clear_words m p n a ≡ 0
unfolding clear_words
body_cleared m p n a h k = ground arith

class_lem :
    (m : Mem) (f v n : ℕ)
    → 8 ≤ f
    → get_storage_class (clear_words (write m f v) (f + 8) n) (f - 8) ≡ get_link_info v 3
unfolding get_storage_class
class_lem m f v n h = rw (back f h) (ap (λ (t : ℕ). get_link_info t 3) (header_stays m f v n))
  where
    back : (f : ℕ) → 8 ≤ f → f - 8 + 8 ≡ f
    back f h = omega arith

-- A static object with a storage class of at most SC_CUSTOM1 and at most 2 ^ 27 - 8 bytes, for which
-- there is room behind the frontier, which is not below 8: RTstatic_allocate returns the address
-- behind the one-word header. The header has the size, as scan_static_space reads it, and the
-- storage class; the words of the object are 0, and the frontier stands behind the object.
pub static_allocate-header :
    (metadata size : ℕ) (h : Heap)
    → metadata < 3
    → size + 8 ≤ 2 ^ 27
    → 8 ≤ h.static_frontier_ptr
    → h.static_frontier_ptr + rounded size + 8 ≤ h.last_static_ptr
    → Returns
        (λ (h', p).
          (p ≡ h.static_frontier_ptr + 8)
          × (to_int (h'.mem h.static_frontier_ptr) / 16 ≡ rounded size)
          × (get_storage_class h'.mem (h.static_frontier_ptr - 8) ≡ metadata)
          × ((a : Ptr) → p ≤ a → a < p + rounded size → h'.mem a ≡ 0)
          × (h'.static_frontier_ptr ≡ p + rounded size))
        (static_allocate metadata size h)
unfolding static_allocate
static_allocate-header md size h small fits low room =
    let f = h.static_frontier_ptr in
    let n = rounded size in
    let header = set_link_info (to_int (n * 16)) 3 md in
    rw (has_room h.last_static_ptr (f + n + 8) room, known md small)
      (returns (
        refl,
        ap (λ (t : ℕ). to_int t / 16) (header_stays h.mem f header n)
            ∙ header_size_lem n md (omega arith) (omega arith),
        class_lem h.mem f header n low ∙ get-set_link_info (to_int (n * 16)) md (omega arith),
        body_cleared (write h.mem f header) (f + 8) n,
        omega arith,
      ))
  where
    has_room : (l f : ℕ) → f ≤ l → ltb l f ≡ false
    has_room l f e = ground arith

    known : (md : ℕ) → md < 3 → (leb md 1 || md == 2) ≡ true
    known md e = ground arith
