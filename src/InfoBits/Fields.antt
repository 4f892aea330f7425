-- ===== src/InfoBits/Fields.antt =====
-- Reads of header fields after writes of header fields, for aligned headers.
use rtgc.Common.{ℕ, ◌+◌, ◌≡◌, ◌≢◌, ◌<◌, arith, ◌==◌, if◌then◌else◌}
use rtgc.InfoBits.{
  Mem, Ptr, prev_link, next_link, set_prev, set_next, get_color, set_color, get_storage_class,
  set_storage_class,
}
use rtgc.InfoBits.Words.{
  Aligned, get-set_link_pointer, get-set_link_info, get_link_pointer-set_link_info,
  get_link_info-set_link_pointer,
}

module _ (m : Mem) (p v q : Ptr) where
  pub prev_link-set_prev :
      Aligned v → prev_link (set_prev m p v) q ≡ (if q == p then v else prev_link m q)
  unfolding prev_link set_prev
  prev_link-set_prev h = ground (arith, get-set_link_pointer (m p) v)

  pub next_link-set_next :
      Aligned v → next_link (set_next m p v) q ≡ (if q == p then v else next_link m q)
  unfolding next_link set_next
  next_link-set_next h = ground (arith, get-set_link_pointer (m (p + 8)) v)

  pub next_link-set_prev : Aligned p → Aligned q → next_link (set_prev m p v) q ≡ next_link m q
  unfolding next_link set_prev
  next_link-set_prev h k = ground arith

  pub prev_link-set_next : Aligned p → Aligned q → prev_link (set_next m p v) q ≡ prev_link m q
  unfolding prev_link set_next
  prev_link-set_next h k = ground arith

  pub get_color-set_prev : Aligned v → get_color (set_prev m p v) q ≡ get_color m q
  unfolding get_color set_prev
  get_color-set_prev h = ground (arith, get_link_info-set_link_pointer (m p) v)

  pub get_color-set_next : Aligned p → Aligned q → get_color (set_next m p v) q ≡ get_color m q
  unfolding get_color set_next
  get_color-set_next h k = ground arith

  pub get_storage_class-set_next :
      Aligned v → get_storage_class (set_next m p v) q ≡ get_storage_class m q
  unfolding get_storage_class set_next
  get_storage_class-set_next h = ground (arith, get_link_info-set_link_pointer (m (p + 8)) v)

module _ (m : Mem) (p c q : ℕ) where
  pub get_color-set_color :
      c < 4 → get_color (set_color m p c) q ≡ (if q == p then c else get_color m q)
  unfolding get_color set_color
  get_color-set_color h = ground (arith, get-set_link_info (m p) c)

  pub prev_link-set_color : c < 4 → prev_link (set_color m p c) q ≡ prev_link m q
  unfolding prev_link set_color
  prev_link-set_color h = ground (arith, get_link_pointer-set_link_info (m p) c)

  pub next_link-set_color : Aligned p → Aligned q → next_link (set_color m p c) q ≡ next_link m q
  unfolding next_link set_color
  next_link-set_color h k = ground arith

  pub get_storage_class-set_storage_class :
      c < 4
      → get_storage_class (set_storage_class m p c) q
        ≡ (if q == p then c else get_storage_class m q)
  unfolding get_storage_class set_storage_class
  get_storage_class-set_storage_class h = ground (arith, get-set_link_info (m (p + 8)) c)

  pub next_link-set_storage_class : c < 4 → next_link (set_storage_class m p c) q ≡ next_link m q
  unfolding next_link set_storage_class
  next_link-set_storage_class h = ground (arith, get_link_pointer-set_link_info (m (p + 8)) c)

  pub prev_link-set_storage_class :
      Aligned p → Aligned q → prev_link (set_storage_class m p c) q ≡ prev_link m q
  unfolding prev_link set_storage_class
  prev_link-set_storage_class h k = ground arith

  pub get_color-set_storage_class :
      Aligned p → Aligned q → get_color (set_storage_class m p c) q ≡ get_color m q
  unfolding get_color set_storage_class
  get_color-set_storage_class h k = ground arith

-- The same at the header written, and at another.
module _ (m : Mem) (p v : Ptr) (h : Aligned v) where
  pub prev_link-set_prev_self : prev_link (set_prev m p v) p ≡ v
  prev_link-set_prev_self = ground (arith, prev_link-set_prev m p v p)

  pub next_link-set_next_self : next_link (set_next m p v) p ≡ v
  next_link-set_next_self = ground (arith, next_link-set_next m p v p)

  pub prev_link-set_prev_ne : (q : Ptr) → q ≢ p → prev_link (set_prev m p v) q ≡ prev_link m q
  prev_link-set_prev_ne q ne = ground (arith, prev_link-set_prev m p v q)

  pub next_link-set_next_ne : (q : Ptr) → q ≢ p → next_link (set_next m p v) q ≡ next_link m q
  next_link-set_next_ne q ne = ground (arith, next_link-set_next m p v q)

module _ (m : Mem) (p c : ℕ) (h : c < 4) where
  pub get_color-set_color_self : get_color (set_color m p c) p ≡ c
  get_color-set_color_self = ground (arith, get_color-set_color m p c p)

  pub get_color-set_color_ne : (q : Ptr) → q ≢ p → get_color (set_color m p c) q ≡ get_color m q
  get_color-set_color_ne q ne = ground (arith, get_color-set_color m p c q)
