-- ===== src/Group/Extend/Objects.antt =====
-- The objects that init_pages_for_group lays out in new pages.
use rtgc.Common.{
  ℕ, zero, suc, ◌+◌, ◌≡◌, ◌≢◌, refl, sym, ◌∙◌, List, [], ◌∷◌, All, ◌∉◌, head_or, last_or, arith,
}
use rtgc.InfoBits.{Mem, Ptr, write, green, next_link, prev_link, get_color}
use rtgc.InfoBits.Words.{Aligned, get_link_pointer-Aligned'}
use rtgc.InfoBits.Fields.{
  get_color-set_color_self, get_color-set_color_ne, prev_link-set_color, next_link-set_color,
}
use rtgc.Chain.{IsNode, AreNodes, IsChain, nil, cons, AllColor}
use rtgc.Group.{init_object, init_objects}

-- The addresses of `k` objects of the given size from `base` on.
abbrev pub objects : (size k : ℕ) → (base : Ptr) → List Ptr
objects size zero base = []
objects size (suc k) base = base ∷ objects size k (base + size)

-- The links and the color of a header are the same in both memories.
abbrev pub SameHeader : Mem → Mem → Ptr → Type 0
SameHeader m m' q =
    (prev_link m' q ≡ prev_link m q)
    × (next_link m' q ≡ next_link m q)
    × (get_color m' q ≡ get_color m q)

pub IsChain-same :
    {m m' : Mem} {b a : Ptr} (zs : List Ptr)
    → All (SameHeader m m') zs
    → IsChain m b zs a
    → IsChain m' b zs a
IsChain-same [] h nil = nil
IsChain-same (z ∷ zs) h (cons e f k) = cons (h.0.0 ∙ e) (h.0.1 ∙ f) (IsChain-same zs h.1 k)

pub AllColor-same :
    (m m' : Mem) (c : ℕ) (zs : List Ptr)
    → All (SameHeader m m') zs
    → AllColor m c zs
    → AllColor m' c zs
AllColor-same m m' c [] h k = tt
AllColor-same m m' c (z ∷ zs) h k = (h.0.2 ∙ k.0, AllColor-same m m' c zs h.1 k.1)

module _ (m : Mem) (p c n : Ptr) (hp : Aligned p) (hc : Aligned c) (hn : Aligned n) where
  init_object_links :
      (prev_link (init_object m p c n) c ≡ p)
      × (next_link (init_object m p c n) c ≡ n)
      × (get_color (init_object m p c n) c ≡ green)
  unfolding init_object
  init_object_links = (
    prev_link-set_color (write (write m c p) (c + 8) n) c green c (omega arith) ∙ stored_prev,
    next_link-set_color (write (write m c p) (c + 8) n) c green c hc hc ∙ stored_next,
    get_color-set_color_self (write (write m c p) (c + 8) n) c green (omega arith),
  )
    where
      stored_prev : prev_link (write (write m c p) (c + 8) n) c ≡ p
      stored_prev = unfold prev_link write in ground (arith, get_link_pointer-Aligned' p)

      stored_next : next_link (write (write m c p) (c + 8) n) c ≡ n
      stored_next = unfold next_link write in ground (arith, get_link_pointer-Aligned' n)

  init_object_other : (q : Ptr) → Aligned q → q ≢ c → SameHeader m (init_object m p c n) q
  unfolding init_object
  init_object_other q hq ne = (
    prev_link-set_color (write (write m c p) (c + 8) n) c green q (omega arith) ∙ kept_prev,
    next_link-set_color (write (write m c p) (c + 8) n) c green q hc hq ∙ kept_next,
    get_color-set_color_ne (write (write m c p) (c + 8) n) c green (omega arith) q ne ∙ kept_color,
  )
    where
      kept_prev : prev_link (write (write m c p) (c + 8) n) q ≡ prev_link m q
      kept_prev = unfold prev_link write in ground arith

      kept_next : next_link (write (write m c p) (c + 8) n) q ≡ next_link m q
      kept_next = unfold next_link write in ground arith

      kept_color : get_color (write (write m c p) (c + 8) n) q ≡ get_color m q
      kept_color = unfold get_color write in ground arith

pub init_objects_other :
    (size k : ℕ) (p c : Ptr) (m : Mem) (q : Ptr)
    → Aligned size
    → Aligned p
    → All IsNode (objects size k c)
    → Aligned q
    → q ∉ objects size k c
    → SameHeader m (init_objects size k p c m).0 q
unfolding init_objects
init_objects_other size zero p c m q hs hp n hq o = (refl, refl, refl)
init_objects_other size (suc k) p c m q hs hp n hq o =
    let hn : Aligned (c + size) = omega (arith, n.0.0) in
    let r =
      init_objects_other size k c (c + size) (init_object m p c (c + size)) q hs n.0.0 n.1 hq o.1 in
    let s = init_object_other m p c (c + size) hp n.0.0 hn q hq (λ e. o.0 (sym e)) in
    (r.0 ∙ s.0, r.1 ∙ s.1, r.2 ∙ s.2)

-- Where the objects end.
abbrev pub stop : (size k : ℕ) → (base : Ptr) → Ptr
stop size zero base = base
stop size (suc k) base = stop size k (base + size)

head-objects : (size k : ℕ) (c : Ptr) → head_or (objects size k c) (stop size k c) ≡ c
head-objects size zero c = refl
head-objects size (suc k) c = refl

-- The objects laid out form a chain of green objects.
pub init_objects-IsChain :
    (size k : ℕ) (p c : Ptr) (m : Mem)
    → Aligned size
    → Aligned p
    → AreNodes (objects size k c)
    → IsChain (init_objects size k p c m).0 p (objects size k c) (stop size k c)
      × AllColor (init_objects size k p c m).0 green (objects size k c)
      × ((init_objects size k p c m).1 ≡ last_or p (objects size k c))
unfolding init_objects
init_objects-IsChain size zero p c m hs hp n = (nil, tt, refl)
init_objects-IsChain size (suc k) p c m hs hp n =
    let hn : Aligned (c + size) = omega (arith, n.0.0.0) in
    let m1 = init_object m p c (c + size) in
    let r = init_objects-IsChain size k c (c + size) m1 hs n.0.0.0 (n.0.1, n.1.1) in
    let s = init_object_links m p c (c + size) hp n.0.0.0 hn in
    let o = init_objects_other size k c (c + size) m1 c hs n.0.0.0 n.0.1 n.0.0.0 n.1.0 in
    (cons (o.0 ∙ s.0) (o.1 ∙ s.1 ∙ sym (head-objects size k (c + size))) r.0, (o.2 ∙ s.2, r.1), r.2)
