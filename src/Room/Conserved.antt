-- ===== src/Room/Conserved.antt =====
-- RTroom of rtcoalesce.c on a page table.
use rtgc.Common.{
  ℕ, zero, suc, ◌+◌, ◌-◌, ◌*◌, ◌/◌, ◌≤◌, ◌<◌, ◌≡◌, inl, inr, refl, sym, ap, ap₂, ◌∙◌, Bool, true,
  false, Returns, returns, Returns-mono, leb, ltb, lt→ltb, ltb-false, if◌then◌else◌, Bool-cases,
  arith,
}
use native.Mathlib.Nat.{add-mul}
use rtgc.InfoBits.{Mem, greenp}
use rtgc.Heap.{Heap, empty_page, group_page, page_index_to_ptr}
use rtgc.Heap.Groups.{InRange}
use rtgc.Room.{
  Room, green_objects, alloc_objects, close_run, add_objects_of, count_small, count_large,
  room_from, room, total_hole_and_committed_bytes,
}
use rtgc.Room.Totals.{weigh, weigh_zero, weigh-add_at, empty_pages-eq-weigh, committed-eq-weigh}

-- The pages from `page` on, as coalescing leaves them: empty pages, pages full of small objects of
-- a group, and those of large objects.
pub data IsTiled (h : Heap) : ℕ → Type 0 where
  end : {page : ℕ} → page ≡ h.total_partition_pages → IsTiled h page
  empty :
      {page : ℕ}
      → page < h.total_partition_pages
      → (h.pages page).group ≡ empty_page
      → IsTiled h (page + 1)
      → IsTiled h page
  small :
      {page : ℕ} (i : ℕ)
      → page < h.total_partition_pages
      → (h.pages page).group ≡ group_page i
      → InRange i
      → leb (h.groups i).size 4096 ≡ true
      → 4096 / (h.groups i).size * (h.groups i).size ≡ 4096
      → IsTiled h (page + 1)
      → IsTiled h page
  large :
      {page : ℕ} (i : ℕ)
      → (h.pages page).group ≡ group_page i
      → InRange i
      → leb (h.groups i).size 4096 ≡ false
      → (h.groups i).size / 4096 * 4096 ≡ (h.groups i).size
      → page + (h.groups i).size / 4096 ≤ h.total_partition_pages
      → IsTiled h (page + (h.groups i).size / 4096)
      → IsTiled h page

counted :
    (k size next : ℕ) (m : Mem) → green_objects k size next m + alloc_objects k size next m ≡ k
unfolding green_objects alloc_objects
counted zero size next m = refl
counted (suc k) size next m =
    one_more (greenp m next) (green_objects k size (next + size) m)
      (alloc_objects k size (next + size) m) (counted k size (next + size) m)
  where
    one_more :
        (b : Bool) (g a : ℕ)
        → g + a ≡ k
        → ((if b then 1 else 0) + g) + ((if b then 0 else 1) + a) ≡ suc k
    one_more true g a e = omega arith
    one_more false g a e = omega arith

module _ (h : Heap) where
  abbrev sizes : ℕ → ℕ
  sizes j = (h.groups j).size

  -- The bytes that the counters stand for.
  abbrev bytes : Room → ℕ
  bytes r =
      weigh (λ j. j) (h.total_partition_pages + 1) 0 r.hole_counts * 4096
      + (weigh sizes 20 5 r.green_count + weigh sizes 20 5 r.alloc_count)

  bytes-close :
      (len : ℕ) (r : Room)
      → len ≤ h.total_partition_pages
      → bytes (close_run len r) ≡ bytes r + len * 4096
  bytes-close len r l = elim (Bool-cases (ltb 0 len)) [
    | inl e ↦ rw e (
        more (weigh (λ j. j) (h.total_partition_pages + 1) 0 r.hole_counts)
          (weigh sizes 20 5 r.green_count + weigh sizes 20 5 r.alloc_count)
          (weigh-add_at (λ j. j) (h.total_partition_pages + 1) 0 len 1 r.hole_counts (omega arith)
            (omega arith)))
    | inr e ↦ rw e (none_more (bytes r) (not_lt len e))
  ]
    where
      more : (a b : ℕ) {c : ℕ} → c ≡ a + 1 * len → c * 4096 + b ≡ a * 4096 + b + len * 4096
      more a b e = omega arith

      none_more : (a : ℕ) → len ≡ 0 → a ≡ a + len * 4096
      none_more a e = omega arith

      not_lt : (len : ℕ) → ltb 0 len ≡ false → len ≡ 0
      not_lt len e = ground (arith, e)

  bytes-add :
      (i green alloc : ℕ) (r : Room)
      → InRange i
      → bytes (add_objects_of i green alloc r) ≡ bytes r + (green + alloc) * sizes i
  bytes-add i green alloc r k =
      both (weigh (λ j. j) (h.total_partition_pages + 1) 0 r.hole_counts * 4096)
        (weigh sizes 20 5 r.green_count) (weigh sizes 20 5 r.alloc_count) (green * sizes i)
        (alloc * sizes i) (weigh-add_at sizes 20 5 i green r.green_count k.0 (omega (arith, k.1)))
        (weigh-add_at sizes 20 5 i alloc r.alloc_count k.0 (omega (arith, k.1)))
        (add-mul green alloc (sizes i))
    where
      both :
          (a b c x y : ℕ) {d e z : ℕ}
          → d ≡ b + x
          → e ≡ c + y
          → z ≡ x + y
          → a + (d + e) ≡ a + (b + c) + z
      both a b c x y p q s = omega arith

  module _ (indexed : (i : ℕ) → InRange i → (h.groups i).index ≡ i) where
    bytes-small :
        (page i : ℕ) (r : Room)
        → InRange i
        → 4096 / sizes i * sizes i ≡ 4096
        → bytes (count_small page i h r) ≡ bytes r + 4096
    bytes-small page i r k e =
        let n = 4096 / sizes i in
        let next = page_index_to_ptr h page in
        let green = green_objects n (sizes i) next h.mem in
        let alloc = alloc_objects n (sizes i) next h.mem in
        ap (λ (j : ℕ). bytes (add_objects_of j green alloc r)) (indexed i k)
        ∙ bytes-add i green alloc r k
        ∙ ap (λ (t : ℕ). bytes r + t * sizes i) (counted n (sizes i) next h.mem)
        ∙ ap (λ (t : ℕ). bytes r + t) e

    bytes-large :
        (page i : ℕ) (r : Room)
        → InRange i
        → sizes i / 4096 * 4096 ≡ sizes i
        → bytes (count_large page i h r) ≡ bytes r + sizes i / 4096 * 4096
    bytes-large page i r k e =
        let b = greenp h.mem (page_index_to_ptr h page) in
        ap (λ (j : ℕ). bytes (add_objects_of j (if b then 1 else 0) (if b then 0 else 1) r))
          (indexed i k)
        ∙ bytes-add i (if b then 1 else 0) (if b then 0 else 1) r k
        ∙ ap (λ (t : ℕ). bytes r + t) (one b (sizes i) ∙ sym e)
      where
        one : (b : Bool) (n : ℕ) → ((if b then 1 else 0) + (if b then 0 else 1)) * n ≡ n
        one true n = omega arith
        one false n = omega arith

    at_least_a_page : (size : ℕ) → leb size 4096 ≡ false → 0 < size / 4096
    at_least_a_page size s = large_enough (not_leb size s)
      where
        not_leb : (size : ℕ) → leb size 4096 ≡ false → 4096 < size
        not_leb size s = ground (arith, s)

        large_enough : 4096 < size → 0 < size / 4096
        large_enough a = omega arith

    -- The bytes are right at the start of a round and at the end.
    abbrev Counted : (page len : ℕ) → Room → Type 0
    Counted page len r = (bytes r + len * 4096 ≡ page * 4096) × (len ≤ page)

    abbrev Total : Room → Type 0
    Total r = bytes r ≡ h.total_partition_pages * 4096

    -- After a run of empty pages and then an object or a page of objects with `n` pages.
    next_bytes :
        (page len n : ℕ) (r s : Room)
        → len ≤ h.total_partition_pages
        → bytes s ≡ bytes (close_run len r) + n * 4096
        → bytes r + len * 4096 ≡ page * 4096
        → bytes s + 0 * 4096 ≡ (page + n) * 4096
    next_bytes page len n r s l p q = sums (bytes r) p (bytes-close len r l) q
      where
        sums :
            (b : ℕ) {d f : ℕ}
            → f ≡ d + n * 4096
            → d ≡ b + len * 4096
            → b + len * 4096 ≡ page * 4096
            → f + 0 * 4096 ≡ (page + n) * 4096
        sums b p q u = omega arith

    room_from-Total :
        (fuel page len : ℕ) (r : Room)
        → h.total_partition_pages - page < fuel
        → Counted page len r
        → IsTiled h page
        → Returns Total (room_from fuel page len h r)
    unfolding room_from
    room_from-Total zero page len r f c t = absurd (omega arith)
    room_from-Total (suc fuel) page len r f c (end e) =
        rw (ltb-false page h.total_partition_pages (omega arith))
          (returns (bytes-close len r (omega (arith, c.1)) ∙ c.0 ∙ ap (λ (n : ℕ). n * 4096) e))
    room_from-Total (suc fuel) page len r f c (empty l e t) =
        rw (lt→ltb page h.total_partition_pages l, e, e)
          (room_from-Total fuel (page + 1) (len + 1) r (omega arith)
            (longer (bytes r) c.0, omega (arith, c.1)) t)
      where
        longer : (b : ℕ) → b + len * 4096 ≡ page * 4096 → b + (len + 1) * 4096 ≡ (page + 1) * 4096
        longer b e = omega arith
    room_from-Total (suc fuel) page len r f c (small i l e k s d t) =
        rw (lt→ltb page h.total_partition_pages l, e, s)
          (room_from-Total fuel (page + 1) 0 (count_small page i h (close_run len r)) (omega arith)
            (
              next_bytes page len 1 r (count_small page i h (close_run len r)) (omega (arith, c.1))
                  (bytes-small page i (close_run len r) k d) c.0,
              omega arith,
            )
            t)
    room_from-Total (suc fuel) page len r f c (large i e k s d u t) =
        let n = at_least_a_page (sizes i) s in
        rw (lt→ltb page h.total_partition_pages (omega (arith, n, u)), e, s)
          (room_from-Total fuel (page + sizes i / 4096) 0 (count_large page i h (close_run len r))
            (omega (arith, n))
            (
              next_bytes page len (sizes i / 4096) r (count_large page i h (close_run len r))
                  (omega (arith, c.1, n, u)) (bytes-large page i (close_run len r) k d) c.0,
              omega arith,
            )
            t)

-- Where the partition is empty pages, pages full of small objects of a group and large objects, one
-- after the other, and each group has its own index, RTroom returns with more fuel than there are
-- pages, and the bytes of all holes and groups that RTroom_print adds up are those of the
-- partition.
pub room-eq-bytes :
    (fuel : ℕ) (h : Heap)
    → ((i : ℕ) → InRange i → (h.groups i).index ≡ i)
    → IsTiled h 0
    → h.total_partition_pages < fuel
    → Returns
        (λ r. total_hole_and_committed_bytes h r ≡ h.total_partition_pages * 4096)
        (room fuel h)
unfolding room total_hole_and_committed_bytes
room-eq-bytes fuel h indexed t l =
    Returns-mono (room_from-Total h indexed fuel 0 0 _ (omega arith) (start, omega arith) t) (λ r e.
      ap₂ (λ (a b : ℕ). a * 4096 + b)
        (empty_pages-eq-weigh (h.total_partition_pages + 1) 0 r.hole_counts)
        (committed-eq-weigh 20 5 h r)
      ∙ e)
  where
    start :
        weigh (λ j. j) (h.total_partition_pages + 1) 0 (λ i. 0) * 4096
          + (weigh (λ j. (h.groups j).size) 20 5 (λ i. 0)
              + weigh (λ j. (h.groups j).size) 20 5 (λ i. 0))
          + 0 * 4096
        ≡ 0 * 4096
    start =
        rw
          (
            weigh_zero (λ j. j) (h.total_partition_pages + 1) 0,
            weigh_zero (λ j. (h.groups j).size) 20 5,
          )
          refl
