-- ===== src/Concurrent/WriteVector.antt =====
-- The loops of scan_write_vector in rtgc.c while mutators store.
use rtgc.Common.{
  ℕ, zero, suc, ◌+◌, ◌-◌, ◌*◌, ◌/◌, ◌%◌, ◌≤◌, ◌<◌, ◌≡◌, ◌≢◌, inl, inr, refl, sym, ap, ◌∙◌, false,
  ◌∈◌, mem-append_left, ok, Returns, returns, Returns-bind, Returns-mono, ◌==◌, if◌then◌else◌,
  Bool-cases, eq_of_==, arith,
}
use native.Mathlib.Decide.{ℕ_discrete}
use rtgc.Common.Bits.{test_bit, test_bit-zero}
use rtgc.Group.View.{View}
use rtgc.Heap.{Heap}
use rtgc.Heap.Groups.{InRange}
use rtgc.Heap.Valid.{IsHeap}
use rtgc.WriteBarrier.Marks.{marked}
use rtgc.Trace.GraySet.{high}
use rtgc.Concurrent.{Shared, scan_bits, scan_longs, scan_write_vector}
use rtgc.Concurrent.Snapshot.{AreMarkable, place}
use rtgc.Concurrent.Stores.{IsGoing, interrupted-IsGoing}
use rtgc.Concurrent.Bit.{Examined, scan_bit-Examined}
use rtgc.Concurrent.Clear.{marked_at}
use rtgc.Concurrent.Search.{
  Search, low, Search-refl, Search-trans, waited, Unmarked, Unmarked-before,
}

module _ (h0 : Heap) (v0 : ℕ → View) where
  module _ (valid0 : IsHeap h0 v0) (able : AreMarkable h0 v0) where
    abbrev BitIn : (index b k : ℕ) → ℕ → Type 0
    BitIn index b k x = (c : ℕ) × (b ≤ c) × (c < b + k) × (x ≡ place h0 index c)

    one_bit :
        (s1 : Shared) (v : ℕ → View) (h : Heap) (n n1 : ℕ) (v1 : ℕ → View)
        → IsGoing h0 v0 v s1
        → Examined h0 v0 s1.heap v n h v1 n1
        → Search h0 v0 s1 v n (record s1 { heap = h }) v1 n1
    one_bit s1 v h n n1 v1 g e = record {
      going = (e.snapshot, g.1);
      later = e.later;
      count = e.count;
      more = e.more;
      idle = e.idle;
    }

    scan_bits-Search :
        (k index b n : ℕ) (s : Shared) (v : ℕ → View)
        → index < h0.write_vector_length
        → b + k ≤ 64
        → IsGoing h0 v0 v s
        → Returns
            (λ r.
              (v' : (ℕ → View)) × Search h0 v0 s v n r.0 v' r.1
              × (r.1 ≡ n → Unmarked h0 v0 s v (BitIn index b k)))
            (scan_bits k index b n s)
    unfolding scan_bits
    scan_bits-Search zero index b n s v a l g =
        returns (v, Search-refl h0 v0 s v n g, λ e j x r m (c, p, q, w). absurd (omega arith))
    scan_bits-Search (suc k) index b n s v a l g =
        Returns-bind (interrupted-IsGoing h0 v0 valid0 able s v g) (λ s1 (g1, l1).
          Returns-bind (scan_bit-Examined h0 v0 able s1.heap v g1.0 index b n a (omega arith))
            (λ (h, n1) (v1, x1, u1).
              let s2 : Shared = record s1 { heap = h } in
              let p1 = waited h0 v0 s v n s1 g1 l1 in
              let p2 = Search-trans h0 v0 s v n s1 v n s2 v1 n1 p1 (one_bit s1 v h n n1 v1 g1 x1) in
              Returns-mono
                (scan_bits-Search k index (b + 1) n1 s2 v1 a (omega arith) (x1.snapshot, g1.1))
                (λ (s3, n3) (v3, p3, u3). (
                  v3,
                  Search-trans h0 v0 s v n s2 v1 n1 s3 v3 n3 p2 p3,
                  λ e j x r m (c, p, q, w).
                      let e1 = low n n1 n3 p2.more p3.more e in
                      let e3 = high n n1 n3 p2.more p3.more e in
                      elim (ℕ_discrete b c) [
                        | yes f ↦
                            Unmarked-before h0 v0 s v n s1 v n (λ y. y ≡ place h0 index b) p1 refl
                              (λ j2 y r2 m2 w2.
                                marked_at h0 v0 s1.heap v index b y g1.0 (omega arith) w2 ∙ u1 e1)
                              j x r m (w ∙ ap (λ (t : ℕ). place h0 index t) (sym f))
                        | no f ↦
                            Unmarked-before h0 v0 s v n s2 v1 n1 (BitIn index (b + 1) k) p2 e1
                              (u3 e3) j x r m (c, omega arith, omega arith, w)
                      ],
                ))))

    abbrev WordIn : (i k : ℕ) → ℕ → Type 0
    WordIn i k x =
        (i ≤ (x - h0.first_partition_ptr) / 2048) × ((x - h0.first_partition_ptr) / 2048 < i + k)

    -- The place of an object in the write vector.
    object_place :
        (s : Shared) (v : ℕ → View) (j x : ℕ)
        → IsGoing h0 v0 v s
        → InRange j
        → x ∈ (v j).whites
        → x
          ≡ place h0
              ((x - h0.first_partition_ptr) / 2048)
              ((x - h0.first_partition_ptr) % 2048 / 32)
    object_place s v j x g r m =
        let a = able j x r ((g.0.members j).1 x (mem-append_left x (v j).whites _ m)) in
        whole h0.first_partition_ptr a.0 a.1
      where
        whole :
            (f : ℕ)
            → f ≤ x
            → (x - f) % 32 ≡ 0
            → x ≡ f + (x - f) / 2048 * 32 * 64 + (x - f) % 2048 / 32 * 32
        whole f l e = omega arith

    small_bit : (o : ℕ) → o % 2048 / 32 < 64
    small_bit o = omega arith

    -- One word of the vector.
    one_word :
        (index n : ℕ) (s : Shared) (v : ℕ → View)
        → index < h0.write_vector_length
        → IsGoing h0 v0 v s
        → Returns
            (λ r.
              (v' : (ℕ → View)) × Search h0 v0 s v n r.0 v' r.1
              × (r.1 ≡ n → Unmarked h0 v0 s v (λ x. (x - h0.first_partition_ptr) / 2048 ≡ index)))
            (if s.heap.write_vector index == 0 then ok (s, n) else scan_bits 64 index 0 n s)
    one_word index n s v a g = elim (Bool-cases (s.heap.write_vector index == 0)) [
      | inl e ↦ rw e (
          returns (
            v,
            Search-refl h0 v0 s v n g,
            λ k j x r m q.
                let o = x - h0.first_partition_ptr in
                marked_at h0 v0 s.heap v (o / 2048) (o % 2048 / 32) x g.0 (small_bit o)
                  (object_place s v j x g r m)
                ∙ ap (λ (t : ℕ). test_bit (s.heap.write_vector t) (o % 2048 / 32)) q
                ∙ ap (λ (t : ℕ). test_bit t (o % 2048 / 32)) (eq_of_== _ _ e)
                ∙ test_bit-zero (o % 2048 / 32),
          ))
      | inr e ↦ rw e (
          Returns-mono (scan_bits-Search 64 index 0 n s v a (omega arith) g) (λ r (v', p, u). (
            v',
            p,
            λ k j x q m w.
                let o = x - h0.first_partition_ptr in
                u k j x q m (
                  o % 2048 / 32,
                  omega arith,
                  small_bit o,
                  object_place s v j x g q m ∙ ap (λ (t : ℕ). place h0 t (o % 2048 / 32)) w,
                ),
          )))
    ]

    scan_longs-Search :
        (k i n : ℕ) (s : Shared) (v : ℕ → View)
        → i + k ≤ h0.write_vector_length
        → IsGoing h0 v0 v s
        → Returns
            (λ r.
              (v' : (ℕ → View)) × Search h0 v0 s v n r.0 v' r.1
              × (r.1 ≡ n → Unmarked h0 v0 s v (WordIn i k)))
            (scan_longs k i n s)
    unfolding scan_longs
    scan_longs-Search zero i n s v a g = returns (
      v,
      Search-refl h0 v0 s v n g,
      λ e j x r m (p, q). absurd (none_in i (x - h0.first_partition_ptr) p q),
    )
      where
        none_in : (i o : ℕ) → i ≤ o / 2048 → o / 2048 < i + 0 → ⊥
        none_in i o p q = omega arith
    scan_longs-Search (suc k) i n s v a g =
        Returns-bind (interrupted-IsGoing h0 v0 valid0 able s v g) (λ s1 (g1, l1).
          Returns-bind (one_word i n s1 v (omega arith) g1) (λ (s2, n2) (v2, x2, u2).
            let p1 = waited h0 v0 s v n s1 g1 l1 in
            let p2 = Search-trans h0 v0 s v n s1 v n s2 v2 n2 p1 x2 in
            Returns-mono (scan_longs-Search k (i + 1) n2 s2 v2 (omega arith) x2.going)
              (λ (s3, n3) (v3, p3, u3). (
                v3,
                Search-trans h0 v0 s v n s2 v2 n2 s3 v3 n3 p2 p3,
                λ e j x r m w.
                    let e2 = low n n2 n3 p2.more p3.more e in
                    let e3 = high n n2 n3 p2.more p3.more e in
                    let o = x - h0.first_partition_ptr in
                    elim (ℕ_discrete (o / 2048) i) [
                      | yes f ↦
                          Unmarked-before h0 v0 s v n s1 v n
                            (λ y. (y - h0.first_partition_ptr) / 2048 ≡ i) p1 refl (u2 e2) j x r m f
                      | no f ↦
                          Unmarked-before h0 v0 s v n s2 v2 n2 (WordIn (i + 1) k) p2 e2 (u3 e3) j x
                            r m (inside o i k f w.0 w.1)
                    ],
              ))))
      where
        inside :
            (o i k : ℕ)
            → o / 2048 ≢ i
            → i ≤ o / 2048
            → o / 2048 < i + suc k
            → (i + 1 ≤ o / 2048) × (o / 2048 < i + 1 + k)
        inside o i k f p q = omega arith

    -- If no mark is found, no white object had a mark when the pass began.
    pub scan_write_vector-Search :
        (s : Shared) (v : ℕ → View)
        → IsGoing h0 v0 v s
        → Returns
            (λ r.
              (v' : (ℕ → View)) × Search h0 v0 s v 0 r.0 v' r.1
              × (r.1 ≡ 0 → (j x : ℕ) → InRange j → x ∈ (v j).whites → marked s.heap x ≡ false))
            (scan_write_vector s)
    unfolding scan_write_vector
    scan_write_vector-Search s v g =
        let len = g.0.vector_length in
        Returns-mono (scan_longs-Search s.heap.write_vector_length 0 0 s v (at_most len) g)
          (λ r (v', p, u). (
            v',
            p,
            λ e j x q m.
                let a = able j x q ((g.0.members j).1 x (mem-append_left x (v j).whites _ m)) in
                u e j x q m (omega arith, within a.2 len),
          ))
      where
        within : {o t l : ℕ} → o < l → t ≡ l → o < 0 + t
        within p e = omega arith

        at_most : {a b : ℕ} → a ≡ b → 0 + a ≤ b
        at_most e = omega arith
