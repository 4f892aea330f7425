-- ===== src/WriteBarrier/Idle.antt =====
-- scan_write_vector of rtgc.c where nothing is marked.
use rtgc.Common.{ℕ, zero, suc, ◌+◌, ◌≤◌, ◌<◌, ◌≡◌, refl, ok, ==-true, arith}
use rtgc.Heap.{Heap}
use rtgc.WriteBarrier.{scan_longs, scan_write_vector}

abbrev pub HasNoMarks : Heap → Type 0
HasNoMarks h = (j : ℕ) → j < h.write_vector_length → h.write_vector j ≡ 0

scan_longs-eq-ok :
    (k i n : ℕ) (h : Heap)
    → ((j : ℕ) → i ≤ j → j < i + k → h.write_vector j ≡ 0)
    → scan_longs k i n h ≡ ok (h, n)
unfolding scan_longs
scan_longs-eq-ok zero i n h f = refl
scan_longs-eq-ok (suc k) i n h f =
    rw (==-true (h.write_vector i) 0 (f i (omega arith) (omega arith)))
      (scan_longs-eq-ok k (i + 1) n h (λ j l u. f j (omega arith) (omega arith)))

pub scan_write_vector-eq-ok : (h : Heap) → HasNoMarks h → scan_write_vector h ≡ ok (h, 0)
unfolding scan_write_vector
scan_write_vector-eq-ok h f =
    scan_longs-eq-ok h.write_vector_length 0 0 h (λ j l u. f j (omega arith))
