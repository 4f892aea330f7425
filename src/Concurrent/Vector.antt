-- ===== src/Concurrent/Vector.antt =====
-- A change of the write vector alone, as RTwrite_barrier and scan_write_vector of rtgc.c make it.
use rtgc.Common.{
  ℕ, ◌+◌, ◌*◌, ◌/◌, ◌%◌, ◌^◌, ◌<◌, ◌≡◌, inl, inr, refl, Bool, true, false, ◌==◌, if◌then◌else◌,
  Bool-cases, eq_of_==, arith, ap,
}
use rtgc.Common.Bits.{test_bit, and_not}
use rtgc.Common.Bits.Clear.{test_bit-and_not}
use rtgc.Group.View.{View}
use rtgc.Heap.{Heap}
use rtgc.Heap.Valid.{moved_table}
use rtgc.WriteBarrier.{set_word}
use rtgc.Concurrent.Snapshot.{IsCovered-Later, place, IsObject, IsSnapshot, Later}

abbrev pub revector : Heap → (ℕ → ℕ) → Heap
revector h vector = record h { write_vector = vector }

-- The snapshot is kept if the marks of white objects are, and new marks are of objects.
pub revector-IsSnapshot :
    (h0 : Heap) (v0 : ℕ → View) (h : Heap) (v : ℕ → View) (vector : ℕ → ℕ)
    → IsSnapshot h0 v0 h v
    → Later v0 h v (revector h vector) v
    → ((index bit : ℕ)
        → index < h0.write_vector_length
        → bit < 64
        → test_bit (vector index) bit ≡ true
        → IsObject h0 v0 (place h0 index bit))
    → IsSnapshot h0 v0 (revector h vector) v
revector-IsSnapshot h0 v0 h v vector s l owned = record {
  valid =
      moved_table h v (revector h vector) v s.valid s.valid.colors
        (record { group = s.valid.groups.group; apart = s.valid.groups.apart })
        (record { pages = refl; first = refl; last = refl; size = λ j. refl; index = λ j. refl })
        s.valid.classes (λ j q. (λ a k. k, λ a k. k));
  table = record {
    pages = s.table.pages;
    first = s.table.first;
    last = s.table.last;
    size = s.table.size;
    index = s.table.index;
  };
  members = s.members;
  greens = s.greens;
  classes = s.classes;
  marked_color = s.marked_color;
  unmarked_color = s.unmarked_color;
  barrier = s.barrier;
  vector_length = s.vector_length;
  first_static = s.first_static;
  static_frontier = s.static_frontier;
  contents = λ a p. elim (s.contents a p) [
    | inl e ↦ inl e
    | inr c ↦ inr (IsCovered-Later h0 v0 h v _ v (h0.mem a) l c)
  ];
  settled = λ j x k q n c u. IsCovered-Later h0 v0 h v _ v _ l (s.settled j x k q n c u);
  owned = owned;
}

-- A bit that is cleared.
abbrev pub cleared : (ℕ → ℕ) → (index bit : ℕ) → ℕ → ℕ
cleared vector index bit = set_word vector index (and_not (vector index) (2 ^ bit))

pub still_set :
    (vector : ℕ → ℕ) (index bit j b : ℕ)
    → test_bit (cleared vector index bit j) b ≡ true
    → test_bit (vector j) b ≡ true
still_set vector index bit j b = elim (Bool-cases (j == index)) [
  | inl e ↦
      rw (e, test_bit-and_not)
        (elim (Bool-cases (b == bit)) [
          | inl f ↦ rw f (λ k. absurd (false_ne_true k))
          | inr f ↦ rw (f, eq_of_== j index e) (λ k. k)
        ])
  | inr e ↦ rw e (λ k. k)
]
  where
    false_ne_true : ◌≡◌ {A = Bool} false true → ⊥
    false_ne_true e = cc

same_place :
    (index bit b : ℕ)
    → b % 32 ≡ 0
    → b / 2048 ≡ index
    → b % 2048 / 32 ≡ bit
    → b ≡ index * 32 * 64 + bit * 32
same_place index bit b p e f = omega arith

its_place :
    (index bit b : ℕ)
    → bit < 64
    → b ≡ index * 32 * 64 + bit * 32
    → (b / 2048 ≡ index) × (b % 2048 / 32 ≡ bit)
its_place index bit b l e = omega arith

-- The mark at an offset from the start of the partition.
pub cleared-test :
    (vector : ℕ → ℕ) (index bit b : ℕ)
    → bit < 64
    → b % 32 ≡ 0
    → test_bit (cleared vector index bit (b / 2048)) (b % 2048 / 32) ≡ (
        if b == index * 32 * 64 + bit * 32
        then false
        else test_bit (vector (b / 2048)) (b % 2048 / 32))
cleared-test vector index bit b l p = ground (
  arith,
  test_bit-and_not (vector index) bit (b % 2048 / 32),
  same_place index bit b p,
  its_place index bit b l,
  ap vector,
)
