-- ===== src/Concurrent/Payload.antt =====
-- The stores of RTwrite_barrier and RTmemcpy in rtgc.c, while the collector marks.
use rtgc.Common.{
  ℕ, ◌%◌, ◌≤◌, ◌≡◌, ◌⊎◌, inl, inr, refl, sym, ap, ◌∙◌, Bool, ◌∈◌, ◌==◌, if◌then◌else◌, Bool-cases,
  eq_of_==, All-mem, arith,
}
use mathlib.Core.Path.{subst}
use rtgc.InfoBits.{Mem, write}
use rtgc.Group.View.{View}
use rtgc.Group.Extend.Objects.{SameHeader}
use rtgc.Group.Frame.{objects_of}
use rtgc.Heap.{Heap, whitep}
use rtgc.Heap.Groups.{InRange}
use rtgc.Heap.Valid.{IsPayload, IsPayload-members}
use rtgc.Heap.Written.{with_mem, same_headers, same_class, with_mem-IsHeap}
use rtgc.Trace.Total.{total}
use rtgc.WriteBarrier.Marks.{marked}
use rtgc.Concurrent.Snapshot.{IsCovered, IsSnapshot, Later, weight}

-- Words that change are at no header, and are covered.
module _ (h0 : Heap) (v0 : ℕ → View) (h : Heap) (v : ℕ → View) (s : IsSnapshot h0 v0 h v) (m' : Mem)
    (c : (b : ℕ)
      → b % 8 ≡ 0
      → (m' b ≡ h.mem b) ⊎ (IsPayload v0 b × IsCovered h0 h v (h0.mem b))) where
  changes : (b : ℕ) → b % 8 ≡ 0 → (m' b ≡ h.mem b) ⊎ IsPayload v b
  changes b d = elim (c b d) [
    | inl e ↦ inl e
    | inr (p, _) ↦ inr (IsPayload-members v0 v (λ j r. s.members j) b p)
  ]

  same_white : (i x : ℕ) → InRange i → x ∈ objects_of (v i) → whitep (with_mem h m') x ≡ whitep h x
  same_white i x r m =
      ap (λ (c : ℕ). c == h.unmarked_color)
        ((All-mem (SameHeader h.mem m') x (objects_of (v i)) m
          (same_headers h v s.valid m' changes i r)).2)

  pub with_mem-Later : Later v0 h v (with_mem h m') v
  with_mem-Later = record {
    whites = λ i b m. m;
    marks = λ i x r m e. e;
    lighter = λ i x r m.
        subst (λ (b : Bool). (if marked h x then 1 else (if b then 2 else 0)) ≤ weight h x)
          (sym (same_white i x r ((s.members i).0 x m))) (le (weight h x));
    fewer = le (total 20 5 v);
  }
    where
      le : (b : ℕ) → b ≤ b
      le b = omega arith

  pub with_mem-IsSnapshot : IsSnapshot h0 v0 (with_mem h m') v
  with_mem-IsSnapshot = record {
    valid = with_mem-IsHeap h v s.valid m' changes;
    table = record {
      pages = s.table.pages;
      first = s.table.first;
      last = s.table.last;
      size = s.table.size;
      index = s.table.index;
    };
    members = s.members;
    greens = s.greens;
    classes = λ i x r m.
        same_class h v s.valid m' changes i x r ((s.members i).0 x m) ∙ s.classes i x r m;
    marked_color = s.marked_color;
    unmarked_color = s.unmarked_color;
    barrier = s.barrier;
    vector_length = s.vector_length;
    first_static = s.first_static;
    static_frontier = s.static_frontier;
    contents = λ b q. elim (c b q.0) [
      | inl e ↦ elim (s.contents b q) [ inl k ↦ inl (e ∙ k) | inr k ↦ inr k ]
      | inr (_, k) ↦ inr k
    ];
    settled = s.settled;
    owned = s.owned;
  }

-- A store at an address at no header, over a word that is covered.
pub written :
    (h0 : Heap) (v0 : ℕ → View) (h : Heap) (v : ℕ → View) (a w : ℕ)
    → IsPayload v0 a
    → IsCovered h0 h v (h0.mem a)
    → (b : ℕ) → b % 8 ≡ 0
    → (write h.mem a w b ≡ h.mem b) ⊎ (IsPayload v0 b × IsCovered h0 h v (h0.mem b))
unfolding write
written h0 v0 h v a w p c b d = elim (Bool-cases (b == a)) [
  | inl e ↦
      inr (subst (λ y. IsPayload v0 y × IsCovered h0 h v (h0.mem y)) (sym (eq_of_== b a e)) (p, c))
  | inr e ↦ rw e (inl refl)
]
