-- ===== src/Concurrent/Snapshot.antt =====
-- The heap while rtgc.c marks and mutators store, against the heap in which marking began.
use rtgc.Common.{
  ℕ, ◌+◌, ◌-◌, ◌*◌, ◌/◌, ◌%◌, ◌≤◌, ◌<◌, ◌≡◌, ◌⊎◌, inl, inr, refl, sym, ap, ◌∙◌, Bool, true, false,
  ◌∈◌, some, SameMembers, if◌then◌else◌, eq_of_==, arith,
}
use mathlib.Core.Path.{subst}
use rtgc.Common.Bits.{test_bit}
use rtgc.InfoBits.{Ptr, get_storage_class, sc_pointers}
use rtgc.Group.View.{View}
use rtgc.Group.Frame.{objects_of}
use rtgc.Heap.{Heap, whitep, group_page, group_state, ptr_to_page_index}
use rtgc.Heap.Groups.{
  InRange, KeepsTable, KeepsTable-trans, KeepsShape-KeepsTable, KeepsHeap-KeepsShape,
}
use rtgc.Heap.Target.{target}
use rtgc.Heap.Valid.{IsHeap, IsPayload, IsPayload-members}
use rtgc.Trace.Words.{white_of_color, is_white}
use rtgc.Trace.Segments.{Darker, word_count, object-Aligned}
use rtgc.Trace.Total.{total}
use rtgc.WriteBarrier.Marks.{marked}

-- The objects stand at multiples of 32 bytes from the start of the partition, and the write vector
-- has bits for all of them.
abbrev pub AreMarkable : Heap → (ℕ → View) → Type 0
AreMarkable h v =
    (i x : ℕ)
    → InRange i
    → x ∈ objects_of (v i)
    → (h.first_partition_ptr ≤ x)
      × ((x - h.first_partition_ptr) % 32 ≡ 0)
      × ((x - h.first_partition_ptr) / 2048 < h.write_vector_length)

-- If the word points to a white object, that has a mark.
abbrev pub IsCovered : (h0 : Heap) → Heap → (ℕ → View) → ℕ → Type 0
IsCovered h0 h v w =
    (i base : ℕ)
    → InRange i
    → target h0 w ≡ some (i, base)
    → base ∈ (v i).whites
    → marked h base ≡ true

-- What a bit of the write vector is the mark of.
abbrev pub place : Heap → (index bit : ℕ) → Ptr
place h index bit = h.first_partition_ptr + index * 32 * 64 + bit * 32

abbrev pub IsObject : Heap → (ℕ → View) → Ptr → Type 0
IsObject h v x =
    (i : ℕ) × InRange i
    × (x ∈ objects_of (v i))
    × ((h.pages (ptr_to_page_index h x)).group ≡ group_page i)

-- Every word of the snapshot that has been overwritten, or that a black object had, points to no
-- white object that has no mark.
pub record IsSnapshot (h0 : Heap) (v0 : ℕ → View) (h : Heap) (v : ℕ → View) : Type 0 where
  pub valid : IsHeap h v
  pub table : KeepsTable h0 h
  pub members : (i : ℕ) → SameMembers (objects_of (v0 i)) (objects_of (v i))
  pub greens : (i : ℕ) → (v i).greens ≡ (v0 i).greens
  pub classes :
      (i x : ℕ)
      → InRange i
      → x ∈ objects_of (v0 i)
      → get_storage_class h.mem x ≡ get_storage_class h0.mem x
  pub marked_color : h.marked_color ≡ h0.marked_color
  pub unmarked_color : h.unmarked_color ≡ h0.unmarked_color
  pub barrier : h.enable_write_barrier ≡ true
  pub vector_length : h.write_vector_length ≡ h0.write_vector_length
  pub first_static : h.first_static_ptr ≡ h0.first_static_ptr
  pub static_frontier : h.static_frontier_ptr ≡ h0.static_frontier_ptr
  pub contents : (a : ℕ) → IsPayload v0 a → (h.mem a ≡ h0.mem a) ⊎ IsCovered h0 h v (h0.mem a)
  pub settled :
      (i x k : ℕ)
      → InRange i
      → x ∈ (v i).blacks
      → get_storage_class h0.mem x ≡ sc_pointers
      → k < word_count ((h0.groups i).size)
      → IsCovered h0 h v (h0.mem (x + 16 + 8 * k))
  pub owned :
      (index bit : ℕ)
      → index < h0.write_vector_length
      → bit < 64
      → test_bit (h.write_vector index) bit ≡ true
      → IsObject h0 v0 (place h0 index bit)

-- What is left to do for an object: a white object may get a mark, and a mark is cleared.
abbrev pub weight : Heap → Ptr → ℕ
weight h x = if marked h x then 1 else (if whitep h x then 2 else 0)

-- Marking has gone on: objects are white no more, and the marks of white objects are still set.
pub record Later (v0 : ℕ → View) (h : Heap) (v : ℕ → View) (h' : Heap) (v' : ℕ → View)
    : Type 0 where
  pub whites : (i a : ℕ) → a ∈ (v' i).whites → a ∈ (v i).whites
  pub marks : (i x : ℕ) → InRange i → x ∈ (v' i).whites → marked h x ≡ true → marked h' x ≡ true
  pub lighter : (i x : ℕ) → InRange i → x ∈ objects_of (v0 i) → weight h' x ≤ weight h x
  pub fewer : total 20 5 v' ≤ total 20 5 v

pub Later-refl : (v0 : ℕ → View) (h : Heap) (v : ℕ → View) → Later v0 h v h v
Later-refl v0 h v = record {
  whites = λ i a m. m;
  marks = λ i x r m e. e;
  lighter = λ i x r m. same (weight h x);
  fewer = same (total 20 5 v);
}
  where
    same : (a : ℕ) → a ≤ a
    same a = omega arith

pub le_trans : (a b c : ℕ) → a ≤ b → b ≤ c → a ≤ c
le_trans a b c p q = omega arith

pub Later-trans :
    (v0 : ℕ → View) (h : Heap) (v : ℕ → View) (h1 : Heap) (v1 : ℕ → View) (h2 : Heap)
    (v2 : ℕ → View)
    → Later v0 h v h1 v1
    → Later v0 h1 v1 h2 v2
    → Later v0 h v h2 v2
Later-trans v0 h v h1 v1 h2 v2 l k = record {
  whites = λ i a m. l.whites i a (k.whites i a m);
  marks = λ i x r m e. k.marks i x r m (l.marks i x r (k.whites i x m) e);
  lighter = λ i x r m.
      le_trans (weight h2 x) (weight h1 x) (weight h x) (k.lighter i x r m) (l.lighter i x r m);
  fewer = le_trans (total 20 5 v2) (total 20 5 v1) (total 20 5 v) k.fewer l.fewer;
}

pub IsCovered-Later :
    (h0 : Heap) (v0 : ℕ → View) (h : Heap) (v : ℕ → View) (h' : Heap) (v' : ℕ → View) (w : ℕ)
    → Later v0 h v h' v'
    → IsCovered h0 h v w
    → IsCovered h0 h' v' w
IsCovered-Later h0 v0 h v h' v' w l c i base r e m =
    l.marks i base r m (c i base r e (l.whites i base m))

weight-le :
    (m w w' : Bool)
    → (w' ≡ true → w ≡ true)
    → (if m then 1 else (if w' then 2 else 0)) ≤ (if m then 1 else (if w then 2 else 0))
weight-le true w w' f = omega arith
weight-le false true true f = omega arith
weight-le false true false f = omega arith
weight-le false false true f = absurd (false_ne_true (f refl))
  where
    false_ne_true : ◌≡◌ {A = Bool} false true → ⊥
    false_ne_true e = cc
weight-le false false false f = omega arith

-- Steps of the collector, which change no payload.
module _ (h0 : Heap) (v0 : ℕ → View) (h : Heap) (v : ℕ → View) (s : IsSnapshot h0 v0 h v)
    (h' : Heap) (v' : ℕ → View) (d : Darker h v h' v') (t : total 20 5 v' ≤ total 20 5 v) where
  IsPayload-now : (a : ℕ) → IsPayload v0 a → IsPayload v a
  IsPayload-now = IsPayload-members v0 v (λ j r. s.members j)

  same_marks : (x : Ptr) → marked h' x ≡ marked h x
  same_marks x =
      let k = d.marks.keeps in
      ap
        (λ (u : ℕ → ℕ).
          test_bit (u ((x - h'.first_partition_ptr) / 2048))
            ((x - h'.first_partition_ptr) % 2048 / 32))
        k.write_vector
      ∙ ap (λ (f : ℕ). test_bit (h.write_vector ((x - f) / 2048)) ((x - f) % 2048 / 32)) k.first

  still_white :
      (i x : ℕ) → InRange i → x ∈ objects_of (v0 i) → whitep h' x ≡ true → whitep h x ≡ true
  still_white i x r m e =
      let g = d.marks.valid in
      let m' = (d.marks.members i).0 x ((s.members i).0 x m) in
      is_white h v s.valid i x r (
        d.whites i x (
          white_of_color h'.marked_color h'.unmarked_color (group_state i h') (v' i) x g.colors
            (g.groups.group i r) m' (eq_of_== _ _ e)))

  pub Darker-Later : Later v0 h v h' v'
  Darker-Later = record {
    whites = d.whites;
    marks = λ i x r m e. same_marks x ∙ e;
    lighter = λ i x r m.
        subst (λ b. (if b then 1 else (if whitep h' x then 2 else 0)) ≤ weight h x)
          (sym (same_marks x))
          (weight-le (marked h x) (whitep h x) (whitep h' x) (still_white i x r m));
    fewer = t;
  }

  covered : (w : ℕ) → IsCovered h0 h v w → IsCovered h0 h' v' w
  covered w = IsCovered-Later h0 v0 h v h' v' w Darker-Later

  -- The black objects that are new are to be settled.
  pub Darker-IsSnapshot :
      ((i x : ℕ)
        → InRange i
        → x ∈ (v' i).blacks
        → (x ∈ (v i).blacks)
          ⊎ (get_storage_class h0.mem x ≡ sc_pointers
              → (k : ℕ) → k < word_count ((h0.groups i).size)
              → IsCovered h0 h v (h0.mem (x + 16 + 8 * k))))
      → IsSnapshot h0 v0 h' v'
  Darker-IsSnapshot new =
      let k = d.marks.keeps in
      record {
        valid = d.marks.valid;
        table = KeepsTable-trans s.table (KeepsShape-KeepsTable (KeepsHeap-KeepsShape k));
        members = λ i. (
          λ a m. (d.marks.members i).0 a ((s.members i).0 a m),
          λ a m. (s.members i).1 a ((d.marks.members i).1 a m),
        );
        greens = λ i. d.greens i ∙ s.greens i;
        classes = λ i x r m.
            k.classes x (object-Aligned h v s.valid i r x ((s.members i).0 x m))
            ∙ s.classes i x r m;
        marked_color = k.marked_color ∙ s.marked_color;
        unmarked_color = k.unmarked_color ∙ s.unmarked_color;
        barrier = k.barrier ∙ s.barrier;
        vector_length = k.write_vector_length ∙ s.vector_length;
        first_static = k.first_static ∙ s.first_static;
        static_frontier = k.static_frontier ∙ s.static_frontier;
        contents = λ a p. elim (s.contents a p) [
          | inl e ↦ inl (d.marks.contents a (IsPayload-now a p) ∙ e)
          | inr c ↦ inr (covered (h0.mem a) c)
        ];
        settled = λ i x n r m c l.
            covered (h0.mem (x + 16 + 8 * n))
              (elim (new i x r m) [ inl b ↦ s.settled i x n r b c l | inr f ↦ f c n l ]);
        owned = λ index bit l u e.
            s.owned index bit l u
              (ap (λ (f : ℕ → ℕ). test_bit (f index) bit) (sym k.write_vector) ∙ e);
      }
