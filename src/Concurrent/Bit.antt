-- ===== src/Concurrent/Bit.antt =====
-- The body of the inner loop of scan_write_vector in rtgc.c, while mutators store.
use rtgc.Common.{
  ℕ, ◌+◌, ◌-◌, ◌*◌, ◌/◌, ◌<◌, ◌≤◌, ◌≡◌, inl, inr, refl, sym, ap, ◌∙◌, true, false, not, ◌∈◌, ok,
  Returns, returns, Returns-bind, Returns-mono, if◌then◌else◌, Bool-cases, eq_of_==, arith,
}
use mathlib.Core.Path.{subst}
use rtgc.Common.Bits.{test_bit}
use rtgc.Common.Bits.Clear.{bit_and-test_bit}
use rtgc.Group.View.{View}
use rtgc.Group.Frame.{objects_of}
use rtgc.Heap.{Heap, Page, whitep, group_page, group_state, ptr_to_page_index}
use rtgc.Heap.Groups.{InRange}
use rtgc.Heap.Valid.{IsHeap}
use rtgc.Heap.Steps.{put_view, put_view_at}
use rtgc.Trace.{make_object_gray}
use rtgc.Trace.Words.{Traced, Traced-refl, white_of_color, to_gray, put_Traced}
use rtgc.WriteBarrier.{scan_bit, locked_long_and_not}
use rtgc.WriteBarrier.Marks.{marked}
use rtgc.Concurrent.Snapshot.{AreMarkable, place, IsSnapshot, Later, Later-refl, Later-trans}
use rtgc.Concurrent.Vector.{revector, cleared}
use rtgc.Concurrent.Load.{load, load-le, load-lt}
use rtgc.Concurrent.Scan.{Traced-Snapshot}
use rtgc.Concurrent.Clear.{marked_at, clear-Later, clear-IsSnapshot, clear-lighter}

-- Bits have been examined: the found marks are paid for by what is left to do.
pub record Examined (h0 : Heap) (v0 : ℕ → View) (h : Heap) (v : ℕ → View) (n : ℕ) (h' : Heap)
    (v' : ℕ → View) (n' : ℕ) : Type 0 where
  pub snapshot : IsSnapshot h0 v0 h' v'
  pub later : Later v0 h v h' v'
  pub count : n' + load 20 5 v0 h' ≤ n + load 20 5 v0 h
  pub more : n ≤ n'
  pub idle : n' ≡ n → v' ≡ v

module _ (h0 : Heap) (v0 : ℕ → View) where
  module _ (able : AreMarkable h0 v0) (h : Heap) (v : ℕ → View) (s : IsSnapshot h0 v0 h v) where
    page_now :
        (i x : ℕ)
        → (h0.pages (ptr_to_page_index h0 x)).group ≡ group_page i
        → (h.pages (ptr_to_page_index h x)).group ≡ group_page i
    unfolding ptr_to_page_index
    page_now i x p =
        ap (λ (q : ℕ → Page). (q ((x - h.first_partition_ptr) / 4096)).group) s.table.pages
        ∙ ap (λ (f : ℕ). (h0.pages ((x - f) / 4096)).group) s.table.first
        ∙ p

    not_white :
        (h1 : Heap) (v1 : ℕ → View) (i x : ℕ)
        → InRange i
        → x ∈ objects_of (v1 i)
        → IsHeap h1 v1
        → (x ∈ (v1 i).whites → ⊥)
        → whitep h1 x ≡ false
    not_white h1 v1 i x r m a f = elim (Bool-cases (whitep h1 x)) [
      | inl e ↦ absurd (
          f (
            white_of_color h1.marked_color h1.unmarked_color (group_state i h1) (v1 i) x a.colors
              (a.groups.group i r) m (eq_of_== _ _ e)))
      | inr e ↦ e
    ]

    -- The object is made gray if it is white.
    grayed :
        (i x : ℕ)
        → InRange i
        → x ∈ objects_of (v0 i)
        → (h0.pages (ptr_to_page_index h0 x)).group ≡ group_page i
        → Returns
            (λ h1. (v1 : (ℕ → View)) × Traced h v h1 v1 × (whitep h1 x ≡ false))
            (if whitep h x then make_object_gray x h else ok h)
    grayed i x r m p =
        let m' = (s.members i).0 x m in
        elim (Bool-cases (whitep h x)) [
          | inl e ↦
              let w =
                white_of_color h.marked_color h.unmarked_color (group_state i h) (v i) x
                  s.valid.colors (s.valid.groups.group i r) m' (eq_of_== _ _ e) in
              rw e (
                Returns-mono (to_gray h v s.valid i r x w (page_now i x p)) (λ h1 (u, k, g, f). (
                  put_view v i u,
                  put_Traced h v s.valid i r x h1 u k g,
                  not_white h1 (put_view v i u) i x r ((k.members i).0 x m') k.valid
                      (subst (λ (t : View). x ∈ t.whites → ⊥) (sym (put_view_at v i u)) f),
                )))
          | inr e ↦ rw e (returns (v, Traced-refl h v s.valid, e))
        ]

    clear-Examined :
        (index bit n i x : ℕ)
        → bit < 64
        → InRange i
        → x ∈ objects_of (v0 i)
        → x ≡ place h0 index bit
        → marked h x ≡ true
        → (h1 : Heap) (v1 : ℕ → View) → Traced h v h1 v1
        → whitep h1 x ≡ false
        → Examined h0 v0 h v n (revector h1 (cleared h1.write_vector index bit)) v1 (n + 1)
    clear-Examined index bit n i x l r m e set h1 v1 t w =
        let (s1, l1) = Traced-Snapshot h0 v0 h v h1 v1 s t in
        let h2 = revector h1 (cleared h1.write_vector index bit) in
        let l2 = clear-Later h0 v0 able h1 v1 s1 index bit l i x r m e w in
        let set1 : marked h1 x ≡ true =
          marked_at h0 v0 h1 v1 index bit x s1 l e
          ∙ ap (λ (u : ℕ → ℕ). test_bit (u index) bit) t.marks.keeps.write_vector
          ∙ sym (marked_at h0 v0 h v index bit x s l e)
          ∙ set in
        record {
          snapshot = clear-IsSnapshot h0 v0 able h1 v1 s1 index bit l i x r m e w;
          later = Later-trans v0 h v h1 v1 h2 v1 l1 l2;
          count =
              paid (load 20 5 v0 h2) (load 20 5 v0 h1) (load 20 5 v0 h)
                (load-lt h1 h2 v0 20 5 i x r.0 (omega (arith, r.1)) m
                  (clear-lighter h0 v0 able h1 v1 s1 index bit l i x r m e w set1)
                  (λ j y a b k. l2.lighter j y (a, omega arith) k))
                (load-le h h1 v0 20 5 (λ j y a b k. l1.lighter j y (a, omega arith) k));
          more = omega arith;
          idle = λ k. absurd (omega arith);
        }
      where
        paid : (a b c : ℕ) → a < b → b ≤ c → n + 1 + a ≤ n + c
        paid a b c p q = omega arith

    -- An examined bit is cleared if it was set, and is counted.
    pub scan_bit-Examined :
        (index bit n : ℕ)
        → index < h0.write_vector_length
        → bit < 64
        → Returns
            (λ r.
              (v' : (ℕ → View)) × Examined h0 v0 h v n r.0 v' r.1
              × (r.1 ≡ n → test_bit (h.write_vector index) bit ≡ false))
            (scan_bit index bit n h)
    unfolding scan_bit locked_long_and_not
    scan_bit-Examined index bit n a l = elim (Bool-cases (test_bit (h.write_vector index) bit)) [
      | inl e ↦
          let (i, r, m, p) = s.owned index bit a l e in
          let same : place h index bit ≡ place h0 index bit =
            ap (λ (f : ℕ). f + index * 32 * 64 + bit * 32) s.table.first in
          rw (bit_and-test_bit (h.write_vector index) bit ∙ ap not e, same)
            (Returns-bind (grayed i (place h0 index bit) r m p) (λ h1 (v1, t, w). returns (
              v1,
              clear-Examined index bit n i (place h0 index bit) l r m refl
                  (marked_at h0 v0 h v index bit (place h0 index bit) s l refl ∙ e) h1 v1 t w,
              λ k. absurd (omega arith),
            )))
      | inr e ↦ rw (bit_and-test_bit (h.write_vector index) bit ∙ ap not e) (
          returns (
            v,
            record {
              snapshot = s;
              later = Later-refl v0 h v;
              count = le (n + load 20 5 v0 h);
              more = omega arith;
              idle = λ k. refl;
            },
            λ k. e,
          ))
    ]
      where
        le : (a : ℕ) → a ≤ a
        le a = omega arith
