-- ===== src/Collect/Cycle.antt =====
-- The part of full_gc of rtgc.c from the scan of the roots to recycling, in a whole heap.
use rtgc.Common.{
  ℕ, zero, suc, ◌+◌, ◌≤◌, ◌<◌, ◌≡◌, ◌⊎◌, inl, inr, refl, sym, ap, ◌∙◌, ◌∈◌, false, [], length,
  ◌>>=◌, Returns, returns, Returns-bind, Returns-mono, mem-append, mem-append_left,
  mem-append_right, SameMembers, SameMembers-trans, arith,
}
use mathlib.Core.Path.{subst}
use rtgc.Group.View.{View}
use rtgc.Group.Frame.{objects_of}
use rtgc.Heap.{Heap}
use rtgc.Heap.Groups.{InRange, AreGroups, uniform, uniform_recolored}
use rtgc.Heap.Valid.{IsHeap}
use rtgc.Trace.Segments.{Darker, Darker-trans, Traced-Darker, IsScanner, IsShaded-later}
use rtgc.Trace.Total.{total, total_same, pending_one_at}
use rtgc.Trace.Blacken.{IsTricolor, IsTricolor-later}
use rtgc.Trace.Finish.{IsMarked, scan_gray_set-IsMarked}
use rtgc.Trace.Reach.{IsReachable, IsReachable-later, reachable-IsRetained}
use rtgc.WriteBarrier.Idle.{HasNoMarks, scan_write_vector-eq-ok}
use rtgc.Collect.{Roots, scan_root_set, mark, recycle_groups}
use rtgc.Collect.Groups.{recycled_view, recycle_groups-AreGroups}
use rtgc.Collect.RootWords.{IsRoot}
use rtgc.Collect.RootSet.{AreRoots, scan_root_set-IsShaded}

pub recycled_members :
    (v : View) → v.grays ≡ [] → SameMembers (objects_of v) (objects_of (recycled_view v))
recycled_members v none = (
  λ a m. elim (mem-append a v.whites _ m) [
    | inl k ↦ mem-append_right a v.blacks _ (mem-append_right a v.greens v.whites k)
    | inr k ↦ elim (mem-append a v.grays _ k) [
      | inl b ↦ absurd (subst (λ l. a ∈ l) none b)
      | inr b ↦ elim (mem-append a v.blacks v.greens b) [
        | inl f ↦ mem-append_left a v.blacks _ f
        | inr f ↦ mem-append_right a v.blacks _ (mem-append_left a v.greens v.whites f)
      ]
    ]
  ],
  λ a m. elim (mem-append a v.blacks _ m) [
    | inl k ↦
        mem-append_right a v.whites _
          (mem-append_right a v.grays _ (mem-append_left a v.blacks v.greens k))
    | inr k ↦ elim (mem-append a v.greens v.whites k) [
      | inl b ↦
          mem-append_right a v.whites _
            (mem-append_right a v.grays _ (mem-append_right a v.blacks v.greens b))
      | inr b ↦ mem-append_left a v.whites _ b
    ]
  ],
)

module _ (r : Roots) (fuel : ℕ) (cs : IsScanner r.custom_scanner) where
  -- With no marks of the write barrier, one round of the loop is enough.
  mark-IsMarked :
      (rounds : ℕ) (h : Heap) (v : ℕ → View)
      → IsHeap h v
      → IsTricolor h v
      → HasNoMarks h
      → total 20 5 v < fuel
      → 0 < rounds
      → Returns
          (λ h'.
            (v' : (ℕ → View)) × Darker h v h' v' × IsMarked h' v' × (total 20 5 v' ≤ total 20 5 v))
          (mark r fuel rounds h)
  unfolding mark
  mark-IsMarked zero h v valid c none l u = absurd (omega arith)
  mark-IsMarked (suc k) h v valid c none l u =
      Returns-bind
        (Returns-bind (scan_gray_set-IsMarked r.custom_scanner fuel cs h v valid c l)
          (λ h1 (v1, d, m, t).
            let k = d.marks.keeps in
            let e = scan_write_vector-eq-ok h1 (λ j b.
              ap (λ (f : ℕ → ℕ). f j) k.write_vector
              ∙ none j (subst (λ n. j < n) k.write_vector_length b)) in
            subst
              (λ z.
                Returns
                  (λ q.
                    (q.1 ≡ 0)
                    × ((v' : (ℕ → View)) × Darker h v q.0 v'
                        × IsMarked q.0 v'
                        × (total 20 5 v' ≤ total 20 5 v)))
                  z)
              (sym e) (returns (refl, (v1, d, m, t)))))
        (λ q (e, f). rw e (returns f))

  -- What a cycle retains, with the heap that it begins with.
  abbrev Retains : Heap → (ℕ → View) → (ℕ → View) → Type 0
  Retains h v v' =
      (i x : ℕ) → IsReachable h v (IsRoot r h.mem) i x → (x ∈ (v' i).blacks) ⊎ (x ∈ (v i).greens)

  roots_and_mark :
      (h : Heap) (v : ℕ → View)
      → IsHeap h v
      → IsTricolor h v
      → AreRoots r v
      → h.static_frontier_ptr ≡ h.first_static_ptr
      → HasNoMarks h
      → total 20 5 v < fuel
      → Returns
          (λ h'.
            (v' : (ℕ → View)) × Darker h v h' v'
            × IsMarked h' v'
            × (total 20 5 v' ≤ total 20 5 v)
            × Retains h v v')
          (scan_root_set r fuel h >>= mark r fuel fuel)
  roots_and_mark h v valid c roots e none l =
      Returns-bind (scan_root_set-IsShaded r fuel h v valid roots e (omega arith)) (λ h1 (v1, t, s).
        let k = t.marks.keeps in
        let same = total_same 20 5 v v1 (λ j b. (t.grays j).pending) in
        Returns-mono
          (mark-IsMarked fuel h1 v1 t.marks.valid (IsTricolor-later h v h1 v1 valid t c)
            (λ j b.
              ap (λ (f : ℕ → ℕ). f j) k.write_vector
              ∙ none j (subst (λ n. j < n) k.write_vector_length b))
            (rw same l) (omega arith))
          (λ h2 (v2, d, m, u).
            let d02 = Darker-trans h v h1 v1 h2 v2 (Traced-Darker h v h1 v1 t) d in
            (
              v2,
              d02,
              m,
              subst (λ n. total 20 5 v2 ≤ n) same u,
              λ i x q.
                  subst (λ l. (x ∈ (v2 i).blacks) ⊎ (x ∈ l)) (d02.greens i)
                    (reachable-IsRetained h2 v2 (IsRoot r h.mem) m
                      (λ w b. IsShaded-later h1 v1 h2 v2 w d (s w b)) i x
                      (IsReachable-later h v (IsRoot r h.mem) h2 v2 i x valid d02 q)),
            )))

  -- In a valid heap with no static object and no mark of the write barrier, where no black object
  -- points to a white one, the scan of the roots, marking and then recycling return, with more
  -- fuel than there are white and gray objects, where the roots are words at multiples of 8 that
  -- are not at the headers of objects and the client's scanners are set and only trace: every
  -- group represents lists with the same objects, all black or free, and every object that can be
  -- reached from the roots, over allocated objects with pointers, is black, if it was not free
  -- before.
  pub collect-retains :
      (h : Heap) (v : ℕ → View)
      → IsHeap h v
      → IsTricolor h v
      → AreRoots r v
      → h.static_frontier_ptr ≡ h.first_static_ptr
      → HasNoMarks h
      → total 20 5 v < fuel
      → Returns
          (λ h'.
            (v' : (ℕ → View)) × AreGroups h' (uniform h.marked_color h.unmarked_color v')
            × ((i : ℕ) → InRange i → SameMembers (objects_of (v i)) (objects_of (v' i)))
            × ((i : ℕ) → ((v' i).whites ≡ []) × ((v' i).grays ≡ []))
            × ((i x : ℕ)
                → IsReachable h v (IsRoot r h.mem) i x
                → (x ∈ (v' i).blacks) ⊎ (x ∈ (v i).greens)))
          (scan_root_set r fuel h >>= mark r fuel fuel >>= λ h2.
            recycle_groups r fuel 20 5 (record h2 { enable_write_barrier = false }))
  collect-retains h v valid c roots e none l =
      Returns-bind (roots_and_mark h v valid c roots e none l) (λ h2 (v2, d, m, t, keep).
        let k = d.marks.keeps in
        let swept : Heap = record h2 { enable_write_barrier = false } in
        let groups : AreGroups swept (uniform swept.marked_color swept.unmarked_color v2) = record {
          group = m.valid.groups.group;
          apart = m.valid.groups.apart;
        } in
        Returns-mono
          (recycle_groups-AreGroups r fuel swept v2 groups m.no_grays (λ i q.
            few (length (v2 i).whites) (length (v2 i).grays) (total 20 5 v2) (total 20 5 v)
              (pending_one_at 20 5 i v2 q.0 (omega (arith, q.1))) t l))
          (λ h3 (a, b). (
            λ i. recycled_view (v2 i),
            uniform_recolored h3 h2.marked_color h2.unmarked_color h.marked_color h.unmarked_color
                (λ i. recycled_view (v2 i)) (sym k.marked_color) (sym k.unmarked_color) a,
            λ i q.
                SameMembers-trans (objects_of (v i)) (objects_of (v2 i)) _ (d.marks.members i)
                  (recycled_members (v2 i) (m.no_grays i q)),
            λ i. (refl, refl),
            keep,
          )))
    where
      few : (a b n k : ℕ) → a + b ≤ n → n ≤ k → k < fuel → a < fuel
      few a b n k p q u = omega arith
