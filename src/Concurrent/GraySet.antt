-- ===== src/Concurrent/GraySet.antt =====
-- scan_gray_set of rtgc.c while mutators store.
use rtgc.Common.{
  ℕ, ◌+◌, ◌≤◌, ◌≡◌, inl, inr, refl, sym, ap, ◌∙◌, List, [], ◌∷◌, ◌++◌, last_or, append_assoc, Run,
  ok, Returns, Returns-bind, Returns-mono, mem-append_right, arith,
}
use rtgc.InfoBits.{Ptr, prev_link}
use rtgc.Group.{blacken}
use rtgc.Group.View.{View}
use rtgc.Heap.{Heap, on_group}
use rtgc.Heap.Groups.{InRange}
use rtgc.Heap.Valid.{IsHeap}
use rtgc.Heap.Steps.{put_view, put_view_at}
use rtgc.Trace.Segments.{IsScanner}
use rtgc.Trace.Total.{total}
use rtgc.Trace.Blacken.{
  is_gray, blackened, blacken-Marks, blacken-Darker, blacken-prev, was_black, blackened-total,
}
use rtgc.Concurrent.{Shared, scan_object_with_group}
use rtgc.Concurrent.Snapshot.{
  AreMarkable, IsCovered-Later, IsSnapshot, Later, Later-trans, Darker-Later, Darker-IsSnapshot,
}
use rtgc.Concurrent.Stores.{IsGoing, step-IsGoing}
use rtgc.Concurrent.Scan.{IsSettled, scan_object-Scans}

module _ (h0 : Heap) (v0 : ℕ → View) (valid0 : IsHeap h0 v0) (able : AreMarkable h0 v0) where
  -- One gray object less is left.
  abbrev pub Blackens : ℕ → (ℕ → View) → Ptr → Heap → (ℕ → View) → Type 0
  Blackens i v x h' v' =
      (prev_link h'.mem x ≡ last_or 0 (v' i).grays) × (total 20 5 v' + 1 ≡ total 20 5 v)

  -- The last gray object of a group turns black; all of its words in the snapshot are covered.
  blacken-Blackens :
      (h : Heap) (v v1 : ℕ → View) (i : ℕ) (gs : List Ptr) (x : Ptr)
      → InRange i
      → IsSnapshot h0 v0 h v1
      → IsSettled h0 v0 valid0 able i x h v1
      → (v1 i).grays ≡ gs ++ x ∷ []
      → total 20 5 (put_view v1 i (blackened (v1 i) gs x)) + 1 ≡ total 20 5 v
      → total 20 5 (put_view v1 i (blackened (v1 i) gs x)) ≤ total 20 5 v1
      → Returns
          (λ h'.
            (v' : (ℕ → View)) × IsSnapshot h0 v0 h' v' × Later v0 h v1 h' v' × Blackens i v x h' v')
          (on_group i (λ g. ok (blacken h.marked_color x g)) h)
  blacken-Blackens h v v1 i gs x r k c e t l =
      Returns-mono (blacken-Marks h v1 i gs x r k.valid e) (λ h' m.
        let v' = put_view v1 i (blackened (v1 i) gs x) in
        let d = blacken-Darker h v1 i gs x h' m in
        (
          v',
          Darker-IsSnapshot h0 v0 h v1 k h' v' d l (λ j y q n.
              elim (was_black h v1 i gs x h' m j y n) [
                | inl (a, b) ↦ inr (rw (a, b) c)
                | inr b ↦ inl b
              ]),
          Darker-Later h0 v0 h v1 k h' v' d l,
          (
            blacken-prev h v1 i gs x h' m r
                ∙ ap (λ (u : View). last_or 0 u.grays) (sym (put_view_at v1 i _)),
            t,
          ),
        ))

  module _ (custom_scanner : (low high : Ptr) → Heap → Run Heap) (fuel : ℕ)
      (cs : IsScanner custom_scanner) where
    pub scan_object_with_group-Blackens :
        (s : Shared) (v : ℕ → View) (i : ℕ) (gs : List Ptr) (x : Ptr)
        → InRange i
        → IsGoing h0 v0 v s
        → (v i).grays ≡ gs ++ x ∷ []
        → Returns
            (λ s'.
              (v' : (ℕ → View)) × IsGoing h0 v0 v' s'
              × Later v0 s.heap v s'.heap v'
              × Blackens i v x s'.heap v')
            (scan_object_with_group custom_scanner fuel x i s)
    unfolding scan_object_with_group
    scan_object_with_group-Blackens s v i gs x r g e =
        let m0 =
          (g.0.members i).1 x
            (is_gray (v i) x (rw e (mem-append_right x gs (x ∷ []) (inl refl)))) in
        Returns-bind (scan_object-Scans h0 v0 valid0 able i r x m0 s v g custom_scanner fuel cs)
          (λ s1 (v1, g1, l1, t, c).
            let new = (t i).new in
            let e1 =
              (t i).grays
              ∙ ap (λ (l : List Ptr). new ++ l) e
              ∙ sym (append_assoc new gs (x ∷ [])) in
            let n = blackened-total v v1 i (new ++ gs) x r (λ j. (t j).pending) e1 in
            let n1 = blackened-total v1 v1 i (new ++ gs) x r (λ j. refl) e1 in
            Returns-mono
              (step-IsGoing h0 v0 valid0 able
                (λ h. on_group i (λ g. ok (blacken h.marked_color x g)) h) s1 v1 (Blackens i v x) g1
                (λ h k o.
                  blacken-Blackens h v v1 i (new ++ gs) x r k
                    (λ a j b. IsCovered-Later h0 v0 s1.heap v1 h v1 _ o (c a j b)) e1 n
                    (under (total 20 5 (put_view v1 i (blackened (v1 i) (new ++ gs) x)))
                      (total 20 5 v1) n1)))
              (λ s2 (v2, g2, l2, b).
                (v2, g2, Later-trans v0 s.heap v s1.heap v1 s2.heap v2 l1 l2, b)))
      where
        under : (a b : ℕ) → a + 1 ≡ b → a ≤ b
        under a b e = omega arith
