-- ===== src/Concurrent/Stores.antt =====
-- RTwrite_barrier of rtgc.c as a whole, and schedules of it, while the collector marks.
use rtgc.Common.{
  ℕ, ◌≡◌, inl, inr, refl, sym, ap, ◌∙◌, Bool, true, false, List, [], ◌∷◌, All, Option, none, some,
  Run, ok, ◌>>=◌, Returns, returns, Returns-bind, Returns-mono, if◌then◌else◌, Bool-cases, eq_of_==,
  ==-true,
}
use mathlib.Core.Path.{subst}
use rtgc.InfoBits.{Ptr}
use rtgc.Group.View.{View}
use rtgc.Heap.{Heap, group_state, whitep}
use rtgc.Heap.Target.{target, target-KeepsTable}
use rtgc.Heap.Valid.{IsHeap, IsPayload}
use rtgc.Trace.Words.{white_of_color, is_white}
use rtgc.WriteBarrier.{mark_write_vector, mark_overwritten, write_barrier}
use rtgc.WriteBarrier.Marks.{marked}
use rtgc.Concurrent.{Store, Shared, perform, interrupted, step}
use rtgc.Concurrent.Snapshot.{
  AreMarkable, IsCovered, IsCovered-Later, IsSnapshot, Later, Later-refl, Later-trans,
}
use rtgc.Concurrent.Mutators.{
  mark_target, mark_overwritten-eq, marked_now, mark-Later, mark-IsSnapshot,
}
use rtgc.Concurrent.Payload.{with_mem-Later, with_mem-IsSnapshot, written}

-- The stores are at the headers of no objects.
abbrev pub ArePolite : (ℕ → View) → List Store → Type 0
ArePolite v0 = All (λ s. IsPayload v0 s.lhs_address)

-- The snapshot is kept, and all stores to come are polite.
abbrev pub IsGoing : (h0 : Heap) → (v0 v : ℕ → View) → Shared → Type 0
IsGoing h0 v0 v s = IsSnapshot h0 v0 s.heap v × All (ArePolite v0) s.schedule

module _ (h0 : Heap) (v0 : ℕ → View) (valid0 : IsHeap h0 v0) (able : AreMarkable h0 v0) where
  abbrev Goes : (ℕ → View) → Heap → Heap → Type 0
  Goes v h h' = IsSnapshot h0 v0 h' v × Later v0 h v h' v

  -- After the marking part, the overwritten word is covered.
  abbrev Marked : (ℕ → View) → Heap → ℕ → Heap → Type 0
  Marked v h w h' = Goes v h h' × IsCovered h0 h' v w

  module _ (h : Heap) (v : ℕ → View) (s : IsSnapshot h0 v0 h v) where
    mark_target-Goes :
        (w : ℕ) (o : Option (ℕ × ℕ)) → target h0 w ≡ o → Marked v h w (mark_target h o)
    mark_target-Goes w none e =
        ((s, Later-refl v0 h v), λ i base r k m. absurd (none_ne_some (sym e ∙ k)))
      where
        none_ne_some : {x : ℕ × ℕ} → ◌≡◌ {A = Option (ℕ × ℕ)} none (some x) → ⊥
        none_ne_some e = cc
    mark_target-Goes w (some (i, base)) e =
        let t = valid0.targets w i base e in
        elim (Bool-cases (whitep h base)) [
          | inl white ↦
              let m =
                white_of_color h.marked_color h.unmarked_color (group_state i h) (v i) base
                  s.valid.colors (s.valid.groups.group i t.0) ((s.members i).0 base t.1)
                  (eq_of_== _ _ white) in
              rw white (
                (
                  mark-IsSnapshot h0 v0 able h v s i base t.0 m t.2 t.1,
                  mark-Later h0 v0 able h v s i base t.0 m t.2 t.1,
                ),
                λ j b r k n.
                    subst (λ y. marked (mark_write_vector base h) y ≡ true) (second (sym e ∙ k))
                      (marked_now h0 v0 able h v s i base t.0 m t.2 t.1 i base t.0 t.1
                        ∙ ap (λ (b : Bool). if b then true else marked h base)
                            (==-true base base refl)),
              )
          | inr other ↦ rw other (
            (s, Later-refl v0 h v),
            λ j b r k n.
                let q = sym e ∙ k in
                absurd (
                  true_ne_false (
                    sym (is_white h v s.valid j b r n)
                    ∙ ap (λ (y : ℕ). whitep h y) (sym (second q))
                    ∙ other)),
          )
        ]
      where
        true_ne_false : ◌≡◌ {A = Bool} true false → ⊥
        true_ne_false e = cc

        second : {x y : ℕ × ℕ} → ◌≡◌ {A = Option (ℕ × ℕ)} (some x) (some y) → x.1 ≡ y.1
        second e = cc

    goes_at : (w : ℕ) → Marked v h w (mark_target h (target h w))
    goes_at w = mark_target-Goes w (target h w) (sym (target-KeepsTable h0 h w s.table))

    pub overwritten-Goes :
        (a : Ptr)
        → IsPayload v0 a
        → Returns (λ h'. Marked v h (h0.mem a) h') (mark_overwritten (h.mem a) h)
    overwritten-Goes a p =
        let g = goes_at (h.mem a) in
        rw (mark_overwritten-eq h (h.mem a)) (
          returns (
            g.0,
            elim (s.contents a p) [
              | inl e ↦ subst (λ y. IsCovered h0 (mark_target h (target h (h.mem a))) v y) e g.1
              | inr c ↦ IsCovered-Later h0 v0 h v _ v (h0.mem a) g.0.1 c
            ],
          ))

    -- Where a heap is what marking keeps against the snapshot of a valid heap whose objects have
    -- bits of the write vector, RTwrite_barrier returns at every multiple of 8 that is not at the
    -- header of an object, whatever it stores, and the heap is so again: no word of the snapshot
    -- that has been overwritten or that a black object had points to a white object without a
    -- mark. The lists stay the same, and white objects keep their marks.
    pub write_barrier-IsSnapshot :
        (a w : Ptr)
        → IsPayload v0 a
        → Returns (λ h'. IsSnapshot h0 v0 h' v × Later v0 h v h' v) (write_barrier a w h)
    unfolding write_barrier
    write_barrier-IsSnapshot a w p =
        let e : (if h.enable_write_barrier then mark_overwritten (h.mem a) h else ok h)
            ≡ mark_overwritten (h.mem a) h =
          ap (λ (t : Bool). if t then mark_overwritten (h.mem a) h else ok h) s.barrier in
        rw e (
          Returns-bind (overwritten-Goes a p) (λ h1 (g, c). returns (
            with_mem-IsSnapshot h0 v0 h1 v g.0 _ (written h0 v0 h1 v a w p c),
            Later-trans v0 h v h1 v _ v g.1
                (with_mem-Later h0 v0 h1 v g.0 _ (written h0 v0 h1 v a w p c)),
          )))

  perform-Goes :
      (ss : List Store) (h : Heap) (v : ℕ → View)
      → IsSnapshot h0 v0 h v
      → ArePolite v0 ss
      → Returns (λ h'. Goes v h h') (perform ss h)
  unfolding perform
  perform-Goes [] h v s p = returns (s, Later-refl v0 h v)
  perform-Goes (t ∷ ts) h v s p =
      Returns-bind (write_barrier-IsSnapshot h v s t.lhs_address t.rhs p.0) (λ h1 (s1, l1).
        Returns-mono (perform-Goes ts h1 v s1 p.1)
          (λ h2 (s2, l2). (s2, Later-trans v0 h v h1 v h2 v l1 l2)))

  pub interrupted-IsGoing :
      (s : Shared) (v : ℕ → View)
      → IsGoing h0 v0 v s
      → Returns (λ s'. IsGoing h0 v0 v s' × Later v0 s.heap v s'.heap v) (interrupted s)
  unfolding interrupted
  interrupted-IsGoing s v g = by_schedule s.schedule refl
    where
      by_schedule :
          (l : List (List Store))
          → s.schedule ≡ l
          → Returns
              (λ s'. IsGoing h0 v0 v s' × Later v0 s.heap v s'.heap v)
              (elim l [
                | [] ↦ ok s
                | batch ∷ rest ↦
                    perform batch s.heap >>= λ h. ok (record { heap = h; schedule = rest })
              ])
      by_schedule [] e = returns (g, Later-refl v0 s.heap v)
      by_schedule (batch ∷ rest) e =
          let p : All (ArePolite v0) (batch ∷ rest) = subst (λ t. All (ArePolite v0) t) e g.1 in
          Returns-bind (perform-Goes batch s.heap v g.0 p.0) (λ h (k, l). returns ((k, p.1), l))

  -- The rule for a step of the collector.
  pub step-IsGoing :
      (f : Heap → Run Heap) (s : Shared) (v : ℕ → View) (R : Heap → (ℕ → View) → Type 0)
      → IsGoing h0 v0 v s
      → ((h : Heap)
          → IsSnapshot h0 v0 h v
          → Later v0 s.heap v h v
          → Returns
              (λ h'. (v' : (ℕ → View)) × IsSnapshot h0 v0 h' v' × Later v0 h v h' v' × R h' v')
              (f h))
      → Returns
          (λ s'.
            (v' : (ℕ → View)) × IsGoing h0 v0 v' s' × Later v0 s.heap v s'.heap v' × R s'.heap v')
          (step f s)
  unfolding step
  step-IsGoing f s v R g k = Returns-bind (interrupted-IsGoing s v g) (λ s1 (g1, l1).
      Returns-bind (k s1.heap g1.0 l1) (λ h (v', s2, l2, r).
        returns (v', (s2, g1.1), Later-trans v0 s.heap v s1.heap v h v' l1 l2, r)))
