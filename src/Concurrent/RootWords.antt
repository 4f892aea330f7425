-- ===== src/Concurrent/RootWords.antt =====
-- The scans of the words that are roots in rtgc.c while mutators store.
use rtgc.Common.{
  ℕ, ◌+◌, ◌*◌, ◌≡◌, ◌≢◌, ◌⊎◌, inl, inr, sym, ◌∙◌, List, [], ◌∷◌, All, ok, Returns, returns,
  Returns-bind, Returns-mono, ◌==◌, if◌then◌else◌, Bool-cases, eq_of_==,
}
use mathlib.Core.Path.{subst}
use rtgc.InfoBits.{Ptr}
use rtgc.Group.View.{View}
use rtgc.Heap.{Heap}
use rtgc.Heap.Target.{target-KeepsTable}
use rtgc.Heap.Valid.{IsHeap, IsPayload, Grays, Grays-refl, Grays-trans}
use rtgc.Trace.{trace_pointer}
use rtgc.Trace.Words.{trace_pointer-Traced}
use rtgc.Trace.Segments.{ArePayload}
use rtgc.Collect.{ThreadState, Roots}
use rtgc.Collect.RootWords.{
  InSegment, InThreads, InGlobals, ThreadsPayload, words_of, stack_low, stack_high,
}
use rtgc.Concurrent.{Shared, step, scan_memory_segment}
use rtgc.Concurrent.Snapshot.{AreMarkable, IsCovered, IsCovered-Later, Later-refl, Later-trans}
use rtgc.Concurrent.Stores.{IsGoing, step-IsGoing}
use rtgc.Concurrent.Scan.{Scans, Traced-Snapshot, trace_word-Scans, scan_words-Scans}
use rtgc.Concurrent.Roots.{
  scan_saved_thread_state, scan_saved_threads, scan_threads, scan_global_roots,
}

module _ (h0 : Heap) (v0 : ℕ → View) where
  -- Tracing after which all words of `P` are covered.
  abbrev pub Covers : (ℕ → View) → Shared → (ℕ → Type 0) → Shared → Type 0
  Covers v s P = Scans h0 v0 v s (λ h' v'. (w : ℕ) → P w → IsCovered h0 h' v' w)

  pub Covers-trans :
      (s : Shared) (v : ℕ → View) (P Q R : ℕ → Type 0) (s1 : Shared) (s2 : Shared)
      → ((w : ℕ) → R w → P w ⊎ Q w)
      → (c : Covers v s P s1) → Covers c.0 s1 Q s2
      → Covers v s R s2
  Covers-trans s v P Q R s1 s2 split (v1, g1, l1, t1, c1) (v2, g2, l2, t2, c2) = (
    v2,
    g2,
    Later-trans v0 s.heap v s1.heap v1 s2.heap v2 l1 l2,
    λ i. Grays-trans (t1 i) (t2 i),
    λ w r. elim (split w r) [
      | inl p ↦ IsCovered-Later h0 v0 s1.heap v1 s2.heap v2 w l2 (c1 w p)
      | inr q ↦ c2 w q
    ],
  )

  pub Covers-none :
      (s : Shared) (v : ℕ → View) (P : ℕ → Type 0)
      → IsGoing h0 v0 v s
      → ((w : ℕ) → P w → ⊥)
      → Covers v s P s
  Covers-none s v P g f =
      (v, g, Later-refl v0 s.heap v, λ i. Grays-refl (v i), λ w p. absurd (f w p))

  module _ (valid0 : IsHeap h0 v0) (able : AreMarkable h0 v0) where
    segment-Covers :
        (low high : Ptr) (s : Shared) (v : ℕ → View)
        → IsGoing h0 v0 v s
        → ArePayload v0 low (words_of low high)
        → Returns (Covers v s (InSegment h0.mem low high)) (scan_memory_segment low high s)
    unfolding scan_memory_segment
    segment-Covers low high s v g p =
        Returns-mono (scan_words-Scans h0 v0 valid0 able (words_of low high) low s v g p)
          (λ s' (v', g', l, t, c).
            (v', g', l, t, λ w (j, b, e). subst (λ u. IsCovered h0 s'.heap v' u) (sym e) (c j b)))

    threads-Covers :
        (ts : List ThreadState) (s : Shared) (v : ℕ → View)
        → IsGoing h0 v0 v s
        → ThreadsPayload v0 ts
        → Returns (Covers v s (InThreads h0.mem ts)) (scan_saved_threads ts s)
    unfolding scan_saved_threads scan_saved_thread_state
    threads-Covers [] s v g p = returns (Covers-none s v _ g (λ w k. k))
    threads-Covers (t ∷ ts) s v g p =
        let Registers = InSegment h0.mem t.registers (t.registers + 23 * 8) in
        let Stack = InSegment h0.mem (stack_low t) (stack_high t) in
        Returns-bind {P = Covers v s (λ w. Registers w ⊎ Stack w)}
          (Returns-bind (segment-Covers t.registers (t.registers + 23 * 8) s v g p.0) (λ s1 c1.
            Returns-mono (segment-Covers (stack_low t) (stack_high t) s1 c1.0 c1.1 p.1)
              (λ s2 c2. Covers-trans s v Registers Stack _ s1 s2 (λ w k. k) c1 c2)))
          (λ s2 c2. Returns-mono (threads-Covers ts s2 c2.0 c2.1 p.2) (λ s3 c3.
            Covers-trans s v (λ w. Registers w ⊎ Stack w) (InThreads h0.mem ts) _ s2 s3
              (λ w k. elim k [
                | inl a ↦ inl (inl a)
                | inr (inl a) ↦ inl (inr a)
                | inr (inr a) ↦ inr a
              ])
              c2 c3))

    pub globals-Covers :
        (roots : List Ptr) (s : Shared) (v : ℕ → View)
        → IsGoing h0 v0 v s
        → All (IsPayload v0) roots
        → Returns (Covers v s (InGlobals h0.mem roots)) (scan_global_roots roots s)
    unfolding scan_global_roots
    globals-Covers [] s v g p = returns (Covers-none s v _ g (λ w k. k))
    globals-Covers (root ∷ roots) s v g p =
        Returns-bind {P = Covers v s (λ w. w ≡ h0.mem root)}
          (Returns-mono (trace_word-Scans h0 v0 valid0 able s v root g p.0)
            (λ s1 (v1, g1, l1, t1, c1).
              (v1, g1, l1, t1, λ w e. subst (λ u. IsCovered h0 s1.heap v1 u) (sym e) c1)))
          (λ s1 c1. Returns-mono (globals-Covers roots s1 c1.0 c1.1 p.1) (λ s2 c2.
            Covers-trans s v (λ w. w ≡ h0.mem root) (InGlobals h0.mem roots) _ s1 s2 (λ w k. k) c1
              c2))

    -- A value that is traced.
    value-Covers :
        (value : ℕ) (s : Shared) (v : ℕ → View)
        → IsGoing h0 v0 v s
        → Returns (Covers v s (λ w. w ≡ value)) (step (λ h. trace_pointer value h) s)
    value-Covers value s v g =
        Returns-mono
          (step-IsGoing h0 v0 valid0 able (λ h. trace_pointer value h) s v
            (λ h' v'. ((i : ℕ) → Grays (v i) (v' i)) × IsCovered h0 h' v' value) g
            (λ h k o. Returns-mono (trace_pointer-Traced h v value k.valid) (λ h' (v', t, f).
              let n = Traced-Snapshot h0 v0 h v h' v' k t in
              (
                v',
                n.0,
                n.1,
                (
                  t.grays,
                  λ i base r e m. absurd (f i base (target-KeepsTable h0 h' value n.0.table ∙ e) m),
                ),
              ))))
          (λ s' (v', g', l, (t, c)).
            (v', g', l, t, λ w e. subst (λ u. IsCovered h0 s'.heap v' u) (sym e) c))

    state-Covers :
        (state : ℕ) (s : Shared) (v : ℕ → View)
        → IsGoing h0 v0 v s
        → Returns
            (Covers v s (λ w. (w ≡ state) × (state ≢ 0)))
            (if state == 0 then ok s else step (λ h. trace_pointer state h) s)
    state-Covers state s v g = elim (Bool-cases (state == 0)) [
      | inl e ↦ rw e (returns (Covers-none s v _ g (λ w k. k.1 (eq_of_== state 0 e))))
      | inr e ↦ rw e (
          Returns-mono (value-Covers state s v g)
            (λ s' (v', g', l, t, c). (v', g', l, t, λ w k. c w k.0)))
    ]

    pub scan_threads-Covers :
        (r : Roots) (s : Shared) (v : ℕ → View)
        → IsGoing h0 v0 v s
        → ThreadsPayload v0 r.saved_threads
        → Returns
            (Covers v s (λ w.
              InThreads h0.mem r.saved_threads w
              ⊎ ((w ≡ r.no_write_barrier_state) × (r.no_write_barrier_state ≢ 0))))
            (scan_threads r s)
    unfolding scan_threads
    scan_threads-Covers r s v g p = Returns-bind (threads-Covers r.saved_threads s v g p) (λ s1 c1.
        Returns-mono (state-Covers r.no_write_barrier_state s1 c1.0 c1.1) (λ s2 c2.
          Covers-trans s v (InThreads h0.mem r.saved_threads)
            (λ w. (w ≡ r.no_write_barrier_state) × (r.no_write_barrier_state ≢ 0)) _ s1 s2
            (λ w k. k) c1 c2))
