-- ===== src/Concurrent/Scan.antt =====
-- The scan of an object in rtgc.c, word by word, while mutators store.
use rtgc.Common.{
  ℕ, zero, suc, ◌+◌, ◌-◌, ◌*◌, ◌/◌, ◌<◌, ◌≤◌, ◌≡◌, ◌≢◌, inl, inr, sym, ap, ◌∙◌, ◌∈◌, Run, Returns,
  returns, Returns-bind, Returns-mono, ◌==◌, Bool-cases, eq_of_==, ne_of_==, arith,
}
use mathlib.Core.Path.{subst}
use rtgc.InfoBits.{Ptr, get_storage_class, sc_nopointers, sc_pointers, sc_custom1}
use rtgc.Group.View.{View}
use rtgc.Group.Frame.{objects_of}
use rtgc.Heap.{Heap}
use rtgc.Heap.Groups.{InRange}
use rtgc.Heap.Target.{target, target-KeepsTable}
use rtgc.Heap.Valid.{IsHeap, IsPayload, Grays, Grays-refl, Grays-trans}
use rtgc.Trace.{trace_pointer}
use rtgc.Trace.Words.{Traced, IsShaded, trace_pointer-Traced}
use rtgc.Trace.Segments.{
  Traced-Darker, ArePayload, ArePayload-head, ArePayload-tail, IsScanner, word_count,
  object-ArePayload,
}
use rtgc.Trace.Total.{total_same}
use rtgc.Concurrent.{Shared, step, scan_words, scan_memory_segment, scan_object}
use rtgc.Concurrent.Snapshot.{
  AreMarkable, IsCovered, IsCovered-Later, IsSnapshot, Later, Later-refl, Later-trans, Darker-Later,
  Darker-IsSnapshot,
}
use rtgc.Concurrent.Stores.{IsGoing, step-IsGoing}

module _ (h0 : Heap) (v0 : ℕ → View) where
  -- A later state in which white objects have become gray and `R` holds.
  abbrev pub Scans : (ℕ → View) → Shared → (Heap → (ℕ → View) → Type 0) → Shared → Type 0
  Scans v s R s' =
      (v' : (ℕ → View)) × IsGoing h0 v0 v' s'
      × Later v0 s.heap v s'.heap v'
      × ((i : ℕ) → Grays (v i) (v' i))
      × R s'.heap v'

  pub Traced-Snapshot :
      (h : Heap) (v : ℕ → View) (h' : Heap) (v' : ℕ → View)
      → IsSnapshot h0 v0 h v
      → Traced h v h' v'
      → IsSnapshot h0 v0 h' v' × Later v0 h v h' v'
  Traced-Snapshot h v h' v' s t =
      let d = Traced-Darker h v h' v' t in
      let l = le (total_same 20 5 v v' (λ j b. (t.grays j).pending)) in
      (
        Darker-IsSnapshot h0 v0 h v s h' v' d l
            (λ i x r m. inl (subst (λ l. x ∈ l) (t.grays i).blacks m)),
        Darker-Later h0 v0 h v s h' v' d l,
      )
    where
      le : {a b : ℕ} → a ≡ b → a ≤ b
      le e = omega arith

  -- A word that points to no white object, where the snapshot had it or what is covered.
  word-IsCovered :
      (h : Heap) (v : ℕ → View) (h' : Heap) (v' : ℕ → View) (a : Ptr)
      → IsSnapshot h0 v0 h v
      → IsSnapshot h0 v0 h' v'
      → Later v0 h v h' v'
      → IsPayload v0 a
      → IsShaded h' v' (h.mem a)
      → IsCovered h0 h' v' (h0.mem a)
  word-IsCovered h v h' v' a s s' l p f = elim (s.contents a p) [
    | inl e ↦ λ i base r k m. absurd (
        f i base (ap (λ (w : ℕ). target h' w) e ∙ target-KeepsTable h0 h' (h0.mem a) s'.table ∙ k)
          m)
    | inr c ↦ IsCovered-Later h0 v0 h v h' v' (h0.mem a) l c
  ]

  abbrev pub AreCovered : (next k : ℕ) → Heap → (ℕ → View) → Type 0
  AreCovered next k h v = (j : ℕ) → j < k → IsCovered h0 h v (h0.mem (next + 8 * j))

  AreCovered-suc :
      (next k : ℕ) (h : Heap) (v : ℕ → View)
      → IsCovered h0 h v (h0.mem next)
      → AreCovered (next + 8) k h v
      → AreCovered next (suc k) h v
  AreCovered-suc next k h v c f zero l = subst (λ a. IsCovered h0 h v (h0.mem a)) at_zero c
    where
      at_zero : next ≡ next + 8 * 0
      at_zero = omega arith
  AreCovered-suc next k h v c f (suc j) l =
      subst (λ a. IsCovered h0 h v (h0.mem a)) (at_suc next j) (f j (omega arith))
    where
      at_suc : (next j : ℕ) → next + 8 + 8 * j ≡ next + 8 * suc j
      at_suc next j = omega arith

  module _ (valid0 : IsHeap h0 v0) (able : AreMarkable h0 v0) where
    pub trace_word-Scans :
        (s : Shared) (v : ℕ → View) (next : Ptr)
        → IsGoing h0 v0 v s
        → IsPayload v0 next
        → Returns
            (Scans v s (λ h' v'. IsCovered h0 h' v' (h0.mem next)))
            (step (λ h. trace_pointer (h.mem next) h) s)
    trace_word-Scans s v next g p =
        Returns-mono
          (step-IsGoing h0 v0 valid0 able (λ h. trace_pointer (h.mem next) h) s v
            (λ h' v'. ((i : ℕ) → Grays (v i) (v' i)) × IsCovered h0 h' v' (h0.mem next)) g
            (λ h k o. Returns-mono (trace_pointer-Traced h v (h.mem next) k.valid) (λ h' (v', t, f).
              let n = Traced-Snapshot h v h' v' k t in
              (v', n.0, n.1, (t.grays, word-IsCovered h v h' v' next k n.0 n.1 p f)))))
          (λ s' (v', g', l, (t, c)). (v', g', l, t, c))

    pub scan_words-Scans :
        (k next : ℕ) (s : Shared) (v : ℕ → View)
        → IsGoing h0 v0 v s
        → ArePayload v0 next k
        → Returns (Scans v s (AreCovered next k)) (scan_words k next s)
    unfolding scan_words
    scan_words-Scans zero next s v g p =
        returns (v, g, Later-refl v0 s.heap v, λ i. Grays-refl (v i), λ j l. absurd (omega arith))
    scan_words-Scans (suc k) next s v g p =
        Returns-bind (trace_word-Scans s v next g (ArePayload-head v0 next k p))
          (λ s1 (v1, g1, l1, t1, c1).
            Returns-mono (scan_words-Scans k (next + 8) s1 v1 g1 (ArePayload-tail v0 next k p))
              (λ s2 (v2, g2, l2, t2, c2). (
                v2,
                g2,
                Later-trans v0 s.heap v s1.heap v1 s2.heap v2 l1 l2,
                λ i. Grays-trans (t1 i) (t2 i),
                AreCovered-suc next k s2.heap v2
                    (IsCovered-Later h0 v0 s1.heap v1 s2.heap v2 (h0.mem next) l2 c1) c2,
              )))

    -- All words that the object had in the snapshot.
    abbrev pub IsSettled : (i : ℕ) (x : Ptr) → Heap → (ℕ → View) → Type 0
    IsSettled i x h v =
        get_storage_class h0.mem x ≡ sc_pointers
        → AreCovered (x + 16) (word_count ((h0.groups i).size)) h v

    module _ (i : ℕ) (r : InRange i) (x : Ptr) (m : x ∈ objects_of (v0 i)) (s : Shared)
        (v : ℕ → View) (g : IsGoing h0 v0 v s) where
      segment-Scans :
          Returns
            (Scans v s (IsSettled i x))
            (scan_memory_segment (x + 16) (x + (s.heap.groups i).size) s)
      unfolding scan_memory_segment
      segment-Scans =
          subst (λ n. Returns (Scans v s (IsSettled i x)) (scan_words n (x + 16) s))
            (count ((h0.groups i).size) ((s.heap.groups i).size) (g.0.table.size i))
            (Returns-mono
              (scan_words-Scans (word_count ((h0.groups i).size)) (x + 16) s v g
                (object-ArePayload h0 v0 valid0 i r x m))
              (λ s' (v', g', l, t, c). (v', g', l, t, λ e. c)))
        where
          count : (a b : ℕ) → b ≡ a → (a - 16 + 7) / 8 ≡ (x + b + 7 - (x + 16)) / 8
          count a b e = omega arith

      not_pointers :
          (c : ℕ)
          → get_storage_class s.heap.mem x ≡ c
          → c ≢ sc_pointers
          → (h' : Heap) (v' : ℕ → View) → IsSettled i x h' v'
      not_pointers c e ne h' v' k = absurd (ne (sym e ∙ g.0.classes i x r m ∙ k))

      pub scan_object-Scans :
          (custom_scanner : (low high : Ptr) → Heap → Run Heap) (fuel : ℕ)
          → IsScanner custom_scanner
          → Returns
              (Scans v s (IsSettled i x))
              (scan_object custom_scanner fuel x ((s.heap.groups i).size) s)
      unfolding scan_object
      scan_object-Scans custom fuel cs =
          let c = get_storage_class s.heap.mem x in
          elim (Bool-cases (c == sc_nopointers)) [
            | inl e ↦ rw e (
                returns (
                  v,
                  g,
                  Later-refl v0 s.heap v,
                  λ j. Grays-refl (v j),
                  not_pointers 0 (eq_of_== _ _ e) (λ k. omega arith) s.heap v,
                ))
            | inr e ↦ elim (Bool-cases (c == sc_pointers)) [
              | inl f ↦ rw (e, f) segment-Scans
              | inr f ↦ elim (Bool-cases (c == sc_custom1)) [
                | inl q ↦
                    rw (e, f, q)
                      (Returns-mono
                        (step-IsGoing h0 v0 valid0 able
                          (custom (x + 16) (x + (s.heap.groups i).size)) s v
                          (λ h' v'. (j : ℕ) → Grays (v j) (v' j)) g
                          (λ h k o.
                            Returns-mono (cs (x + 16) (x + (s.heap.groups i).size) h v k.valid)
                              (λ h' (v', t).
                                let n = Traced-Snapshot h v h' v' k t in (v', n.0, n.1, t.grays))))
                        (λ s' (v', g', l, t). (
                          v',
                          g',
                          l,
                          t,
                          not_pointers 2 (eq_of_== _ _ q) (λ k. omega arith) s'.heap v',
                        )))
                | inr q ↦ absurd (
                    none_left c (ne_of_== _ _ e) (ne_of_== _ _ f) (ne_of_== _ _ q)
                      (g.0.valid.classes i x r ((g.0.members i).0 x m)))
              ]
            ]
          ]
        where
          none_left : (c : ℕ) → c ≢ 0 → c ≢ 1 → c ≢ 2 → c < 3 → ⊥
          none_left c a b d l = omega arith
