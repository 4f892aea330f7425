-- ===== src/Concurrent/Finish.antt =====
-- The loop of full_gc in rtgc.c that marks, while mutators store.
use rtgc.Common.{
  ℕ, zero, suc, ◌+◌, ◌*◌, ◌≤◌, ◌<◌, ◌≡◌, ◌≢◌, ◌⊎◌, inl, inr, refl, sym, ap, ◌∙◌, Bool, true, false,
  ◌∈◌, [], mem-append, Run, Returns, returns, Returns-bind, Returns-mono, lt→ltb, ltb-false, arith,
}
use mathlib.Core.Path.{subst}
use native.Mathlib.Decide.{ℕ_discrete}
use rtgc.Common.Bits.{test_bit}
use rtgc.InfoBits.{Ptr}
use rtgc.Group.View.{View}
use rtgc.Group.Frame.{objects_of}
use rtgc.Heap.{Heap}
use rtgc.Heap.Groups.{InRange, KeepsTable-refl}
use rtgc.Heap.Valid.{IsHeap}
use rtgc.Trace.Segments.{IsScanner}
use rtgc.Trace.Total.{total}
use rtgc.Trace.Blacken.{IsTricolor}
use rtgc.Trace.Reach.{IsReachable, from_root, from_object}
use rtgc.WriteBarrier.Marks.{marked}
use rtgc.Concurrent.{Shared, mark}
use rtgc.Concurrent.Snapshot.{
  AreMarkable, place, IsObject, IsCovered, IsCovered-Later, IsSnapshot, le_trans,
}
use rtgc.Concurrent.Load.{load, load-le}
use rtgc.Concurrent.Stores.{IsGoing}
use rtgc.Concurrent.Passes.{scan_gray_set-Finished}
use rtgc.Concurrent.Search.{Search}
use rtgc.Concurrent.WriteVector.{scan_write_vector-Search}

-- The marks of the write vector are those of objects.
abbrev pub AreOwned : Heap → (ℕ → View) → Type 0
AreOwned h v =
    (index bit : ℕ)
    → index < h.write_vector_length
    → bit < 64
    → test_bit (h.write_vector index) bit ≡ true
    → IsObject h v (place h index bit)

-- The snapshot is taken.
pub first-IsSnapshot :
    (h : Heap) (v : ℕ → View)
    → IsHeap h v
    → IsTricolor h v
    → h.enable_write_barrier ≡ true
    → AreOwned h v
    → IsSnapshot h v h v
first-IsSnapshot h v valid c on owned = record {
  valid = valid;
  table = KeepsTable-refl h;
  members = λ i. (λ a m. m, λ a m. m);
  greens = λ i. refl;
  classes = λ i x r m. refl;
  marked_color = refl;
  unmarked_color = refl;
  barrier = on;
  vector_length = refl;
  first_static = refl;
  static_frontier = refl;
  contents = λ a p. inl refl;
  settled = λ i x k r m e l j base q t n. absurd (c i x r m e k l j base t n);
  owned = owned;
}

module _ (h0 : Heap) (v0 : ℕ → View) (valid0 : IsHeap h0 v0) (able : AreMarkable h0 v0)
    (roots : ℕ → Type 0) where
  abbrev pub AreCovered : Heap → (ℕ → View) → Type 0
  AreCovered h v = (w : ℕ) → roots w → IsCovered h0 h v w

  -- Where nothing is gray and no white object has a mark.
  module _ (h : Heap) (v : ℕ → View) (s : IsSnapshot h0 v0 h v) (covered : AreCovered h v)
      (none : (i : ℕ) → InRange i → (v i).grays ≡ [])
      (unmarked : (i x : ℕ) → InRange i → x ∈ (v i).whites → marked h x ≡ false) where
    true_ne_false : ◌≡◌ {A = Bool} true false → ⊥
    true_ne_false e = cc

    in_lists : {i x : ℕ} → IsReachable h0 v0 roots i x → InRange i × (x ∈ objects_of (v i))
    in_lists (from_root {w} {i} {x} r t) =
        let u = valid0.targets w i x t in (u.0, (s.members i).0 x u.1)
    in_lists (from_object {i} {x} {j} {k} {y} r g c b t) =
        let u = valid0.targets (h0.mem (x + 16 + 8 * k)) j y t in (u.0, (s.members j).0 y u.1)

    other_lists :
        (i x : ℕ)
        → InRange i
        → x ∈ objects_of (v i)
        → (x ∈ (v i).whites → ⊥)
        → (x ∈ (v i).blacks) ⊎ (x ∈ (v0 i).greens)
    other_lists i x r m f = elim (mem-append x (v i).whites _ m) [
      | inl a ↦ absurd (f a)
      | inr a ↦ elim (mem-append x (v i).grays _ a) [
        | inl b ↦ absurd (subst (λ l. x ∈ l) (none i r) b)
        | inr b ↦ elim (mem-append x (v i).blacks _ b) [
          | inl c ↦ inl c
          | inr c ↦ inr (subst (λ l. x ∈ l) (s.greens i) c)
        ]
      ]
    ]

    -- A white object with a mark.
    no_mark : (i x : ℕ) → InRange i → x ∈ (v i).whites → marked h x ≡ true → ⊥
    no_mark i x r m e = true_ne_false (sym e ∙ unmarked i x r m)

    not_white : {i x : ℕ} → IsReachable h0 v0 roots i x → x ∈ (v i).whites → ⊥
    not_white (from_root {w} {i} {x} r t) m =
        let u = valid0.targets w i x t in no_mark i x u.0 m (covered w r i x u.0 t m)
    not_white (from_object {i} {x} {j} {k} {y} r g c b t) m =
        let u = in_lists r in
        let w = valid0.targets (h0.mem (x + 16 + 8 * k)) j y t in
        elim (other_lists i x u.0 u.1 (not_white r)) [
          | inl e ↦ no_mark j y w.0 m (s.settled i x k u.0 e c b j y w.0 t m)
          | inr e ↦ g e
        ]

    reachable-IsKept :
        (i x : ℕ) → IsReachable h0 v0 roots i x → (x ∈ (v i).blacks) ⊎ (x ∈ (v0 i).greens)
    reachable-IsKept i x r = let u = in_lists r in other_lists i x u.0 u.1 (not_white r)

  -- What marking ends with.
  abbrev pub Marked : Shared → Type 0
  Marked s' =
      (v' : (ℕ → View)) × IsGoing h0 v0 v' s'
      × (total 20 5 v' ≤ total 20 5 v0)
      × ((i : ℕ) → InRange i → (v' i).grays ≡ [])
      × ((i x : ℕ) → IsReachable h0 v0 roots i x → (x ∈ (v' i).blacks) ⊎ (x ∈ (v0 i).greens))

  -- One round, with the number of marks found and what is left to do before it.
  abbrev Round : ℕ → Shared × ℕ → Type 0
  Round before r =
      ((v' : (ℕ → View)) × IsGoing h0 v0 v' r.0
        × AreCovered r.0.heap v'
        × (total 20 5 v' ≤ total 20 5 v0)
        × (r.1 + load 20 5 v0 r.0.heap ≤ before))
      × (r.1 ≡ 0 → Marked r.0)

  found :
      (s1 : Shared) (v1 : ℕ → View) (r : Shared × ℕ) (v2 : ℕ → View) (before : ℕ)
      → IsSnapshot h0 v0 s1.heap v1
      → AreCovered s1.heap v1
      → total 20 5 v1 ≤ total 20 5 v0
      → ((i : ℕ) → InRange i → (v1 i).grays ≡ [])
      → load 20 5 v0 s1.heap ≤ before
      → Search h0 v0 s1 v1 0 r.0 v2 r.1
      → (r.1 ≡ 0 → (j x : ℕ) → InRange j → x ∈ (v1 j).whites → marked s1.heap x ≡ false)
      → Round before r
  found s1 v1 r v2 before k c t none less p w = (
    (
      v2,
      p.going,
      λ w b. IsCovered-Later h0 v0 s1.heap v1 r.0.heap v2 w p.later (c w b),
      le_trans (total 20 5 v2) (total 20 5 v1) (total 20 5 v0) p.later.fewer t,
      least r.1 (load 20 5 v0 r.0.heap) (load 20 5 v0 s1.heap) before p.count less,
    ),
    λ e. (
      v2,
      p.going,
      le_trans (total 20 5 v2) (total 20 5 v1) (total 20 5 v0) p.later.fewer t,
      λ i q. ap (λ (u : ℕ → View). (u i).grays) (p.idle e) ∙ none i q,
      λ i x q.
          subst (λ u. (x ∈ (u i).blacks) ⊎ (x ∈ (v0 i).greens)) (sym (p.idle e))
            (reachable-IsKept s1.heap v1 k c none (w e) i x q),
    ),
  )
    where
      least : (n a b c : ℕ) → n + a ≤ 0 + b → b ≤ c → n + a ≤ c
      least n a b c p q = omega arith

  module _ (custom_scanner : (low high : Ptr) → Heap → Run Heap) (fuel : ℕ)
      (cs : IsScanner custom_scanner) where
    pub mark-Marked :
        (k : ℕ) (s : Shared) (v : ℕ → View)
        → IsGoing h0 v0 v s
        → AreCovered s.heap v
        → total 20 5 v ≤ total 20 5 v0
        → total 20 5 v0 < fuel
        → load 20 5 v0 s.heap < k
        → Returns Marked (mark custom_scanner fuel k s)
    unfolding mark
    mark-Marked zero s v g c e t u = absurd (omega arith)
    mark-Marked (suc k) s v g c e t u =
        Returns-bind
          (Returns-bind
            (scan_gray_set-Finished h0 v0 valid0 able custom_scanner fuel cs s v g
              (under (total 20 5 v) (total 20 5 v0) fuel e t))
            (λ s1 (v1, g1, l1, none).
              let c1 =
                λ (w : ℕ) (b : roots w). IsCovered-Later h0 v0 s.heap v s1.heap v1 w l1 (c w b) in
              let e1 = le_trans (total 20 5 v1) (total 20 5 v) (total 20 5 v0) l1.fewer e in
              let less =
                load-le s.heap s1.heap v0 20 5 (λ j y a b m. l1.lighter j y (a, omega arith) m) in
              Returns-mono (scan_write_vector-Search h0 v0 valid0 able s1 v1 g1)
                (λ r (v2, p, w). found s1 v1 r v2 (load 20 5 v0 s.heap) g1.0 c1 e1 none less p w)))
          (λ (s2, n) q. elim (ℕ_discrete n 0) [
            | yes z ↦ rw (ltb-false 0 n (omega arith)) (returns (q.1 z))
            | no ne ↦
                let (v2, g2, c2, e2, p2) = q.0 in
                rw (lt→ltb 0 n (omega arith)) (
                  mark-Marked k s2 v2 g2 c2 e2 t
                    (paid n (load 20 5 v0 s2.heap) (load 20 5 v0 s.heap) k ne p2 u))
          ])
      where
        under : (a b f : ℕ) → a ≤ b → b < f → a < f
        under a b f p q = omega arith

        paid : (n a b k : ℕ) → n ≢ 0 → n + a ≤ b → b < suc k → a < k
        paid n a b k ne p q = omega arith
