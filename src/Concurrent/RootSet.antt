-- ===== src/Concurrent/RootSet.antt =====
-- scan_root_set of rtgc.c while mutators store, in a whole heap.
use rtgc.Common.{
  ℕ, zero, suc, ◌+◌, ◌≤◌, ◌<◌, ◌≡◌, ◌≢◌, ◌⊎◌, inl, inr, refl, sym, ◌∙◌, Option, some, Run, ok,
  Returns, returns, Returns-bind, Returns-mono, ltb-false, arith,
}
use rtgc.InfoBits.{Ptr}
use rtgc.Group.View.{View}
use rtgc.Heap.{Heap}
use rtgc.Heap.Valid.{IsHeap, Grays}
use rtgc.Collect.{Roots}
use rtgc.Collect.RootWords.{IsRoot, InThreads, InGlobals}
use rtgc.Collect.RootSet.{AreRoots, IsRootScanner}
use rtgc.Concurrent.{Shared}
use rtgc.Concurrent.Snapshot.{AreMarkable}
use rtgc.Concurrent.Stores.{IsGoing, step-IsGoing}
use rtgc.Concurrent.Scan.{Traced-Snapshot}
use rtgc.Concurrent.Roots.{scan_static_space, static_loop, run_scanners, scan_root_set}
use rtgc.Concurrent.RootWords.{
  Covers, Covers-trans, Covers-none, globals-Covers, scan_threads-Covers,
}

module _ (h0 : Heap) (v0 : ℕ → View) (valid0 : IsHeap h0 v0) (able : AreMarkable h0 v0) where
  scanners-Covers :
      (k i : ℕ) (scanners : ℕ → Option (Heap → Run Heap)) (s : Shared) (v : ℕ → View)
      → IsGoing h0 v0 v s
      → ((j : ℕ)
          → i ≤ j
          → j < i + k
          → (f : (Heap → Run Heap)) × (scanners j ≡ some f) × IsRootScanner f)
      → Returns (Covers h0 v0 v s (λ w. ⊥)) (run_scanners k i scanners s)
  unfolding run_scanners
  scanners-Covers zero i scanners s v g f = returns (Covers-none h0 v0 s v _ g (λ w k. k))
  scanners-Covers (suc k) i scanners s v g f =
      let (scan, e, q) = f i (omega arith) (omega arith) in
      rw (run_scanners, e)
        (Returns-bind {P = Covers h0 v0 v s (λ w. ⊥)}
          (Returns-mono
            (step-IsGoing h0 v0 valid0 able scan s v (λ h' v'. (i : ℕ) → Grays (v i) (v' i)) g
              (λ h n o. Returns-mono (q h v n.valid) (λ h' (v', t).
                let n' = Traced-Snapshot h0 v0 h v h' v' n t in (v', n'.0, n'.1, t.grays))))
            (λ s' (v', g', l, t). (v', g', l, t, λ w k. absurd k)))
          (λ s1 c1.
            Returns-mono
              (scanners-Covers k (i + 1) scanners s1 c1.0 c1.1
                (λ j l u. f j (omega arith) (omega arith)))
              (λ s2 c2. Covers-trans h0 v0 s v (λ w. ⊥) (λ w. ⊥) _ s1 s2 (λ w k. inl k) c1 c2)))

  empty_loop :
      (fuel : ℕ)
      → 0 < fuel
      → (scan : Ptr → ℕ → Shared → Run Shared) (next end : Ptr) (s : Shared) → end ≡ next
      → static_loop fuel scan next end s ≡ ok s
  unfolding static_loop
  empty_loop zero l scan next end s e = absurd (omega arith)
  empty_loop (suc fuel) l scan next end s e =
      rw (static_loop, ltb-false next end (omega arith)) refl

  -- While no static object has been allocated.
  no_static :
      (r : Roots) (fuel : ℕ) (s : Shared) (v : ℕ → View)
      → IsGoing h0 v0 v s
      → h0.static_frontier_ptr ≡ h0.first_static_ptr
      → 0 < fuel
      → scan_static_space r fuel s ≡ ok s
  unfolding scan_static_space
  no_static r fuel s v g e l =
      empty_loop fuel l _ s.heap.first_static_ptr s.heap.static_frontier_ptr s
        (g.0.static_frontier ∙ e ∙ sym g.0.first_static)

  pub scan_root_set-Covers :
      (r : Roots) (fuel : ℕ) (s : Shared) (v : ℕ → View)
      → IsGoing h0 v0 v s
      → AreRoots r v0
      → h0.static_frontier_ptr ≡ h0.first_static_ptr
      → 0 < fuel
      → Returns (Covers h0 v0 v s (IsRoot r h0.mem)) (scan_root_set r fuel s)
  unfolding scan_root_set
  scan_root_set-Covers r fuel s v g roots e l =
      Returns-bind {P = Covers h0 v0 v s (IsRoot r h0.mem)}
        (Returns-bind {P = Covers h0 v0 v s (IsRoot r h0.mem)}
          (Returns-bind (scan_threads-Covers h0 v0 valid0 able r s v g roots.threads) (λ s1 c1.
            Returns-mono
              (globals-Covers h0 v0 valid0 able r.global_roots s1 c1.0 c1.1 roots.globals)
              (λ s2 c2.
                Covers-trans h0 v0 s v _ (InGlobals h0.mem r.global_roots) (IsRoot r h0.mem) s1 s2
                  parts c1 c2)))
          (λ s2 c2. rw (no_static r fuel s2 c2.0 c2.1 e l) (returns c2)))
        (λ s2 c2.
          Returns-mono
            (scanners-Covers r.total_root_scanners 0 r.root_scanners s2 c2.0 c2.1
              (λ j a b. roots.scanners j (omega arith)))
            (λ s3 c3.
              Covers-trans h0 v0 s v (IsRoot r h0.mem) (λ w. ⊥) (IsRoot r h0.mem) s2 s3
                (λ w k. inl k) c2 c3))
    where
      parts :
          (w : ℕ)
          → IsRoot r h0.mem w
          → (InThreads h0.mem r.saved_threads w
              ⊎ ((w ≡ r.no_write_barrier_state) × (r.no_write_barrier_state ≢ 0)))
            ⊎ InGlobals h0.mem r.global_roots w
      parts w (inl k) = inl (inl k)
      parts w (inr (inl k)) = inl (inr k)
      parts w (inr (inr k)) = inr k
