-- ===== src/Collect/RootSet.antt =====
-- scan_root_set of rtgc.c, in a whole heap.
use rtgc.Common.{
  ℕ, zero, suc, ◌+◌, ◌≤◌, ◌<◌, ◌≡◌, ◌≢◌, ◌⊎◌, inl, inr, refl, sym, ◌∙◌, All, Option, some, Run, ok,
  Returns, returns, Returns-bind, Returns-mono, ltb-false, arith,
}
use rtgc.InfoBits.{Ptr}
use rtgc.Group.View.{View}
use rtgc.Heap.{Heap}
use rtgc.Heap.Valid.{IsHeap, IsPayload}
use rtgc.Trace.Words.{Traced, Traced-refl, Traced-trans, IsShaded}
use rtgc.Trace.Segments.{IsShaded-later, Traced-Darker}
use rtgc.Collect.{Roots, scan_static_space, static_loop, run_scanners, scan_root_set}
use rtgc.Collect.RootWords.{
  IsRoot, InThreads, InGlobals, ThreadsPayload, Now, Now-later, Shades, Shades-trans,
  globals-Shades, scan_threads-Shades,
}

-- A root scanner of the client may trace words, any number of them.
abbrev pub IsRootScanner : (Heap → Run Heap) → Type 0
IsRootScanner scan =
    (h : Heap) (v : ℕ → View)
    → IsHeap h v
    → Returns (λ h'. (v' : (ℕ → View)) × Traced h v h' v') (scan h)

scanners-Traced :
    (k i : ℕ) (scanners : ℕ → Option (Heap → Run Heap)) (h : Heap) (v : ℕ → View)
    → IsHeap h v
    → ((j : ℕ)
        → i ≤ j
        → j < i + k
        → (s : (Heap → Run Heap)) × (scanners j ≡ some s) × IsRootScanner s)
    → Returns (λ h'. (v' : (ℕ → View)) × Traced h v h' v') (run_scanners k i scanners h)
unfolding run_scanners
scanners-Traced zero i scanners h v valid f = returns (v, Traced-refl h v valid)
scanners-Traced (suc k) i scanners h v valid f =
    let (s, e, q) = f i (omega arith) (omega arith) in
    rw (run_scanners, e)
      (Returns-bind (q h v valid) (λ h1 (v1, t1).
        Returns-mono
          (scanners-Traced k (i + 1) scanners h1 v1 t1.marks.valid
            (λ j l u. f j (omega arith) (omega arith)))
          (λ h2 (v2, t2). (v2, Traced-trans h v h1 v1 h2 v2 t1 t2))))

-- What scan_root_set needs of the client: its scanners are set and trace, and what it names as
-- roots is not at the headers of objects.
pub record AreRoots (r : Roots) (v : ℕ → View) : Type 0 where
  pub threads : ThreadsPayload v r.saved_threads
  pub globals : All (IsPayload v) r.global_roots
  pub scanners :
      (j : ℕ)
      → j < r.total_root_scanners
      → (s : (Heap → Run Heap)) × (r.root_scanners j ≡ some s) × IsRootScanner s

empty_loop :
    (fuel : ℕ)
    → 0 < fuel
    → (scan : Ptr → ℕ → Heap → Run Heap) (next end : Ptr) (h : Heap) → end ≡ next
    → static_loop fuel scan next end h ≡ ok h
unfolding static_loop
empty_loop zero l scan next end h e = absurd (omega arith)
empty_loop (suc fuel) l scan next end h e = rw (static_loop, ltb-false next end (omega arith)) refl

module _ (r : Roots) (fuel : ℕ) where
  -- While no static object has been allocated.
  no_static :
      (h : Heap)
      → h.static_frontier_ptr ≡ h.first_static_ptr
      → 0 < fuel
      → scan_static_space r fuel h ≡ ok h
  unfolding scan_static_space
  no_static h e l = empty_loop fuel l _ h.first_static_ptr h.static_frontier_ptr h e

  -- In a valid heap with no static object, scan_root_set returns, where the roots are words at
  -- multiples of 8 that are not at the headers of objects and the client's scanners are set and
  -- only trace; white objects have become gray, and no word of the saved registers and stacks, the
  -- registered state word or a global root then points to a white object.
  pub scan_root_set-IsShaded :
      (h : Heap) (v : ℕ → View)
      → IsHeap h v
      → AreRoots r v
      → h.static_frontier_ptr ≡ h.first_static_ptr
      → 0 < fuel
      → Returns
          (λ h'.
            (v' : (ℕ → View)) × Traced h v h' v' × ((w : ℕ) → IsRoot r h.mem w → IsShaded h' v' w))
          (scan_root_set r fuel h)
  unfolding scan_root_set
  scan_root_set-IsShaded h v valid roots e l =
      let n : Now h.mem h v v = record { valid = valid; same = λ a p. refl; payload = λ a p. p } in
      Returns-bind {P = Shades h v (IsRoot r h.mem)}
        (Returns-bind {P = Shades h v (IsRoot r h.mem)}
          (Returns-bind (scan_threads-Shades h.mem v r h v n roots.threads) (λ h1 (v1, t1, s1).
            Returns-mono
              (globals-Shades h.mem v r.global_roots h1 v1 (Now-later h.mem h v v h1 v1 n t1.marks)
                roots.globals)
              (λ h2 q.
                Shades-trans h v _ (InGlobals h.mem r.global_roots) (IsRoot r h.mem) h1 v1 h2 parts
                  t1 s1 q)))
          (λ h2 (v2, t2, s2).
            rw
              (no_static h2 (t2.marks.keeps.static_frontier ∙ e ∙ sym t2.marks.keeps.first_static)
                l)
              (returns (v2, t2, s2))))
        (λ h2 (v2, t2, s2).
          Returns-mono
            (scanners-Traced r.total_root_scanners 0 r.root_scanners h2 v2 t2.marks.valid
              (λ j a b. roots.scanners j (omega arith)))
            (λ h3 (v3, t3). (
              v3,
              Traced-trans h v h2 v2 h3 v3 t2 t3,
              λ w k. IsShaded-later h2 v2 h3 v3 w (Traced-Darker h2 v2 h3 v3 t3) (s2 w k),
            )))
    where
      parts :
          (w : ℕ)
          → IsRoot r h.mem w
          → (InThreads h.mem r.saved_threads w
              ⊎ ((w ≡ r.no_write_barrier_state) × (r.no_write_barrier_state ≢ 0)))
            ⊎ InGlobals h.mem r.global_roots w
      parts w (inl k) = inl (inl k)
      parts w (inr (inl k)) = inl (inr k)
      parts w (inr (inr k)) = inr k
