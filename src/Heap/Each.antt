-- ===== src/Heap/Each.antt =====
-- A loop over the groups of the heap that makes the same step on each.
use rtgc.Common.{
  ℕ, zero, suc, ◌+◌, ◌≤◌, ◌<◌, ◌≡◌, ◌≢◌, refl, sym, ap, ◌∙◌, Run, ok, ◌>>=◌, Returns, returns,
  Returns-bind, Returns-mono, ==-true, ==-false, arith,
}
use native.Mathlib.Decide.{ℕ_discrete}
use rtgc.Group.{GroupState}
use rtgc.Group.View.{IsGroup}
use rtgc.Group.Steps.{Becomes}
use rtgc.Heap.{Heap, on_group, group_state}
use rtgc.Heap.Groups.{
  InRange, Spec, AreGroups, put, KeepsHeap, KeepsHeap-refl, KeepsHeap-trans, on_group-AreGroups,
  AreGroups-same,
}

unfoldable pub for_groups : (GroupState → Run GroupState) → ℕ → ℕ → Heap → Run Heap
for_groups f zero i h = ok h
for_groups f (suc k) i h = on_group i f h >>= for_groups f k (i + 1)

abbrev each : (Spec → Spec) → ℕ → ℕ → (ℕ → Spec) → ℕ → Spec
each g zero i st = st
each g (suc k) i st = each g k (i + 1) (put st i (g (st i)))

each_below : (g : Spec → Spec) (k i : ℕ) (st : ℕ → Spec) (j : ℕ) → j < i → each g k i st j ≡ st j
each_below g zero i st j l = refl
each_below g (suc k) i st j l =
    each_below g k (i + 1) (put st i (g (st i))) j (omega arith)
    ∙ rw (==-false j i (λ e. omega arith)) refl

each_within :
    (g : Spec → Spec) (k i : ℕ) (st : ℕ → Spec) (j : ℕ)
    → i ≤ j
    → j < i + k
    → each g k i st j ≡ g (st j)
each_within g zero i st j l u = absurd (omega arith)
each_within g (suc k) i st j l u = elim (ℕ_discrete j i) [
  | yes e ↦
      each_below g k (i + 1) (put st i (g (st i))) j (omega arith)
      ∙ rw (==-true j i e) (ap (λ t. g (st t)) (sym e))
  | no ne ↦
      each_within g k (i + 1) (put st i (g (st i))) j (below i j l ne) (omega arith)
      ∙ rw (==-false j i ne) refl
]
  where
    below : (i j : ℕ) → i ≤ j → j ≢ i → i + 1 ≤ j
    below i j l ne = omega arith

module _ (P : Spec → Type 0) (f : GroupState → Run GroupState) (g : Spec → Spec)
    (step : (s : GroupState) (p : Spec)
      → P p
      → IsGroup p.marked_color p.unmarked_color s p.view
      → Returns (Becomes (g p).marked_color (g p).unmarked_color s p.view (g p).view) (f s)) where
  for_groups-each :
      (k i : ℕ) (h : Heap) (st : ℕ → Spec)
      → 5 ≤ i
      → i + k ≤ 25
      → AreGroups h st
      → ((j : ℕ) → i ≤ j → InRange j → P (st j))
      → Returns (λ h'. AreGroups h' (each g k i st) × KeepsHeap h h') (for_groups f k i h)
  unfolding for_groups
  for_groups-each zero i h st l u a p = returns (a, KeepsHeap-refl h)
  for_groups-each (suc k) i h st l u a p =
      let r : InRange i = (l, omega arith) in
      Returns-bind
        (on_group-AreGroups h st i (g (st i)).marked_color (g (st i)).unmarked_color (g (st i)).view
          f r a (step (group_state i h) (st i) (p i (omega arith) r) (a.group i r)))
        (λ h' q.
          Returns-mono
            (for_groups-each k (i + 1) h' (put st i (g (st i))) (omega arith) (omega arith) q.0
              (λ j lj rj. rw (==-false j i (λ e. omega arith)) (p j (omega arith) rj)))
            (λ h'' t. (t.0, KeepsHeap-trans q.1 t.1)))

  -- All groups together.
  pub for_groups-AreGroups :
      (h : Heap) (st : ℕ → Spec)
      → AreGroups h st
      → ((j : ℕ) → InRange j → P (st j))
      → Returns (λ h'. AreGroups h' (λ i. g (st i)) × KeepsHeap h h') (for_groups f 20 5 h)
  for_groups-AreGroups h st a p =
      Returns-mono (for_groups-each 20 5 h st (omega arith) (omega arith) a (λ j l r. p j r))
        (λ h' q. (
          AreGroups-same h' (each g 20 5 st) (λ i. g (st i))
              (λ j r. each_within g 20 5 st j r.0 (omega arith)) q.0,
          q.1,
        ))
