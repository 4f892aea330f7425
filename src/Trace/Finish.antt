-- ===== src/Trace/Finish.antt =====
-- The outer loop of scan_gray_set of rtgc.c, in a whole heap.
use rtgc.Common.{
  ℕ, zero, suc, ◌+◌, ◌≤◌, ◌<◌, ◌≡◌, ◌≢◌, [], Run, Returns, returns, Returns-bind, Returns-mono,
  lt→ltb, ltb-false, arith,
}
use native.Mathlib.Decide.{ℕ_discrete}
use rtgc.InfoBits.{Ptr}
use rtgc.Group.View.{View}
use rtgc.Heap.{Heap}
use rtgc.Heap.Groups.{InRange}
use rtgc.Heap.Valid.{IsHeap}
use rtgc.Trace.{rescan, scan_gray_set}
use rtgc.Trace.Segments.{Darker, Darker-trans, IsScanner}
use rtgc.Trace.Total.{total}
use rtgc.Trace.Blacken.{IsTricolor}
use rtgc.Trace.GraySet.{scan_groups-Pass}

-- Marking is over: nothing is gray, and no black object points to a white one.
pub record IsMarked (h : Heap) (views : ℕ → View) : Type 0 where
  pub valid : IsHeap h views
  pub tricolor : IsTricolor h views
  pub no_grays : (i : ℕ) → InRange i → (views i).grays ≡ []

module _ (custom_scanner : (low high : Ptr) → Heap → Run Heap) (fuel : ℕ)
    (cs : IsScanner custom_scanner) where
  abbrev Finished : Heap → (ℕ → View) → Heap → Type 0
  Finished h v h' =
      (v' : (ℕ → View)) × Darker h v h' v' × IsMarked h' v' × (total 20 5 v' ≤ total 20 5 v)

  rescan-IsMarked :
      (k : ℕ) (h : Heap) (v : ℕ → View)
      → IsHeap h v
      → IsTricolor h v
      → total 20 5 v < fuel
      → total 20 5 v < k
      → Returns (Finished h v) (rescan custom_scanner fuel k h)
  unfolding rescan
  rescan-IsMarked zero h v valid c l u = absurd (omega arith)
  rescan-IsMarked (suc k) h v valid c l u =
      Returns-bind
        (scan_groups-Pass custom_scanner fuel cs 20 5 0 h v (omega arith) (omega arith) valid c l)
        (λ (h1, n1) (v1, p, none). elim (ℕ_discrete n1 0) [
          | yes e ↦ rw (ltb-false 0 n1 (omega arith)) (
              returns (
                v1,
                p.darker,
                record {
                  valid = p.darker.marks.valid;
                  tricolor = p.tricolor;
                  no_grays = λ j r. none e j r.0 (omega (arith, r.1));
                },
                no_more (total 20 5 v1) n1 (total 20 5 v) p.count,
              ))
          | no ne ↦
              let fewer = counted (total 20 5 v1) n1 (total 20 5 v) p.count ne in
              rw (lt→ltb 0 n1 (omega arith)) (
                Returns-mono
                  (rescan-IsMarked k h1 v1 p.darker.marks.valid p.tricolor
                    (under (total 20 5 v1) (total 20 5 v) fuel fewer l)
                    (under_suc (total 20 5 v1) (total 20 5 v) k fewer u))
                  (λ h2 (v2, d, m, t). (
                    v2,
                    Darker-trans h v h1 v1 h2 v2 p.darker d,
                    m,
                    under_all (total 20 5 v2) (total 20 5 v1) (total 20 5 v) t fewer,
                  )))
        ])
    where
      counted : (a n b : ℕ) → a + n ≡ b + 0 → n ≢ 0 → a < b
      counted a n b e ne = omega arith

      no_more : (a n b : ℕ) → a + n ≡ b + 0 → a ≤ b
      no_more a n b e = omega arith

      under_all : (a b c : ℕ) → a ≤ b → b < c → a ≤ c
      under_all a b c p q = omega arith

      under : (a b f : ℕ) → a < b → b < f → a < f
      under a b f p q = omega arith

      under_suc : (a b f : ℕ) → a < b → b < suc f → a < f
      under_suc a b f p q = omega arith

  -- In a valid heap where no black object points to a white one, scan_gray_set terminates, if the
  -- client's scanner only traces: with more fuel than there are white and gray objects it returns
  -- a valid heap with no gray object, where still no black object points to a white one,
  -- no object has become white and there are no more white and gray objects than before.
  pub scan_gray_set-IsMarked :
      (h : Heap) (v : ℕ → View)
      → IsHeap h v
      → IsTricolor h v
      → total 20 5 v < fuel
      → Returns
          (λ h'.
            (v' : (ℕ → View)) × Darker h v h' v' × IsMarked h' v' × (total 20 5 v' ≤ total 20 5 v))
          (scan_gray_set custom_scanner fuel h)
  unfolding scan_gray_set
  scan_gray_set-IsMarked h v valid c l = rescan-IsMarked fuel h v valid c l l
