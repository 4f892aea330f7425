-- ===== src/Concurrent/Passes.antt =====
-- The passes of scan_gray_set of rtgc.c over the groups, while mutators store.
use rtgc.Common.{
  ℕ, zero, suc, ◌+◌, ◌≤◌, ◌<◌, ◌≡◌, ◌≢◌, inl, inr, refl, sym, ap, ◌∙◌, [], ◌∷◌, last_or,
  last_or-append, Run, Returns, returns, Returns-bind, Returns-mono, ==-true, ==-false,
  mem-append_right, All-mem, lt→ltb, ltb-false, arith,
}
use mathlib.Core.Path.{subst}
use native.Mathlib.Decide.{ℕ_discrete}
use rtgc.InfoBits.{Ptr, prev_link}
use rtgc.Chain.{IsNode}
use rtgc.Group.View.{View}
use rtgc.Group.Frame.{objects_of}
use rtgc.Heap.{Heap}
use rtgc.Heap.Groups.{InRange}
use rtgc.Heap.Valid.{IsHeap}
use rtgc.Trace.Segments.{IsScanner}
use rtgc.Trace.Total.{total}
use rtgc.Trace.Blacken.{is_gray}
use rtgc.Trace.GraySet.{from_end, below, high, smaller, first-last_gray}
use rtgc.Concurrent.{Shared, scan_back, scan_group, scan_groups, rescan, scan_gray_set}
use rtgc.Concurrent.Snapshot.{AreMarkable, Later, Later-refl, Later-trans}
use rtgc.Concurrent.Stores.{IsGoing}
use rtgc.Concurrent.GraySet.{scan_object_with_group-Blackens}

-- A part of a pass over the groups, with the counts of scanned objects before and after.
record Pass (h0 : Heap) (v0 : ℕ → View) (s : Shared) (v : ℕ → View) (n : ℕ) (s' : Shared)
    (v' : ℕ → View) (n' : ℕ) : Type 0 where
  going : IsGoing h0 v0 v' s'
  later : Later v0 s.heap v s'.heap v'
  count : total 20 5 v' + n' ≡ total 20 5 v + n
  more : n ≤ n'
  idle : n' ≡ n → v' ≡ v

module _ (h0 : Heap) (v0 : ℕ → View) where
  Pass-refl : (s : Shared) (v : ℕ → View) (n : ℕ) → IsGoing h0 v0 v s → Pass h0 v0 s v n s v n
  Pass-refl s v n g = record {
    going = g;
    later = Later-refl v0 s.heap v;
    count = refl;
    more = omega arith;
    idle = λ e. refl;
  }

  Pass-trans :
      (s : Shared) (v : ℕ → View) (n : ℕ) (s1 : Shared) (v1 : ℕ → View) (n1 : ℕ) (s2 : Shared)
      (v2 : ℕ → View) (n2 : ℕ)
      → Pass h0 v0 s v n s1 v1 n1
      → Pass h0 v0 s1 v1 n1 s2 v2 n2
      → Pass h0 v0 s v n s2 v2 n2
  Pass-trans s v n s1 v1 n1 s2 v2 n2 p q = record {
    going = q.going;
    later = Later-trans v0 s.heap v s1.heap v1 s2.heap v2 p.later q.later;
    count = q.count ∙ p.count;
    more = least n n1 n2 p.more q.more;
    idle = λ e. q.idle (high n n1 n2 p.more q.more e) ∙ p.idle (low n n1 n2 p.more q.more e);
  }
    where
      least : (a b c : ℕ) → a ≤ b → b ≤ c → a ≤ c
      least a b c p q = omega arith

      low : (a b c : ℕ) → a ≤ b → b ≤ c → c ≡ a → b ≡ a
      low a b c p q e = omega arith

  -- One object has been scanned.
  one_scanned :
      (s : Shared) (v : ℕ → View) (n : ℕ) (s1 : Shared) (v1 : ℕ → View)
      → IsGoing h0 v0 v1 s1
      → Later v0 s.heap v s1.heap v1
      → total 20 5 v1 + 1 ≡ total 20 5 v
      → Pass h0 v0 s v n s1 v1 (n + 1)
  one_scanned s v n s1 v1 g l t = record {
    going = g;
    later = l;
    count = counted (total 20 5 v1) (total 20 5 v) t;
    more = omega arith;
    idle = λ e. absurd (omega arith);
  }
    where
      counted : (a b : ℕ) → a + 1 ≡ b → a + (n + 1) ≡ b + n
      counted a b e = omega arith

  module _ (valid0 : IsHeap h0 v0) (able : AreMarkable h0 v0)
      (custom_scanner : (low high : Ptr) → Heap → Run Heap) (fuel : ℕ)
      (cs : IsScanner custom_scanner) where
    scan_back-Pass :
        (k i current n : ℕ) (s : Shared) (v : ℕ → View)
        → InRange i
        → IsGoing h0 v0 v s
        → current ≡ last_or 0 (v i).grays
        → total 20 5 v < k
        → Returns
            (λ r. (v' : (ℕ → View)) × Pass h0 v0 s v n r.0 v' r.1 × ((v' i).grays ≡ []))
            (scan_back custom_scanner fuel k i current n s)
    unfolding scan_back
    scan_back-Pass zero i current n s v r g e l = absurd (omega arith)
    scan_back-Pass (suc k) i current n s v r g e l = elim (from_end ((v i).grays)) [
      | inl none ↦
          rw (==-true current 0 (e ∙ ap (last_or 0) none)) (returns (v, Pass-refl s v n g, none))
      | inr (gs, x, f) ↦
          let at_x : current ≡ x = e ∙ ap (last_or 0) f ∙ last_or-append 0 gs (x ∷ []) in
          let mx = is_gray (v i) x (rw f (mem-append_right x gs (x ∷ []) (inl refl))) in
          let node =
            All-mem IsNode x (objects_of (v i)) mx ((g.0.valid.groups.group i r).linked.nodes.0) in
          rw (==-false current 0 (λ z. node.1 (sym at_x ∙ z)), at_x)
            (Returns-bind
              (scan_object_with_group-Blackens h0 v0 valid0 able custom_scanner fuel cs s v i gs x r
                g f)
              (λ s1 (v1, g1, l1, (p, t)).
                Returns-mono
                  (scan_back-Pass k i (prev_link s1.heap.mem x) (n + 1) s1 v1 r g1 p
                    (below (total 20 5 v1) (total 20 5 v) k t l))
                  (λ q (v2, c, none). (
                    v2,
                    Pass-trans s v n s1 v1 (n + 1) q.0 v2 q.1 (one_scanned s v n s1 v1 g1 l1 t) c,
                    none,
                  ))))
    ]

    scan_group-Pass :
        (i n : ℕ) (s : Shared) (v : ℕ → View)
        → InRange i
        → IsGoing h0 v0 v s
        → total 20 5 v < fuel
        → Returns
            (λ r. (v' : (ℕ → View)) × Pass h0 v0 s v n r.0 v' r.1 × ((v' i).grays ≡ []))
            (scan_group custom_scanner fuel i n s)
    unfolding scan_group
    scan_group-Pass i n s v r g l =
        scan_back-Pass fuel i _ n s v r g (first-last_gray s.heap v g.0.valid i r) l

    -- A pass that scans nothing has found no gray object.
    scan_groups-Pass :
        (k i n : ℕ) (s : Shared) (v : ℕ → View)
        → 5 ≤ i
        → i + k ≤ 25
        → IsGoing h0 v0 v s
        → total 20 5 v < fuel
        → Returns
            (λ r.
              (v' : (ℕ → View)) × Pass h0 v0 s v n r.0 v' r.1
              × (r.1 ≡ n → (j : ℕ) → i ≤ j → j < i + k → (v' j).grays ≡ []))
            (scan_groups custom_scanner fuel k i n s)
    unfolding scan_groups
    scan_groups-Pass zero i n s v a b g l =
        returns (v, Pass-refl s v n g, λ e j p q. absurd (omega arith))
    scan_groups-Pass (suc k) i n s v a b g l =
        Returns-bind (scan_group-Pass i n s v (a, omega arith) g l) (λ (s1, n1) (v1, p, none).
          Returns-mono
            (scan_groups-Pass k (i + 1) n1 s1 v1 (omega arith) (omega arith) p.going
              (smaller (total 20 5 v1) n1 (total 20 5 v) n fuel p.count p.more l))
            (λ (s2, n2) (v2, q, rest). (
              v2,
              Pass-trans s v n s1 v1 n1 s2 v2 n2 p q,
              λ e j lj uj. elim (ℕ_discrete i j) [
                | yes same ↦
                    subst (λ u. (u j).grays ≡ []) (sym (q.idle (high n n1 n2 p.more q.more e)))
                      (subst (λ t. (v1 t).grays ≡ []) same none)
                | no ne ↦ rest (high n n1 n2 p.more q.more e) j (omega arith) (omega arith)
              ],
            )))

    -- Nothing is gray.
    abbrev pub Finished : Shared → (ℕ → View) → Shared → Type 0
    Finished s v s' =
        (v' : (ℕ → View)) × IsGoing h0 v0 v' s'
        × Later v0 s.heap v s'.heap v'
        × ((i : ℕ) → InRange i → (v' i).grays ≡ [])

    rescan-Finished :
        (k : ℕ) (s : Shared) (v : ℕ → View)
        → IsGoing h0 v0 v s
        → total 20 5 v < fuel
        → total 20 5 v < k
        → Returns (Finished s v) (rescan custom_scanner fuel k s)
    unfolding rescan
    rescan-Finished zero s v g l u = absurd (omega arith)
    rescan-Finished (suc k) s v g l u =
        Returns-bind (scan_groups-Pass 20 5 0 s v (omega arith) (omega arith) g l)
          (λ (s1, n1) (v1, p, none). elim (ℕ_discrete n1 0) [
            | yes e ↦
                rw (ltb-false 0 n1 (omega arith))
                  (returns (v1, p.going, p.later, λ j r. none e j r.0 (omega (arith, r.1))))
            | no ne ↦
                let fewer = counted (total 20 5 v1) n1 (total 20 5 v) p.count ne in
                rw (lt→ltb 0 n1 (omega arith)) (
                  Returns-mono
                    (rescan-Finished k s1 v1 p.going
                      (under (total 20 5 v1) (total 20 5 v) fuel fewer l)
                      (under_suc (total 20 5 v1) (total 20 5 v) k fewer u))
                    (λ s2 (v2, g2, l2, f).
                      (v2, g2, Later-trans v0 s.heap v s1.heap v1 s2.heap v2 p.later l2, f)))
          ])
      where
        counted : (a n b : ℕ) → a + n ≡ b + 0 → n ≢ 0 → a < b
        counted a n b e ne = omega arith

        under : (a b f : ℕ) → a < b → b < f → a < f
        under a b f p q = omega arith

        under_suc : (a b f : ℕ) → a < b → b < suc f → a < f
        under_suc a b f p q = omega arith

    pub scan_gray_set-Finished :
        (s : Shared) (v : ℕ → View)
        → IsGoing h0 v0 v s
        → total 20 5 v < fuel
        → Returns (Finished s v) (scan_gray_set custom_scanner fuel s)
    unfolding scan_gray_set
    scan_gray_set-Finished s v g l = rescan-Finished fuel s v g l l
