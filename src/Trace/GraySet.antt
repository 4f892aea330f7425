-- ===== src/Trace/GraySet.antt =====
-- scan_gray_set of rtgc.c, in a whole heap.
use rtgc.Common.{
  ℕ, zero, suc, ◌+◌, ◌≤◌, ◌<◌, ◌≡◌, ◌≢◌, ◌⊎◌, inl, inr, refl, sym, ap, ◌∙◌, ◌∈◌, List, [], ◌∷◌,
  ◌++◌, last_or, last_or-append, Run, Returns, returns, Returns-bind, Returns-mono, ◌==◌,
  if◌then◌else◌, ==-true, ==-false, mem-append, mem-append_right, All-mem, head_or, Bool, true,
  false, not, ◌&&◌, arith,
}
use mathlib.Core.Path.{subst}
use native.Mathlib.Decide.{ℕ_discrete}
use rtgc.InfoBits.{Ptr, null, prev_link, get_color, grayp, gray, green}
use rtgc.Chain.{IsNode, IsChain}
use rtgc.Chain.Join.{unlink_links}
use rtgc.Group.View.{View}
use rtgc.Group.Frame.{objects_of}
use rtgc.Heap.{Heap}
use rtgc.Heap.Groups.{InRange}
use rtgc.Heap.Valid.{IsHeap}
use rtgc.Trace.{scan_back, scan_group, scan_groups}
use rtgc.Trace.Segments.{Darker, Darker-refl, Darker-trans, IsScanner}
use rtgc.Trace.Total.{total}
use rtgc.Trace.Blacken.{IsTricolor, is_gray, scan_object_with_group-Darker}

-- A part of a pass over the groups, with the counts of scanned objects before and after.
pub record Pass (h : Heap) (v : ℕ → View) (n : ℕ) (h' : Heap) (v' : ℕ → View) (n' : ℕ)
    : Type 0 where
  pub darker : Darker h v h' v'
  pub tricolor : IsTricolor h' v'
  pub count : total 20 5 v' + n' ≡ total 20 5 v + n
  pub more : n ≤ n'
  pub idle : n' ≡ n → v' ≡ v

Pass-refl : (h : Heap) (v : ℕ → View) (n : ℕ) → IsHeap h v → IsTricolor h v → Pass h v n h v n
Pass-refl h v n valid c = record {
  darker = Darker-refl h v valid;
  tricolor = c;
  count = refl;
  more = omega arith;
  idle = λ e. refl;
}

pub smaller : (a b c d f : ℕ) → a + b ≡ c + d → d ≤ b → c < f → a < f
smaller a b c d f e l u = omega arith

pub high : (a b c : ℕ) → a ≤ b → b ≤ c → c ≡ a → c ≡ b
high a b c p q e = omega arith

Pass-trans :
    (h : Heap) (v : ℕ → View) (n : ℕ) (h1 : Heap) (v1 : ℕ → View) (n1 : ℕ) (h2 : Heap)
    (v2 : ℕ → View) (n2 : ℕ)
    → Pass h v n h1 v1 n1
    → Pass h1 v1 n1 h2 v2 n2
    → Pass h v n h2 v2 n2
Pass-trans h v n h1 v1 n1 h2 v2 n2 p q = record {
  darker = Darker-trans h v h1 v1 h2 v2 p.darker q.darker;
  tricolor = q.tricolor;
  count = q.count ∙ p.count;
  more = least n n1 n2 p.more q.more;
  idle = λ e. q.idle (high n n1 n2 p.more q.more e) ∙ p.idle (low n n1 n2 p.more q.more e);
}
  where
    least : (a b c : ℕ) → a ≤ b → b ≤ c → a ≤ c
    least a b c p q = omega arith

    low : (a b c : ℕ) → a ≤ b → b ≤ c → c ≡ a → b ≡ a
    low a b c p q e = omega arith

-- One object has been scanned.
one_scanned :
    (h : Heap) (v : ℕ → View) (n : ℕ) (h1 : Heap) (v1 : ℕ → View)
    → Darker h v h1 v1
    → IsTricolor h1 v1
    → total 20 5 v1 + 1 ≡ total 20 5 v
    → Pass h v n h1 v1 (n + 1)
one_scanned h v n h1 v1 d c t = record {
  darker = d;
  tricolor = c;
  count = counted (total 20 5 v1) (total 20 5 v) t;
  more = omega arith;
  idle = λ e. absurd (omega arith);
}
  where
    counted : (a b : ℕ) → a + 1 ≡ b → a + (n + 1) ≡ b + n
    counted a b e = omega arith

pub below : (a b k : ℕ) → a + 1 ≡ b → b < suc k → a < k
below a b k e l = omega arith

-- A list is empty or has a last member.
pub from_end : (xs : List ℕ) → (xs ≡ []) ⊎ ((us : List ℕ) × (u : ℕ) × (xs ≡ us ++ u ∷ []))
from_end [] = inl refl
from_end (x ∷ xs) = elim (from_end xs) [
  | inl e ↦ inr ([], x, ap (λ t. x ∷ t) e)
  | inr (us, u, e) ↦ inr (x ∷ us, u, ap (λ t. x ∷ t) e)
]

-- The first black or free object is not gray, and the last gray one is before it.
module _ (h : Heap) (v : ℕ → View) (valid : IsHeap h v) (i : ℕ) (r : InRange i) where
  not_gray : (y : Ptr) → y ∈ ((v i).blacks ++ (v i).greens) → grayp h.mem y ≡ false
  not_gray y m = elim (mem-append y (v i).blacks (v i).greens m) [
    | inl k ↦
        let e =
          All-mem (λ n. get_color h.mem n ≡ h.marked_color) y (v i).blacks k
            (valid.groups.group i r).linked.black_color in
        ==-false (get_color h.mem y) 2 (λ f. small (sym e ∙ f) valid.colors.marked)
    | inr k ↦
        let e =
          All-mem (λ n. get_color h.mem n ≡ green) y (v i).greens k
            (valid.groups.group i r).linked.green_color in
        ==-false (get_color h.mem y) 2 (λ f. other (sym f ∙ e))
  ]
    where
      small : {c : ℕ} → c ≡ 2 → c < 2 → ⊥
      small e l = omega arith

      other : ◌≡◌ {A = ℕ} 2 3 → ⊥
      other e = omega arith

  abbrev first : Ptr → Ptr
  first black =
      if not (black == null) && not (grayp h.mem black) then prev_link h.mem black else black

  node_of : (x : Ptr) → x ∈ objects_of (v i) → x ≢ 0
  node_of x m = (All-mem IsNode x (objects_of (v i)) m (valid.groups.group i r).linked.nodes.0).1

  first_behind :
      (l : List Ptr)
      → (v i).blacks ++ (v i).greens ≡ l
      → (head_or l 0 ≡ 0 → (v i).grays ≡ [])
      → first (head_or l 0) ≡ last_or 0 (v i).grays
  first_behind [] e z = ap (last_or 0) (sym (z refl))
  first_behind (y ∷ l) e z =
      let m : y ∈ ((v i).blacks ++ (v i).greens) = rw e (inl refl) in
      let g = (valid.groups.group i r).linked in
      let ne = node_of y (mem-append_right y (v i).whites _ (mem-append_right y (v i).grays _ m)) in
      let chain : IsChain h.mem 0 ((v i).grays ++ y ∷ l) 0 = rw (← e) g.main_chain in
      rw (==-false y 0 ne, not_gray y m) ((unlink_links h.mem (v i).grays y l chain).0)

  first_last : (v i).grays ≢ [] → first (last_or 0 (v i).grays) ≡ last_or 0 (v i).grays
  first_last ne = elim (from_end ((v i).grays)) [
    | inl e ↦ absurd (ne e)
    | inr (gs, x, f) ↦
        let e = ap (last_or 0) f ∙ last_or-append 0 gs (x ∷ []) in
        let m : x ∈ (v i).grays = rw f (mem-append_right x gs (x ∷ []) (inl refl)) in
        let c =
          All-mem (λ n. get_color h.mem n ≡ gray) x (v i).grays m
            (valid.groups.group i r).linked.gray_color in
        rw (e, ==-true (get_color h.mem x) 2 c) (stays (x == 0) x)
  ]
    where
      stays : (b : Bool) (x : Ptr) → (if not b && false then prev_link h.mem x else x) ≡ x
      stays true x = refl
      stays false x = refl

  pub first-last_gray : first ((h.groups i).black) ≡ last_or 0 (v i).grays
  first-last_gray = elim ((valid.groups.group i r).fields.black) [
    | inl (e, z) ↦ rw e (first_behind ((v i).blacks ++ (v i).greens) refl (λ k. z (e ∙ k)))
    | inr (e, ne) ↦ rw e (first_last ne)
  ]

module _ (custom_scanner : (low high : Ptr) → Heap → Run Heap) (fuel : ℕ)
    (cs : IsScanner custom_scanner) where
  scan_back-Pass :
      (k i current n : ℕ) (h : Heap) (v : ℕ → View)
      → InRange i
      → IsHeap h v
      → IsTricolor h v
      → current ≡ last_or 0 (v i).grays
      → total 20 5 v < k
      → Returns
          (λ r. (v' : (ℕ → View)) × Pass h v n r.0 v' r.1 × ((v' i).grays ≡ []))
          (scan_back custom_scanner fuel k i current n h)
  unfolding scan_back
  scan_back-Pass zero i current n h v r valid c e l = absurd (omega arith)
  scan_back-Pass (suc k) i current n h v r valid c e l = elim (from_end ((v i).grays)) [
    | inl none ↦
        rw (==-true current 0 (e ∙ ap (last_or 0) none))
          (returns (v, Pass-refl h v n valid c, none))
    | inr (gs, x, f) ↦
        let at_x : current ≡ x = e ∙ ap (last_or 0) f ∙ last_or-append 0 gs (x ∷ []) in
        let mx = is_gray (v i) x (rw f (mem-append_right x gs (x ∷ []) (inl refl))) in
        let node =
          All-mem IsNode x (objects_of (v i)) mx ((valid.groups.group i r).linked.nodes.0) in
        rw (==-false current 0 (λ z. node.1 (sym at_x ∙ z)), at_x)
          (Returns-bind
            (scan_object_with_group-Darker custom_scanner fuel cs h v i gs x r valid c f)
            (λ h1 (v1, d, c1, p, t).
              Returns-mono
                (scan_back-Pass k i (prev_link h1.mem x) (n + 1) h1 v1 r d.marks.valid c1 p
                  (below (total 20 5 v1) (total 20 5 v) k t l))
                (λ q (v2, s, none). (
                  v2,
                  Pass-trans h v n h1 v1 (n + 1) q.0 v2 q.1 (one_scanned h v n h1 v1 d c1 t) s,
                  none,
                ))))
  ]

  scan_group-Pass :
      (i n : ℕ) (h : Heap) (v : ℕ → View)
      → InRange i
      → IsHeap h v
      → IsTricolor h v
      → total 20 5 v < fuel
      → Returns
          (λ r. (v' : (ℕ → View)) × Pass h v n r.0 v' r.1 × ((v' i).grays ≡ []))
          (scan_group custom_scanner fuel i n h)
  unfolding scan_group
  scan_group-Pass i n h v r valid c l =
      scan_back-Pass fuel i (first h v valid i r ((h.groups i).black)) n h v r valid c
        (first-last_gray h v valid i r) l

  -- A pass that scans nothing has found no gray object.
  pub scan_groups-Pass :
      (k i n : ℕ) (h : Heap) (v : ℕ → View)
      → 5 ≤ i
      → i + k ≤ 25
      → IsHeap h v
      → IsTricolor h v
      → total 20 5 v < fuel
      → Returns
          (λ r.
            (v' : (ℕ → View)) × Pass h v n r.0 v' r.1
            × (r.1 ≡ n → (j : ℕ) → i ≤ j → j < i + k → (v' j).grays ≡ []))
          (scan_groups custom_scanner fuel k i n h)
  unfolding scan_groups
  scan_groups-Pass zero i n h v a b valid c l =
      returns (v, Pass-refl h v n valid c, λ e j p q. absurd (omega arith))
  scan_groups-Pass (suc k) i n h v a b valid c l =
      Returns-bind (scan_group-Pass i n h v (a, omega arith) valid c l) (λ (h1, n1) (v1, p, none).
        Returns-mono
          (scan_groups-Pass k (i + 1) n1 h1 v1 (omega arith) (omega arith) p.darker.marks.valid
            p.tricolor (smaller (total 20 5 v1) n1 (total 20 5 v) n fuel p.count p.more l))
          (λ (h2, n2) (v2, q, rest). (
            v2,
            Pass-trans h v n h1 v1 n1 h2 v2 n2 p q,
            λ e j lj uj. elim (ℕ_discrete i j) [
              | yes s ↦
                  subst (λ u. (u j).grays ≡ []) (sym (q.idle (high n n1 n2 p.more q.more e)))
                    (subst (λ t. (v1 t).grays ≡ []) s none)
              | no ne ↦ rest (high n n1 n2 p.more q.more e) j (omega arith) (omega arith)
            ],
          )))
