-- ===== src/Inspect/Whites.antt =====
-- verify_white_count and verify_white_counts of rtutil.c on lists.
use rtgc.Common.{
  ℕ, zero, suc, ◌+◌, ◌%◌, ◌≤◌, ◌<◌, ◌≡◌, refl, sym, ap, ◌∙◌, Bool, true, false, not, ◌&&◌, ◌||◌,
  List, [], ◌∷◌, length, head_or, All, Run, ok, ◌>>=◌, guard, debugger, ltb, ◌==◌, ==-true,
  ==-false, arith,
}
use native.Mathlib.Nat.{mod-eq_of_lt}
use rtgc.InfoBits.{Mem, Ptr, prev_link, next_link}
use rtgc.Chain.{IsChain, cons, IsNode}
use rtgc.Chain.Nodes.{AreNodes-left}
use rtgc.Group.{GroupState}
use rtgc.Group.View.{View, IsGroup}
use rtgc.Heap.{Heap, group_state}
use rtgc.Heap.Groups.{InRange, AreGroups, uniform}
use rtgc.Inspect.{count_whites, verify_white_count, verify_white_counts}

-- The objects stand at multiples of the size.
abbrev pub AreAligned : (size : ℕ) → List Ptr → Type 0
AreAligned size xs = All (λ p. p % size ≡ 0) xs

head_aligned : (size : ℕ) (xs : List Ptr) → 0 < size → AreAligned size xs → head_or xs 0 % size ≡ 0
head_aligned size [] l a = mod-eq_of_lt l
head_aligned size (x ∷ xs) l a = a.0

no_bad :
    (b p q : Bool) → (b ≡ true → p ≡ true) → (b ≡ true → q ≡ true) → (b && (not p || not q)) ≡ false
no_bad true p q e f = rw (e refl, f refl) refl
no_bad false p q e f = refl

count_whites-eq-ok :
    (size fuel count before : ℕ) (m : Mem) (xs : List Ptr)
    → 0 < size
    → IsChain m before xs 0
    → All IsNode xs
    → (ltb size 4096 ≡ true → AreAligned size xs)
    → (ltb size 4096 ≡ true → before % size ≡ 0)
    → length xs < fuel
    → count_whites fuel size (head_or xs 0) count m ≡ ok (count + length xs)
unfolding count_whites
count_whites-eq-ok size zero count before m xs z c n a b l = absurd (omega arith)
count_whites-eq-ok size (suc fuel) count before m [] z c n a b l = ap ok (sym (plus_zero count))
  where
    plus_zero : (n : ℕ) → n + 0 ≡ n
    plus_zero n = omega arith
count_whites-eq-ok size (suc fuel) count before m (x ∷ xs) z (cons e f c) n a b l =
    rw
      (
        ==-false x 0 n.0.1,
        no_bad (ltb size 4096) (prev_link m x % size == 0) (next_link m x % size == 0)
            (λ q. ==-true _ 0 (ap (λ (t : ℕ). t % size) e ∙ b q))
            (λ q. ==-true _ 0 (ap (λ (t : ℕ). t % size) f ∙ head_aligned size xs z ((a q).1))),
        f,
      )
      (count_whites-eq-ok size fuel (count + 1) x m xs z c n.1 (λ q. (a q).1) (λ q. (a q).0)
          (omega arith)
        ∙ ap ok (more count (length xs)))
  where
    more : (a b : ℕ) → a + 1 + b ≡ a + suc b
    more a b = omega arith

group-eq-ok :
    (mk un fuel : ℕ) (s : GroupState) (v : View)
    → 0 < s.group.size
    → IsGroup mk un s v
    → (ltb s.group.size 4096 ≡ true → AreAligned s.group.size v.whites)
    → length v.whites < fuel
    → verify_white_count fuel s ≡ ok tt
unfolding verify_white_count
group-eq-ok mk un fuel s v z g a l =
    let n = AreNodes-left v.whites _ g.linked.nodes in
    let counted =
      count_whites-eq-ok s.group.size fuel 0 0 s.mem v.whites z g.linked.white_chain n.0 a
        (λ q. mod-eq_of_lt z) l in
    ap
      (λ (p : Ptr).
        count_whites fuel s.group.size p 0 s.mem >>= λ c. guard (s.group.white_count == c) debugger)
      g.fields.white
    ∙ ap (λ (r : Run ℕ). r >>= λ c. guard (s.group.white_count == c) debugger) counted
    ∙ ap (λ b. guard b debugger)
        (==-true s.group.white_count (0 + length v.whites)
          (g.white_count ∙ sym (zero_plus (length v.whites))))
  where
    zero_plus : (n : ℕ) → 0 + n ≡ n
    zero_plus n = omega arith

-- Where every group represents its lists, its size is not zero, it has fewer white objects than the
-- fuel, and those of a group with less than a page per object stand at multiples of the size, the
-- checks of verify_white_counts all pass.
pub verify_white_counts-eq-ok :
    (h : Heap) (views : ℕ → View) (fuel : ℕ)
    → AreGroups h (uniform h.marked_color h.unmarked_color views)
    → ((i : ℕ) → InRange i → 0 < (h.groups i).size)
    → ((i : ℕ)
        → InRange i
        → ltb (h.groups i).size 4096 ≡ true
        → AreAligned ((h.groups i).size) (views i).whites)
    → ((i : ℕ) → InRange i → length (views i).whites < fuel)
    → verify_white_counts fuel 20 5 h ≡ ok tt
unfolding verify_white_counts
verify_white_counts-eq-ok h views fuel g z a l = from_group 20 5 (omega arith) (omega arith)
  where
    from_group : (k i : ℕ) → 5 ≤ i → i + k ≤ 25 → verify_white_counts fuel k i h ≡ ok tt
    from_group zero i p q = refl
    from_group (suc k) i p q =
        let r : InRange i = (p, omega arith) in
        let passed =
          group-eq-ok h.marked_color h.unmarked_color fuel (group_state i h) (views i) (z i r)
            (g.group i r) (a i r) (l i r) in
        rw passed (from_group k (i + 1) (omega arith) (omega arith))
