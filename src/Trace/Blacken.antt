-- ===== src/Trace/Blacken.antt =====
-- scan_object_with_group of rtgc.c, in a whole heap.
use rtgc.Common.{
  ℕ, ◌+◌, ◌≤◌, ◌<◌, ◌≡◌, ◌⊎◌, inl, inr, refl, sym, ap, ◌∙◌, ◌∈◌, List, [], ◌∷◌, ◌++◌, length,
  length-append, append_assoc, last_or, Run, ok, Returns, returns, Returns-bind, Returns-mono, ◌==◌,
  Bool-cases, eq_of_==, ==-false, mem-append_left, mem-append_right, arith,
}
use mathlib.Core.Path.{subst}
use rtgc.InfoBits.{Ptr, prev_link}
use rtgc.Chain.Join.{unlink_links}
use rtgc.Group.{blacken}
use rtgc.Group.View.{View, view, IsGroup}
use rtgc.Group.Frame.{objects_of}
use rtgc.Group.Steps.{Becomes, blacken-Becomes}
use rtgc.Heap.{Heap, group_state, on_group}
use rtgc.Heap.Groups.{InRange}
use rtgc.Heap.Valid.{IsHeap, Marks}
use rtgc.Heap.Steps.{put_view, put_view_at, on_group-Marks}
use rtgc.Trace.{scan_object_with_group}
use rtgc.Trace.Words.{Traced}
use rtgc.Trace.Segments.{
  Darker, Darker-trans, Traced-Darker, IsScanner, IsDone, IsDone-later, scan_object-Traced,
}
use rtgc.Trace.Total.{pending, total, total_less}

-- No black object points to a white one.
abbrev pub IsTricolor : Heap → (ℕ → View) → Type 0
IsTricolor h views = (i x : ℕ) → InRange i → x ∈ (views i).blacks → IsDone h views i x

is_black : (v : View) (x : Ptr) → x ∈ v.blacks → x ∈ objects_of v
is_black v x m =
    mem-append_right x v.whites _
      (mem-append_right x v.grays _ (mem-append_left x v.blacks v.greens m))

pub is_gray : (v : View) (x : Ptr) → x ∈ v.grays → x ∈ objects_of v
is_gray v x m = mem-append_right x v.whites _ (mem-append_left x v.grays _ m)

-- The lists when `x`, the last gray object, has turned black, with `gs` before it.
abbrev pub blackened : View → List Ptr → Ptr → View
blackened v gs x = view v.whites gs (x ∷ v.blacks) v.greens

pub blacken-Marks :
    (h : Heap) (v : ℕ → View) (i : ℕ) (gs : List Ptr) (x : Ptr)
    → InRange i
    → IsHeap h v
    → (v i).grays ≡ gs ++ x ∷ []
    → Returns
        (λ h'. Marks h v h' (put_view v i (blackened (v i) gs x)))
        (on_group i (λ s. ok (blacken h.marked_color x s)) h)
blacken-Marks h v i gs x r valid e =
    let w = v i in
    let same : v i ≡ view w.whites (gs ++ x ∷ []) w.blacks w.greens =
      ap (λ (l : List Ptr). view w.whites l w.blacks w.greens) e in
    on_group-Marks h v i (blackened (v i) gs x) (λ s. ok (blacken h.marked_color x s)) r valid
      (returns (
        subst
          (λ u.
            Becomes h.marked_color h.unmarked_color (group_state i h) u (blackened (v i) gs x)
              (blacken h.marked_color x (group_state i h)))
          (sym same)
          (blacken-Becomes h.marked_color h.unmarked_color (group_state i h) w.whites gs x w.blacks
            w.greens (small h.marked_color valid.colors.marked)
            (subst (λ u. IsGroup h.marked_color h.unmarked_color (group_state i h) u) same
              (valid.groups.group i r)))))
  where
    small : (c : ℕ) → c < 2 → c < 4
    small c l = omega arith

module _ (h : Heap) (v : ℕ → View) (i : ℕ) (gs : List Ptr) (x : Ptr) (h' : Heap)
    (m : Marks h v h' (put_view v i (blackened (v i) gs x))) where
  pub blacken-Darker : Darker h v h' (put_view v i (blackened (v i) gs x))
  blacken-Darker = record {
    marks = m;
    whites = λ j a. elim (Bool-cases (j == i)) [
      | inl e ↦ rw (e, eq_of_== j i e) (λ k. k)
      | inr e ↦ rw e (λ k. k)
    ];
    greens =
        λ j. elim (Bool-cases (j == i)) [ inl e ↦ rw (e, eq_of_== j i e) refl | inr e ↦ rw e refl ];
  }

  -- The object before it is the next to scan.
  pub blacken-prev : InRange i → prev_link h'.mem x ≡ last_or 0 gs
  blacken-prev r =
      let g =
        subst (λ u. IsGroup h'.marked_color h'.unmarked_color (group_state i h') u)
          (put_view_at v i (blackened (v i) gs x)) (m.valid.groups.group i r) in
      (unlink_links h'.mem gs x ((v i).blacks ++ (v i).greens) g.linked.main_chain).0

  pub was_black :
      (j y : ℕ)
      → y ∈ (put_view v i (blackened (v i) gs x) j).blacks
      → ((j ≡ i) × (y ≡ x)) ⊎ (y ∈ (v j).blacks)
  was_black j y = elim (Bool-cases (j == i)) [
    | inl e ↦ rw (e, eq_of_== j i e) (λ k. elim k [ inl f ↦ inl (refl, f) | inr f ↦ inr f ])
    | inr e ↦ rw e (λ k. inr k)
  ]

  blacken-IsTricolor :
      IsHeap h v
      → IsTricolor h v
      → IsDone h v i x
      → x ∈ objects_of (v i)
      → IsTricolor h' (put_view v i (blackened (v i) gs x))
  blacken-IsTricolor valid t d mx j y r k = elim (was_black j y k) [
    | inl (e, f) ↦ rw (e, f) (IsDone-later h v valid i (rw (sym e) r) x mx h' _ blacken-Darker d)
    | inr b ↦ IsDone-later h v valid j r y (is_black (v j) y b) h' _ blacken-Darker (t j y r b)
  ]

-- Tracing keeps the invariant: the black objects are the same, and fewer objects are white.
pub IsTricolor-later :
    (h : Heap) (v : ℕ → View) (h' : Heap) (v' : ℕ → View)
    → IsHeap h v
    → Traced h v h' v'
    → IsTricolor h v
    → IsTricolor h' v'
IsTricolor-later h v h' v' valid t c j y r k =
    let b : y ∈ (v j).blacks = subst (λ l. y ∈ l) (t.grays j).blacks k in
    IsDone-later h v valid j r y (is_black (v j) y b) h' v' (Traced-Darker h v h' v' t) (c j y r b)

-- One object less is pending.
blackened-pending :
    (v w : View) (gs : List Ptr) (x : Ptr)
    → pending w ≡ pending v
    → w.grays ≡ gs ++ x ∷ []
    → pending (blackened w gs x) + 1 ≡ pending v
blackened-pending v w gs x e f =
    let l = ap (λ (t : List Ptr). length t) f ∙ length-append gs (x ∷ []) in
    count (length w.whites) (length gs) (length w.grays) l e
  where
    count : (a b c : ℕ) → c ≡ b + 1 → a + c ≡ pending v → a + b + 1 ≡ pending v
    count a b c p q = omega arith

pub blackened-total :
    (v v1 : ℕ → View) (i : ℕ) (gs : List Ptr) (x : Ptr)
    → InRange i
    → ((j : ℕ) → pending (v1 j) ≡ pending (v j))
    → (v1 i).grays ≡ gs ++ x ∷ []
    → total 20 5 (put_view v1 i (blackened (v1 i) gs x)) + 1 ≡ total 20 5 v
blackened-total v v1 i gs x r same e =
    total_less 20 5 i v (put_view v1 i (blackened (v1 i) gs x)) r.0 (top r.1)
      (subst (λ u. pending u + 1 ≡ pending (v i)) (sym (put_view_at v1 i _))
        (blackened-pending (v i) (v1 i) gs x (same i) e))
      (λ n ne. rw (==-false n i ne) (same n))
  where
    top : {i : ℕ} → i ≤ 24 → i < 25
    top l = omega arith

-- One round of the scan of a group: its last gray object is scanned and turns black.
module _ (custom_scanner : (low high : Ptr) → Heap → Run Heap) (fuel : ℕ)
    (cs : IsScanner custom_scanner) where
  pub scan_object_with_group-Darker :
      (h : Heap) (v : ℕ → View) (i : ℕ) (gs : List Ptr) (x : Ptr)
      → InRange i
      → IsHeap h v
      → IsTricolor h v
      → (v i).grays ≡ gs ++ x ∷ []
      → Returns
          (λ h'.
            (v' : (ℕ → View)) × Darker h v h' v'
            × IsTricolor h' v'
            × (prev_link h'.mem x ≡ last_or 0 (v' i).grays)
            × (total 20 5 v' + 1 ≡ total 20 5 v))
          (scan_object_with_group custom_scanner fuel x i h)
  unfolding scan_object_with_group
  scan_object_with_group-Darker h v i gs x r valid c e =
      let mx = is_gray (v i) x (rw e (mem-append_right x gs (x ∷ []) (inl refl))) in
      Returns-bind (scan_object-Traced h v valid i r x mx custom_scanner fuel cs) (λ h1 (v1, t, d).
        let new = (t.grays i).new in
        let e1 =
          (t.grays i).grays
          ∙ ap (λ (l : List Ptr). new ++ l) e
          ∙ sym (append_assoc new gs (x ∷ [])) in
        Returns-mono (blacken-Marks h1 v1 i (new ++ gs) x r t.marks.valid e1) (λ h2 m. (
          put_view v1 i (blackened (v1 i) (new ++ gs) x),
          Darker-trans h v h1 v1 h2 _ (Traced-Darker h v h1 v1 t)
              (blacken-Darker h1 v1 i (new ++ gs) x h2 m),
          blacken-IsTricolor h1 v1 i (new ++ gs) x h2 m t.marks.valid
              (IsTricolor-later h v h1 v1 valid t c) d ((t.marks.members i).0 x mx),
          blacken-prev h1 v1 i (new ++ gs) x h2 m r
              ∙ ap (λ (u : View). last_or 0 u.grays) (sym (put_view_at v1 i _)),
          blackened-total v v1 i (new ++ gs) x r (λ j. (t.grays j).pending) e1,
        )))
