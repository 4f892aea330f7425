-- ===== src/Trace/Words.antt =====
-- RTtrace_pointer of rtgc.c on any word, in a whole heap.
use rtgc.Common.{
  ℕ, ◌<◌, ◌≡◌, inl, inr, refl, sym, ap, ◌∙◌, Bool, true, false, ◌∈◌, List, [], ◌∷◌, ◌++◌, Option,
  none, some, Returns, returns, Returns-mono, ◌==◌, Bool-cases, eq_of_==, ==-true, mem-append,
  mem-append_left, mem-split, mem-append_right, length-append, All-mem, not_mem, arith,
}
use mathlib.Core.Path.{subst}
use rtgc.InfoBits.{Ptr, get_color, gray, green}
use rtgc.Chain.{AreNodes}
use rtgc.Chain.Nodes.{AreNodes-left, AreNodes-middle}
use rtgc.Group
use rtgc.Group.View.{View, view, IsGroup}
use rtgc.Group.Frame.{objects_of}
use rtgc.Group.Steps.{Becomes, gray-Becomes}
use rtgc.Heap.{Heap, whitep, group_page, ptr_to_page_index, group_state}
use rtgc.Heap.Groups.{InRange}
use rtgc.Heap.Target.{target, target-KeepsHeap, trace_target, trace_pointer-eq-trace_target}
use rtgc.Heap.Valid.{
  IsHeap, AreColors, Grays, Grays-refl, Grays-trans, Marks, Marks-refl, Marks-trans,
}
use rtgc.Heap.Steps.{put_view, on_group-Marks}
use rtgc.Trace.{make_object_gray, trace_pointer}
use rtgc.Trace.Pointer.{in_its_group}

-- Tracing has turned white objects gray and kept the rest.
pub record Traced (h : Heap) (views : ℕ → View) (h' : Heap) (views' : ℕ → View) : Type 0 where
  pub marks : Marks h views h' views'
  pub grays : (i : ℕ) → Grays (views i) (views' i)

pub Traced-refl : (h : Heap) (views : ℕ → View) → IsHeap h views → Traced h views h views
Traced-refl h views v = record { marks = Marks-refl h views v; grays = λ i. Grays-refl (views i) }

pub Traced-trans :
    (h : Heap) (v : ℕ → View) (h1 : Heap) (v1 : ℕ → View) (h2 : Heap) (v2 : ℕ → View)
    → Traced h v h1 v1
    → Traced h1 v1 h2 v2
    → Traced h v h2 v2
Traced-trans h v h1 v1 h2 v2 t k = record {
  marks = Marks-trans h v h1 v1 h2 v2 t.marks k.marks;
  grays = λ i. Grays-trans (t.grays i) (k.grays i);
}

-- The word does not point to a white object.
abbrev pub IsShaded : Heap → (ℕ → View) → ℕ → Type 0
IsShaded h views w = (i base : ℕ) → target h w ≡ some (i, base) → base ∈ (views i).whites → ⊥

-- Only white objects have the unmarked color.
pub white_of_color :
    (mk un : ℕ) (s : Group.GroupState) (v : View) (x : Ptr)
    → AreColors mk un
    → IsGroup mk un s v
    → x ∈ objects_of v
    → get_color s.mem x ≡ un
    → x ∈ v.whites
white_of_color mk un s v x c g m e = elim (mem-append x v.whites _ m) [
  | inl k ↦ k
  | inr k ↦ elim (mem-append x v.grays _ k) [
    | inl a ↦ absurd (
        not_two (sym (All-mem (λ n. get_color s.mem n ≡ gray) x v.grays a g.linked.gray_color) ∙ e)
          c.unmarked)
    | inr a ↦ elim (mem-append x v.blacks _ a) [
      | inl b ↦ absurd (
          c.differ
            (sym (All-mem (λ n. get_color s.mem n ≡ mk) x v.blacks b g.linked.black_color) ∙ e))
      | inr b ↦ absurd (
          not_three
            (sym (All-mem (λ n. get_color s.mem n ≡ green) x v.greens b g.linked.green_color) ∙ e)
            c.unmarked)
    ]
  ]
]
  where
    not_two : 2 ≡ un → un < 2 → ⊥
    not_two a b = omega arith

    not_three : 3 ≡ un → un < 2 → ⊥
    not_three a b = omega arith

module _ (h : Heap) (views : ℕ → View) (valid : IsHeap h views) (i : ℕ) (r : InRange i)
    (base : Ptr) where
  -- What making the object gray does to the lists of its group, with the object behind `xs`.
  abbrev shaded : (xs ys : List Ptr) → View
  shaded xs ys = view (xs ++ ys) (base ∷ (views i).grays) (views i).blacks (views i).greens

  shaded-Grays :
      (xs ys : List Ptr) → (views i).whites ≡ xs ++ base ∷ ys → Grays (views i) (shaded xs ys)
  shaded-Grays xs ys e = record {
    whites = λ a m. rw e (elim (mem-append a xs ys m) [
      | inl k ↦ mem-append_left a xs (base ∷ ys) k
      | inr k ↦ mem-append_right a xs (base ∷ ys) (inr k)
    ]);
    new = base ∷ [];
    grays = refl;
    pending = rw (e, length-append xs ys, length-append xs (base ∷ ys)) (omega arith);
    blacks = refl;
    greens = refl;
  }

  gone : (xs ys : List Ptr) → (views i).whites ≡ xs ++ base ∷ ys → base ∈ (xs ++ ys) → ⊥
  gone xs ys e m =
      let n : AreNodes (xs ++ base ∷ ys) =
        rw (← e) (AreNodes-left (views i).whites _ (valid.groups.group i r).linked.nodes) in
      not_mem base (xs ++ ys) ((AreNodes-middle xs base ys n).1.0) m

  step :
      (xs ys : List Ptr)
      → (views i).whites ≡ xs ++ base ∷ ys
      → Returns
          (Becomes h.marked_color h.unmarked_color (group_state i h) (views i) (shaded xs ys))
          (Group.make_object_gray h.unmarked_color base (group_state i h))
  step xs ys e =
      let v = views i in
      let same : views i ≡ view (xs ++ base ∷ ys) v.grays v.blacks v.greens =
        ap (λ (l : List Ptr). view l v.grays v.blacks v.greens) e in
      subst
        (λ u.
          Returns (Becomes h.marked_color h.unmarked_color (group_state i h) u (shaded xs ys))
            (Group.make_object_gray h.unmarked_color base (group_state i h)))
        (sym same)
        (gray-Becomes h.marked_color h.unmarked_color (group_state i h) xs base ys v.grays v.blacks
          v.greens
          (subst (λ u. IsGroup h.marked_color h.unmarked_color (group_state i h) u) same
            (valid.groups.group i r)))

  pub to_gray :
      base ∈ (views i).whites
      → (h.pages (ptr_to_page_index h base)).group ≡ group_page i
      → Returns
          (λ h'.
            (v' : View) × Marks h views h' (put_view views i v')
            × Grays (views i) v'
            × (base ∈ v'.whites → ⊥))
          (make_object_gray base h)
  to_gray m p =
      let (xs, ys, e) = mem-split base (views i).whites m in
      rw (in_its_group h base i p) (
        Returns-mono
          (on_group-Marks h views i (shaded xs ys) (Group.make_object_gray h.unmarked_color base) r
            valid (step xs ys e))
          (λ h' k. (shaded xs ys, k, shaded-Grays xs ys e, gone xs ys e)))

  pub put_Traced :
      (h' : Heap) (v' : View)
      → Marks h views h' (put_view views i v')
      → Grays (views i) v'
      → Traced h views h' (put_view views i v')
  put_Traced h' v' k g = record {
    marks = k;
    grays = λ j. elim (Bool-cases (j == i)) [
      | inl e ↦ rw (e, eq_of_== j i e) g
      | inr e ↦ rw e (Grays-refl (views j))
    ];
  }

pub is_white :
    (h : Heap) (views : ℕ → View)
    → IsHeap h views
    → (i base : ℕ) → InRange i
    → base ∈ (views i).whites
    → whitep h base ≡ true
is_white h views valid i base r m = ==-true _ _ (
    All-mem (λ n. get_color h.mem n ≡ h.unmarked_color) base (views i).whites m
      (valid.groups.group i r).linked.white_color)

module _ (h : Heap) (views : ℕ → View) (valid : IsHeap h views) (w : ℕ) where
  trace_some :
      (i base : ℕ)
      → target h w ≡ some (i, base)
      → Returns
          (λ h'. (views' : (ℕ → View)) × Traced h views h' views' × (base ∈ (views' i).whites → ⊥))
          (trace_target h (some (i, base)))
  trace_some i base e =
      let t = valid.targets w i base e in
      elim (Bool-cases (whitep h base)) [
        | inl white ↦
            let m =
              white_of_color h.marked_color h.unmarked_color (group_state i h) (views i) base
                valid.colors (valid.groups.group i t.0) t.1 (eq_of_== _ _ white) in
            rw white (
              Returns-mono (to_gray h views valid i t.0 base m t.2) (λ h' q. (
                put_view views i q.0,
                put_Traced h views valid i t.0 base h' q.0 q.1 q.2,
                rw (==-true i i refl) q.3,
              )))
        | inr other ↦ rw other (
            returns (
              views,
              Traced-refl h views valid,
              λ m. true_ne_false (sym (is_white h views valid i base t.0 m) ∙ other),
            ))
      ]
    where
      true_ne_false : ◌≡◌ {A = Bool} true false → ⊥
      true_ne_false e = cc

  trace_by_target :
      (o : Option (ℕ × ℕ))
      → target h w ≡ o
      → Returns
          (λ h'. (views' : (ℕ → View)) × Traced h views h' views' × IsShaded h views' w)
          (trace_target h o)
  trace_by_target none e =
      returns (views, Traced-refl h views valid, λ i base k m. absurd (none_ne_some (sym e ∙ k)))
    where
      none_ne_some : {x : ℕ × ℕ} → ◌≡◌ {A = Option (ℕ × ℕ)} none (some x) → ⊥
      none_ne_some e = cc
  trace_by_target (some (i, base)) e = Returns-mono (trace_some i base e) (λ h' q. (
    q.0,
    q.1,
    λ j b k m.
        let same = some_inj (sym e ∙ k) in
        q.2 (rw (ap (λ (t : ℕ × ℕ). t.0) same, ap (λ (t : ℕ × ℕ). t.1) same) m),
  ))
    where
      some_inj : {x y : ℕ × ℕ} → ◌≡◌ {A = Option (ℕ × ℕ)} (some x) (some y) → x ≡ y
      some_inj e = cc

-- In a valid heap, RTtrace_pointer returns for every word whatever, and leaves a valid heap: some
-- white objects have become gray, and the word then does not point to a white object.
pub trace_pointer-Traced :
    (h : Heap) (views : ℕ → View) (w : ℕ)
    → IsHeap h views
    → Returns
        (λ h'. (views' : (ℕ → View)) × Traced h views h' views' × IsShaded h' views' w)
        (trace_pointer w h)
trace_pointer-Traced h views w valid = rw (trace_pointer-eq-trace_target h w) (
    Returns-mono (trace_by_target h views valid w (target h w) refl) (λ h' (v', t, s).
      (v', t, λ i b e m. s i b (sym (target-KeepsHeap h h' w t.marks.keeps) ∙ e) m)))
