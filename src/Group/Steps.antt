-- ===== src/Group/Steps.antt =====
-- Each operation of the collector on a group as one step that the rest of the heap does not see.
use rtgc.Common.{
  ℕ, ◌+◌, ◌<◌, ◌≡◌, ◌≢◌, inl, inr, refl, sym, ap, ◌∙◌, Returns, returns, List, [], ◌∷◌, ◌++◌, All,
  All-append_left, All-append_right, append-nil, ◌∈◌, SameMembers, mem-append, mem-append_left,
  mem-append_right, append_assoc, length, arith,
}
use rtgc.InfoBits.{Mem, Ptr, set_color, get_storage_class, gray}
use rtgc.Chain.{IsNode}
use rtgc.Chain.Nodes.{All-middle, head_or-Aligned}
use rtgc.Chain.Join.{join, unlink-eq-join}
use rtgc.Group.{GroupState, make_object_gray, flip_group, recycle_group_garbage, blacken}
use rtgc.Group.View.{View, view, IsGroup}
use rtgc.Group.Frame.{
  FarFrom, Keeps, KeepsClasses, objects_of, far-set_prev, far-set_next, far-set_color,
  far-link_next_last, far-link_prev_head, far-join, class_set_prev, class_set_next, class_color,
  class_link_next, class_link_prev,
}
use rtgc.Group.Gray.{grayed, grayed-IsGroup, make_object_gray-eq-grayed, left_white}
use rtgc.Group.Gray.Push.{with_gray}
use rtgc.Group.Flip.{flipped, flipped-IsGroup, flip_group-eq-flipped, after_cut}
use rtgc.Group.Recycle.{
  recycled-IsGroup, recycle-eq-recycled, unrecycled-IsGroup, recycle-eq-unrecycled,
}
use rtgc.Group.Recycle.Sweep.{paint}
use rtgc.Group.Scan.{blacken-IsGroup}

-- The group has made the step from `v` to `v'`, with the colors that hold afterwards.
pub record Becomes (marked_color unmarked_color : ℕ) (s : GroupState) (v v' : View)
    (s' : GroupState) : Type 0 where
  pub result : IsGroup marked_color unmarked_color s' v'
  pub size : s'.group.size ≡ s.group.size
  pub index : s'.group.index ≡ s.group.index
  pub frame : Keeps (objects_of v) s.mem s'.mem
  pub classes : KeepsClasses s.mem s'.mem
  pub members : SameMembers (objects_of v) (objects_of v')

class_join :
    (m : Mem) (xs ys : List Ptr) → All IsNode xs → All IsNode ys → KeepsClasses m (join m xs ys)
class_join m xs ys hx hy q h =
    class_link_prev _ _ _ q (head_or-Aligned ys hy) h
    ∙ class_link_next m _ _ q (head_or-Aligned ys hy)

same_members : (xs : List Ptr) → SameMembers xs xs
same_members xs = (λ a m. m, λ a m. m)

module _ (mk un : ℕ) (s : GroupState) (xs : List Ptr) (x : Ptr) (ys gs bs fs : List Ptr)
    (g : IsGroup mk un s (view (xs ++ x ∷ ys) gs bs fs)) where
  abbrev rest : List Ptr
  rest = gs ++ (bs ++ fs)

  parts :
      (a : ℕ)
      → FarFrom a ((xs ++ x ∷ ys) ++ rest)
      → ((a ≢ x) × (a ≢ x + 8)) × FarFrom a xs × FarFrom a ys × FarFrom a rest
  parts a h =
      let w =
        All-middle (λ n. (a ≢ n) × (a ≢ n + 8)) xs x ys
          (All-append_left (λ n. (a ≢ n) × (a ≢ n + 8)) (xs ++ x ∷ ys) rest h) in
      (
        w.0,
        All-append_left (λ n. (a ≢ n) × (a ≢ n + 8)) xs ys w.1,
        All-append_right (λ n. (a ≢ n) × (a ≢ n + 8)) xs ys w.1,
        All-append_right (λ n. (a ≢ n) × (a ≢ n + 8)) (xs ++ x ∷ ys) rest h,
      )

  IsNode-parts : IsNode x × All IsNode xs × All IsNode ys × All IsNode rest
  IsNode-parts =
      let n = g.linked.nodes.0 in
      let w = All-middle IsNode xs x ys (All-append_left IsNode (xs ++ x ∷ ys) rest n) in
      (
        w.0,
        All-append_left IsNode xs ys w.1,
        All-append_right IsNode xs ys w.1,
        All-append_right IsNode (xs ++ x ∷ ys) rest n,
      )

  gray_frame : Keeps ((xs ++ x ∷ ys) ++ rest) s.mem (grayed mk un s xs x ys gs bs fs g).mem
  gray_frame a h =
      let p = parts a h in
      far-set_color _ x gray a p.0.0
      ∙ far-link_prev_head _ x a rest p.3
      ∙ far-set_next _ x _ a p.0.1
      ∙ far-set_prev _ x 0 a p.0.0
      ∙ ap (λ (t : Mem). t a) (unlink-eq-join s.mem xs x ys g.linked.white_chain)
      ∙ far-join s.mem xs ys a p.1 p.2

  gray_classes : KeepsClasses s.mem (grayed mk un s xs x ys gs bs fs g).mem
  gray_classes q h =
      let p = IsNode-parts in
      class_color _ x gray q p.0.0 h
      ∙ class_link_prev _ _ x q (head_or-Aligned rest p.3) h
      ∙ class_set_next _ x _ q (head_or-Aligned rest p.3)
      ∙ class_set_prev _ x 0 q p.0.0 h
      ∙ ap (λ (t : Mem). get_storage_class t q) (unlink-eq-join s.mem xs x ys g.linked.white_chain)
      ∙ class_join s.mem xs ys p.1 p.2 q h

  gray_members : SameMembers ((xs ++ x ∷ ys) ++ rest) ((xs ++ ys) ++ (x ∷ rest))
  gray_members = (
    λ a m. elim (mem-append a (xs ++ x ∷ ys) rest m) [
      | inl w ↦ elim (mem-append a xs (x ∷ ys) w) [
        | inl k ↦ mem-append_left a (xs ++ ys) (x ∷ rest) (mem-append_left a xs ys k)
        | inr (inl e) ↦ mem-append_right a (xs ++ ys) (x ∷ rest) (inl e)
        | inr (inr k) ↦ mem-append_left a (xs ++ ys) (x ∷ rest) (mem-append_right a xs ys k)
      ]
      | inr k ↦ mem-append_right a (xs ++ ys) (x ∷ rest) (inr k)
    ],
    λ a m. elim (mem-append a (xs ++ ys) (x ∷ rest) m) [
      | inl w ↦ elim (mem-append a xs ys w) [
        | inl k ↦ mem-append_left a (xs ++ x ∷ ys) rest (mem-append_left a xs (x ∷ ys) k)
        | inr k ↦ mem-append_left a (xs ++ x ∷ ys) rest (mem-append_right a xs (x ∷ ys) (inr k))
      ]
      | inr (inl e) ↦ mem-append_left a (xs ++ x ∷ ys) rest (mem-append_right a xs (x ∷ ys) (inl e))
      | inr (inr k) ↦ mem-append_right a (xs ++ x ∷ ys) rest k
    ],
  )

  same_class :
      ((with_gray (left_white mk un s xs x ys gs bs fs g) x).size ≡ s.group.size)
      × ((with_gray (left_white mk un s xs x ys gs bs fs g) x).index ≡ s.group.index)
  same_class = ground arith

  pub gray-Becomes :
      Returns
        (Becomes mk un s (view (xs ++ x ∷ ys) gs bs fs) (view (xs ++ ys) (x ∷ gs) bs fs))
        (make_object_gray un x s)
  gray-Becomes = rw (make_object_gray-eq-grayed mk un s xs x ys gs bs fs g) (
      returns (record {
        result = grayed-IsGroup mk un s xs x ys gs bs fs g;
        size = same_class.0;
        index = same_class.1;
        frame = gray_frame;
        classes = gray_classes;
        members = gray_members;
      }))

module _ (mk un : ℕ) (s : GroupState) (ws gs : List Ptr) (x : Ptr) (bs fs : List Ptr)
    (small : mk < 4) (g : IsGroup mk un s (view ws (gs ++ x ∷ []) bs fs)) where
  black_frame : Keeps (objects_of (view ws (gs ++ x ∷ []) bs fs)) s.mem (blacken mk x s).mem
  unfolding blacken
  black_frame a h =
      let far =
        All-append_left (λ n. (a ≢ n) × (a ≢ n + 8)) (gs ++ x ∷ []) (bs ++ fs)
          (All-append_right (λ n. (a ≢ n) × (a ≢ n + 8)) ws ((gs ++ x ∷ []) ++ (bs ++ fs)) h) in
      far-set_color s.mem x mk a (All-append_right (λ n. (a ≢ n) × (a ≢ n + 8)) gs (x ∷ []) far).0.0

  black-IsNode : IsNode x
  black-IsNode =
      (All-append_right IsNode gs (x ∷ []) (
        All-append_left IsNode (gs ++ x ∷ []) (bs ++ fs)
          (All-append_right IsNode ws ((gs ++ x ∷ []) ++ (bs ++ fs)) g.linked.nodes.0))).0

  pub blacken-Becomes :
      Becomes mk un s (view ws (gs ++ x ∷ []) bs fs) (view ws gs (x ∷ bs) fs) (blacken mk x s)
  unfolding blacken
  blacken-Becomes = record {
    result = blacken-IsGroup mk un s ws gs x bs fs small g;
    size = refl;
    index = refl;
    frame = black_frame;
    classes = λ q h. class_color s.mem x mk q black-IsNode.0 h;
    members =
        rw (append_assoc gs (x ∷ []) (bs ++ fs)) (same_members (ws ++ (gs ++ (x ∷ bs ++ fs))));
  }

module _ (mk un : ℕ) (s : GroupState) (bs fs : List Ptr)
    (g : IsGroup mk un s (view [] [] bs fs)) where
  flip_same :
      ((flipped mk un s bs fs g).group.size ≡ s.group.size)
      × ((flipped mk un s bs fs g).group.index ≡ s.group.index)
  flip_same = both s bs fs
    where
      both :
          (s : GroupState) (bs fs : List Ptr)
          → ((after_cut s.group fs).size ≡ s.group.size)
            × ((after_cut s.group fs).index ≡ s.group.index)
      both s bs [] = (refl, refl)
      both s bs (z ∷ fs) = (refl, refl)

  pub flip-Becomes : Becomes un mk s (view [] [] bs fs) (view bs [] [] fs) (flip_group s)
  flip-Becomes = rw (flip_group-eq-flipped mk un s bs fs g) (record {
    result = flipped-IsGroup mk un s bs fs g;
    size = flip_same.0;
    index = flip_same.1;
    frame = λ a h.
        far-link_prev_head _ 0 a fs (All-append_right (λ n. (a ≢ n) × (a ≢ n + 8)) bs fs h)
        ∙ far-link_next_last s.mem 0 a bs (All-append_left (λ n. (a ≢ n) × (a ≢ n + 8)) bs fs h);
    classes = λ q h.
        class_link_prev _ _ 0 q
          (head_or-Aligned fs (All-append_right IsNode bs fs g.linked.nodes.0)) h
        ∙ class_link_next s.mem _ 0 q refl;
    members = same_members (bs ++ fs);
  })

far-paint : (m : Mem) (xs : List Ptr) (a : ℕ) → FarFrom a xs → paint m xs a ≡ m a
far-paint m [] a h = refl
far-paint m (x ∷ xs) a h = far-paint (set_color m x 3) xs a h.1 ∙ far-set_color m x 3 a h.0.0

class_paint : (m : Mem) (xs : List Ptr) → All IsNode xs → KeepsClasses m (paint m xs)
class_paint m [] n q h = refl
class_paint m (x ∷ xs) n q h =
    class_paint (set_color m x 3) xs n.1 q h ∙ class_color m x 3 q n.0.0 h

swap_members : (xs ys : List Ptr) (a : ℕ) → a ∈ (xs ++ ys) → a ∈ (ys ++ xs)
swap_members xs ys a m = elim (mem-append a xs ys m) [
  | inl k ↦ mem-append_right a ys xs k
  | inr k ↦ mem-append_left a ys xs k
]

-- Recycling, with anything or nothing white.
pub recycle-Becomes :
    (mk un : ℕ) (s : GroupState) (ws bs fs : List Ptr) (fuel : ℕ)
    → IsGroup mk un s (view ws [] bs fs)
    → length ws < fuel
    → Returns
        (Becomes mk un s (view ws [] bs fs) (view [] [] bs (fs ++ ws)))
        (recycle_group_garbage fuel s)
recycle-Becomes mk un s [] bs fs fuel g h =
    rw (append-nil fs, recycle-eq-unrecycled mk un s bs fs g fuel h)
      (returns (record {
        result = unrecycled-IsGroup mk un s bs fs g;
        size = refl;
        index = refl;
        frame = λ a k. refl;
        classes = λ q k. refl;
        members = same_members (bs ++ fs);
      }))
recycle-Becomes mk un s (w ∷ ws) bs fs fuel g h =
    rw (recycle-eq-recycled mk un s w ws bs fs g fuel h) (
      returns (record {
        result = recycled-IsGroup mk un s w ws bs fs g;
        size = refl;
        index = refl;
        frame = λ a k.
            let far = All-append_right (λ n. (a ≢ n) × (a ≢ n + 8)) (w ∷ ws) (bs ++ fs) k in
            let fw = All-append_left (λ n. (a ≢ n) × (a ≢ n + 8)) (w ∷ ws) (bs ++ fs) k in
            far-join _ (bs ++ fs) (w ∷ ws) a far fw
            ∙ far-link_next_last _ 0 a (w ∷ ws) fw
            ∙ far-paint s.mem (w ∷ ws) a fw;
        classes = λ q k.
            let nk = All-append_right IsNode (w ∷ ws) (bs ++ fs) g.linked.nodes.0 in
            let nw = All-append_left IsNode (w ∷ ws) (bs ++ fs) g.linked.nodes.0 in
            class_join _ (bs ++ fs) (w ∷ ws) nk nw q k
            ∙ class_link_next _ _ 0 q refl
            ∙ class_paint s.mem (w ∷ ws) nw q k;
        members =
            rw (sym (append_assoc bs fs (w ∷ ws)))
              (swap_members (w ∷ ws) (bs ++ fs), swap_members (bs ++ fs) (w ∷ ws));
      }))
