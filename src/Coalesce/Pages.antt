-- ===== src/Coalesce/Pages.antt =====
-- identify_single_free_page of rtcoalesce.c, on the lists of the group of the page.
use rtgc.Common.{
  ℕ, zero, suc, ◌+◌, ◌-◌, ◌*◌, ◌/◌, ◌≤◌, ◌<◌, ◌≡◌, ◌≢◌, ◌⊎◌, inl, inr, refl, sym, ap, ◌∙◌, Bool,
  true, false, List, [], ◌∷◌, ◌++◌, All, ◌∈◌, mem-append, mem-append_left, mem-append_right,
  mem-split, not_mem, All-mem, Bool-cases, eq_of_==, ne_of_==, ==-true, arith,
}
use mathlib.Core.Path.{subst}
use rtgc.InfoBits.{Mem, Ptr, get_color, green, greenp}
use rtgc.Chain.{AreNodes}
use rtgc.Chain.Nodes.{AreNodes-right, AreNodes-middle}
use rtgc.Group.{GroupState}
use rtgc.Group.View.{view, IsGroup}
use rtgc.Group.Frame.{objects_of}
use rtgc.Group.Extend.Objects.{objects}
use rtgc.Group.Remove.{remove_object_from_free_list-IsGroup}
use rtgc.Heap.{Heap, free_page, group_state, page_index_to_ptr}
use rtgc.Heap.Valid.{AreColors}
use rtgc.Coalesce.{all_green_from, all_green_page, remove_objects, identify_single_free_page}

whole_pages : (size k : ℕ) → 0 < size → size * k ≡ 4096 → (4096 + size - 1) / size ≡ k
whole_pages size k p e = grind arith

page_objects : (size k : ℕ) → 0 < size → size * k ≡ 4096 → 4096 / size ≡ k
page_objects size k p e = grind arith

abbrev pub AreGreen : Mem → List Ptr → Type 0
AreGreen m = All (λ a. get_color m a ≡ green)

all_green-AreGreen :
    (k size next : ℕ) (m : Mem)
    → all_green_from k size next m ≡ true
    → AreGreen m (objects size k next)
unfolding all_green_from
all_green-AreGreen zero size next m = λ e. tt
all_green-AreGreen (suc k) size next m = elim (Bool-cases (greenp m next)) [
  | inl f ↦ rw f (λ e. (eq_of_== _ _ f, all_green-AreGreen k size (next + size) m e))
  | inr f ↦ rw f (λ e. absurd (false_ne_true e))
]
  where
    false_ne_true : ◌≡◌ {A = Bool} false true → ⊥
    false_ne_true e = cc

not_AreGreen :
    (k size next : ℕ) (m : Mem)
    → all_green_from k size next m ≡ false
    → AreGreen m (objects size k next)
    → ⊥
unfolding all_green_from
not_AreGreen zero size next m = λ e g. true_ne_false e
  where
    true_ne_false : ◌≡◌ {A = Bool} true false → ⊥
    true_ne_false e = cc
not_AreGreen (suc k) size next m = elim (Bool-cases (greenp m next)) [
  | inl f ↦ rw f (λ e g. not_AreGreen k size (next + size) m e g.1)
  | inr f ↦ λ e g. ne_of_== _ _ f g.0
]

-- The objects from an address on stand at it or behind it.
objects_from : (k size next a : ℕ) → a ∈ objects size k next → next ≤ a
objects_from zero size next a m = absurd m
objects_from (suc k) size next a (inl e) = omega arith
objects_from (suc k) size next a (inr m) = omega (arith, objects_from k size (next + size) a m)

without : (a x : ℕ) (us ys : List ℕ) → a ∈ (us ++ x ∷ ys) → a ≢ x → a ∈ (us ++ ys)
without a x us ys m ne = elim (mem-append a us (x ∷ ys) m) [
  | inl k ↦ mem-append_left a us ys k
  | inr (inl e) ↦ absurd (ne e)
  | inr (inr k) ↦ mem-append_right a us ys k
]

within : (a x : ℕ) (us ys : List ℕ) → a ∈ (us ++ ys) → a ∈ (us ++ x ∷ ys)
within a x us ys m = elim (mem-append a us ys m) [
  | inl k ↦ mem-append_left a us (x ∷ ys) k
  | inr k ↦ mem-append_right a us (x ∷ ys) (inr k)
]

-- The free objects but those of the page.
abbrev pub AreOthers : (page free rest : List Ptr) → Type 0
AreOthers page free rest =
    ((a : ℕ) → a ∈ rest → (a ∈ free) × (a ∈ page → ⊥))
    × ((a : ℕ) → a ∈ free → (a ∈ page → ⊥) → a ∈ rest)

module _ (mk un size : ℕ) (ws bs : List Ptr) (positive : 0 < size) where
  remove_objects-IsGroup :
      (k next : ℕ) (s : GroupState) (gs : List Ptr)
      → IsGroup mk un s (view ws [] bs gs)
      → ((a : ℕ) → a ∈ objects size k next → a ∈ gs)
      → (rest : List Ptr) × IsGroup mk un (remove_objects k size next s) (view ws [] bs rest)
        × AreOthers (objects size k next) gs rest
  unfolding remove_objects
  remove_objects-IsGroup zero next s gs g f = (gs, g, (λ a m. (m, λ n. n), λ a m n. m))
  remove_objects-IsGroup (suc k) next s gs g f =
      let (us, ys, e) = mem-split next gs (f next (inl refl)) in
      let g1 = subst (λ l. IsGroup mk un s (view ws [] bs l)) e g in
      let removed = remove_object_from_free_list-IsGroup mk un s ws bs us next ys g1 in
      let nodes : AreNodes (us ++ next ∷ ys) =
        AreNodes-right bs (us ++ next ∷ ys) (AreNodes-right ws _ g1.linked.nodes) in
      let gone = not_mem next (us ++ ys) ((AreNodes-middle us next ys nodes).1.0) in
      let ahead : (a : ℕ) → a ∈ objects size k (next + size) → a ≢ next =
        λ a m z. behind a (objects_from k size (next + size) a m) z in
      let (rest, r, (left, right)) =
        remove_objects-IsGroup k (next + size) _ (us ++ ys) removed
          (λ a m. without a next us ys (subst (λ l. a ∈ l) e (f a (inr m))) (ahead a m)) in
      (
        rest,
        r,
        (
          λ a m.
              let (n, o) = left a m in
              (
                subst (λ l. a ∈ l) (sym e) (within a next us ys n),
                λ p. elim p [ inl z ↦ gone (subst (λ b. b ∈ (us ++ ys)) z n) | inr q ↦ o q ],
              ),
          λ a m o.
              right a (without a next us ys (subst (λ l. a ∈ l) e m) (λ z. o (inl z)))
                (λ q. o (inr q)),
        ),
      )
    where
      behind : (a : ℕ) → next + size ≤ a → a ≡ next → ⊥
      behind a l z = omega arith

-- A green object is a free one.
green_is_free :
    (mk un : ℕ) (s : GroupState) (ws bs gs : List Ptr) (a : Ptr)
    → AreColors mk un
    → IsGroup mk un s (view ws [] bs gs)
    → a ∈ objects_of (view ws [] bs gs)
    → get_color s.mem a ≡ green
    → a ∈ gs
green_is_free mk un s ws bs gs a c g m e = elim (mem-append a ws (bs ++ gs) m) [
  | inl k ↦
      absurd (
        small (sym e ∙ All-mem (λ n. get_color s.mem n ≡ un) a ws k g.linked.white_color)
          c.unmarked)
  | inr k ↦ elim (mem-append a bs gs k) [
    | inl b ↦
        absurd (
          small (sym e ∙ All-mem (λ n. get_color s.mem n ≡ mk) a bs b g.linked.black_color)
            c.marked)
    | inr b ↦ b
  ]
]
  where
    small : {n : ℕ} → 3 ≡ n → n < 2 → ⊥
    small e l = omega arith

module _ (h : Heap) (page i k : ℕ) (ws bs gs : List Ptr)
    (colors : AreColors h.marked_color h.unmarked_color)
    (g : IsGroup h.marked_color h.unmarked_color (group_state i h) (view ws [] bs gs))
    (positive : 0 < (h.groups i).size) (whole : (h.groups i).size * k ≡ 4096)
    (listed : (a : ℕ)
      → a ∈ objects ((h.groups i).size) k (page_index_to_ptr h page)
      → a ∈ objects_of (view ws [] bs gs)) where
  abbrev on_page : List Ptr
  on_page = objects ((h.groups i).size) k (page_index_to_ptr h page)

  all_green_page-on_page :
      all_green_page page i h
      ≡ all_green_from k ((h.groups i).size) (page_index_to_ptr h page) h.mem
  unfolding all_green_page
  all_green_page-on_page =
      ap (λ n. all_green_from n ((h.groups i).size) (page_index_to_ptr h page) h.mem)
        (whole_pages ((h.groups i).size) k positive whole)

  -- For a group that represents its lists and has nothing gray, whose objects fill the page, all
  -- of them in the lists: if all objects of the page are green, identify_single_free_page takes
  -- them off the free list, the group represents its lists with the other free objects, and the
  -- page is free; if one is not green, nothing changes.
  pub identify_single_free_page-IsGroup :
      (rest : List Ptr) × IsGroup h.marked_color h.unmarked_color
        (group_state i (identify_single_free_page page i h))
        (view ws [] bs rest)
      × ((AreGreen h.mem (objects ((h.groups i).size) k (page_index_to_ptr h page))
            × (((identify_single_free_page page i h).pages page).group ≡ free_page)
            × AreOthers (objects ((h.groups i).size) k (page_index_to_ptr h page)) gs rest)
          ⊎ ((AreGreen h.mem (objects ((h.groups i).size) k (page_index_to_ptr h page)) → ⊥)
              × (identify_single_free_page page i h ≡ h)))
  unfolding identify_single_free_page
  identify_single_free_page-IsGroup =
      let size = (h.groups i).size in
      let base = page_index_to_ptr h page in
      elim (Bool-cases (all_green_page page i h)) [
        | inl e ↦
            let green_all = all_green-AreGreen k size base h.mem (sym all_green_page-on_page ∙ e) in
            let (rest, r, o) =
              remove_objects-IsGroup h.marked_color h.unmarked_color size ws bs positive k base
                (group_state i h) gs g
                (λ a m.
                  green_is_free h.marked_color h.unmarked_color (group_state i h) ws bs gs a colors
                    g (listed a m)
                    (All-mem (λ n. get_color h.mem n ≡ green) a on_page m green_all)) in
            rw (e, page_objects size k positive whole, ==-true i i refl, ==-true page page refl)
              (rest, r, inl (green_all, refl, o))
        | inr e ↦
            rw e
              (gs, g, inr (not_AreGreen k size base h.mem (sym all_green_page-on_page ∙ e), refl))
      ]
