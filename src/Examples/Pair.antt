-- ===== src/Examples/Pair.antt =====
-- A heap of two objects of a page each, the group 12, whose lists are chosen: the object at 4096
-- points into the one at 8192, and the word 64 into the first.
use rtgc.Common.{
  ℕ, ◌+◌, ◌-◌, ◌/◌, ◌≤◌, ◌<◌, ◌≡◌, ◌≢◌, ◌⊎◌, inl, inr, refl, sym, ap, ◌∙◌, Bool, true, false, ◌∈◌,
  List, [], ◌∷◌, ◌++◌, map, length, head_or, last_or, Option, none, some, SameMembers, Disjoint-of,
  All-of_mem, ◌==◌, if◌then◌else◌, Bool-cases, eq_of_==, arith,
}
use mathlib.Core.Path.{subst}
use rtgc.InfoBits.{Mem, Ptr, gray, green, get_storage_class}
use rtgc.Chain.{nil}
use rtgc.Group.View.{View, view, main, IsGroup}
use rtgc.Group.Frame.{objects_of}
use rtgc.Heap.{
  Heap, group_page, group_state, ptr_to_page_index, in_partition, interior_to_gcptr_3,
  valid_interior_ptr,
}
use rtgc.Heap.Groups.{AreGroups, uniform}
use rtgc.Heap.Target.{choose, target}
use rtgc.Heap.Valid.{IsHeap, AreColors}
use rtgc.Examples.Groups.{colored}
use rtgc.Examples.Heaps.{one_page}

-- The headers of a chain of objects with pointers.
abbrev lay : Ptr → List (Ptr × ℕ) → Mem → Mem
lay prev [] m = m
lay prev ((p, c) ∷ rest) m = lay p rest (λ a.
    if a == p then prev + c else if a == p + 8 then head_or (map (λ t. t.0) rest) 0 + 1 else m a)

abbrev pub pair : (marked_color unmarked_color : ℕ) → View → Heap
pair mk un v = record one_page {
  mem = lay 0 (colored un v.whites) (
      lay 0 (colored gray v.grays ++ (colored mk v.blacks ++ colored green v.greens))
        (λ a. if a == 4112 then 8200 else if a == 64 then 4100 else 0));
  groups = λ i.
      if i == 12
      then record {
        size = 4096;
        index = 12;
        last = last_or 0 (main v);
        free = head_or v.greens 0;
        gray = head_or v.grays 0;
        black = head_or (v.blacks ++ v.greens) (last_or 0 v.grays);
        white = head_or v.whites 0;
        white_count = length v.whites;
        black_scanned_count = length v.blacks;
        black_alloc_count = 0;
      }
      else one_page.groups i;
  pages = λ i. record { base = if i == 0 then 4096 else 8192; group = group_page 12 };
  last_partition_ptr = 12288;
  total_partition_pages = 2;
  marked_color = mk;
  unmarked_color = un;
  enable_write_barrier = false;
}

abbrev pub views_of : View → ℕ → View
views_of v i = if i == 12 then v else view [] [] [] []

abbrev pub both_objects : List Ptr
both_objects = 4096 ∷ 8192 ∷ []

pub empty-IsGroup :
    (mk un i : ℕ) (m : Mem)
    → IsGroup mk un (record { mem = m; group = one_page.groups i }) (view [] [] [] [])
empty-IsGroup mk un i m = record {
  fields = record {
    white = refl;
    free = refl;
    last = refl;
    black = inl (refl, λ e. refl);
    gray = inl (refl, refl);
  };
  white_count = refl;
  black_count = refl;
  linked = record {
    nodes = (tt, tt);
    white_chain = nil;
    main_chain = nil;
    white_color = tt;
    gray_color = tt;
    black_color = tt;
    green_color = tt;
  };
}

one_of : (b : Bool) → (if b then 4096 else 8192) ∈ both_objects
one_of true = inl refl
one_of false = inr (inl refl)

chosen :
    (b : Bool) (valid : ℕ → Bool) (base : ℕ → Ptr) (i x : ℕ)
    → choose b (some 12) valid base ≡ some (i, x)
    → (i ≡ 12) × (x ≡ base 12)
chosen false valid base i x e = absurd (none_ne_some e)
  where
    none_ne_some : ◌≡◌ {A = Option (ℕ × ℕ)} none (some (i, x)) → ⊥
    none_ne_some e = cc
chosen true valid base i x e = by_valid (valid 12) e
  where
    by_valid :
        (b : Bool)
        → ◌≡◌ {A = Option (ℕ × ℕ)}
            (if◌then◌else◌ {A = Option (ℕ × ℕ)} b (some (12, base 12)) none)
            (some (i, x))
        → (i ≡ 12) × (x ≡ base 12)
    by_valid true e = (
      sym (ap (λ (t : Option (ℕ × ℕ)). first t) e),
      sym (ap (λ (t : Option (ℕ × ℕ)). second t) e),
    )
      where
        first : Option (ℕ × ℕ) → ℕ
        first none = 0
        first (some p) = p.0

        second : Option (ℕ × ℕ) → ℕ
        second none = 0
        second (some p) = p.1
    by_valid false e = absurd (none_ne_some e)
      where
        none_ne_some : ◌≡◌ {A = Option (ℕ × ℕ)} none (some (i, x)) → ⊥
        none_ne_some e = cc

module _ (mk un : ℕ) (v : View) (c : AreColors mk un)
    (g : IsGroup mk un (group_state 12 (pair mk un v)) v)
    (o : SameMembers both_objects (objects_of v))
    (k : (get_storage_class (pair mk un v).mem 4096 < 3)
      × (get_storage_class (pair mk un v).mem 8192 < 3)) where
  -- An object stands in the group 12.
  pub its_place : (i x : ℕ) → x ∈ objects_of (views_of v i) → (i ≡ 12) × ((x ≡ 4096) ⊎ (x ≡ 8192))
  its_place i x = elim (Bool-cases (i == 12)) [
    | inl e ↦ rw e (λ m. (
      eq_of_== i 12 e,
      elim (o.1 x m) [ inl a ↦ inl a | inr (inl a) ↦ inr a | inr (inr a) ↦ elim a [ ] ],
    ))
    | inr e ↦ rw e (λ m. absurd m)
  ]

  far :
      (a x : ℕ)
      → (x ≡ 4096) ⊎ (x ≡ 8192)
      → x + 16 ≤ a
      → a < x + 4096
      → (b : ℕ) → (b ≡ 4096) ⊎ (b ≡ 8192)
      → (a ≢ b) × (a ≢ b + 8)
  far a x (inl e) l u b (inl f) = (λ q. omega arith, λ q. omega arith)
  far a x (inl e) l u b (inr f) = (λ q. omega arith, λ q. omega arith)
  far a x (inr e) l u b (inl f) = (λ q. omega arith, λ q. omega arith)
  far a x (inr e) l u b (inr f) = (λ q. omega arith, λ q. omega arith)

  pair-AreGroups : AreGroups (pair mk un v) (uniform mk un (views_of v))
  pair-AreGroups = record {
    group = λ i r. elim (Bool-cases (i == 12)) [
      | inl e ↦ rw e g
      | inr e ↦ rw e (empty-IsGroup mk un i _)
    ];
    apart =
        λ i j r q ne. Disjoint-of _ _ (λ x a b. ne ((its_place i x a).0 ∙ sym (its_place j x b).0));
  }

  pub pair-IsHeap : IsHeap (pair mk un v) (views_of v)
  unfolding target ptr_to_page_index interior_to_gcptr_3
  pair-IsHeap = record {
    colors = c;
    groups = pair-AreGroups;
    targets = λ w i base e.
        let h = pair mk un v in
        let page = h.pages (ptr_to_page_index h w) in
        let q : (i ≡ 12) × (base ≡ (if (w - 4096) / 4096 == 0 then 4096 else 8192)) =
          chosen (in_partition h w)
            (λ n. valid_interior_ptr (interior_to_gcptr_3 w page (h.groups n)) w)
            (λ n. interior_to_gcptr_3 w page (h.groups n)) i base e in
        rw q.0
          ((omega arith, omega arith), o.0 base (rw q.1 (one_of ((w - 4096) / 4096 == 0))), refl);
    payload = λ i x a r m d l u. (
      d,
      λ j s.
          let p = its_place i x m in
          let u' : a < x + 4096 = subst (λ n. a < x + ((pair mk un v).groups n).size) p.0 u in
          All-of_mem (λ n. (a ≢ n) × (a ≢ n + 8)) (objects_of (views_of v j))
            (λ b t. far a x p.1 l u' b (its_place j b t).1),
    );
    classes = λ i x r m. elim ((its_place i x m).1) [ inl e ↦ rw e k.0 | inr e ↦ rw e k.1 ];
  }
