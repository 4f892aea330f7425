-- ===== src/Examples/LargePages.antt =====
-- The theorem on verify_heap, at a heap of two objects of two pages each.
use rtgc.Common.{
  ℕ, ◌≤◌, ◌≡◌, inl, inr, refl, sym, ◌∙◌, ◌∈◌, [], ◌∷◌, ok, ◌==◌, if◌then◌else◌, Bool-cases,
  Disjoint-of, eq_of_==, arith,
}
use rtgc.InfoBits.{prev_link, next_link, get_color, get_link_pointer, get_link_info}
use rtgc.Chain.{nil}
use rtgc.Group.View.{View, view}
use rtgc.Group.Frame.{objects_of}
use rtgc.Heap.{Heap, group_page, page_index_to_ptr}
use rtgc.Heap.Groups.{AreGroups, uniform}
use rtgc.Room.Conserved.{IsTiled, end, large}
use rtgc.Inspect.{verify_heap}
use rtgc.Inspect.Pages.{HaveHeaders, verify_heap-eq-ok}
use rtgc.Examples.Groups.{chain}
use rtgc.Examples.Heaps.{one_page}
use rtgc.Examples.Pair.{empty-IsGroup}

-- Both objects are black.
abbrev both_large : Heap
both_large = record one_page {
  mem = λ a. if a == 4104 then 12288 else if a == 12288 then 4096 else 0;
  groups = λ i.
      if i == 13
      then record {
        size = 8192;
        index = 13;
        last = 12288;
        free = 0;
        gray = 0;
        black = 4096;
        white = 0;
        white_count = 0;
        black_scanned_count = 2;
        black_alloc_count = 0;
      }
      else one_page.groups i;
  pages = λ i. record { base = if i == 0 then 4096 else 12288; group = group_page 13 };
  last_partition_ptr = 20480;
  total_partition_pages = 4;
}

abbrev blacks : ℕ → View
blacks i = if i == 13 then view [] [] (4096 ∷ 12288 ∷ []) [] else view [] [] [] []

its_place : (i x : ℕ) → x ∈ objects_of (blacks i) → (i ≡ 13) × (4096 ≤ x)
its_place i x = elim (Bool-cases (i == 13)) [
  | inl e ↦ rw e (λ m. (
    eq_of_== i 13 e,
    elim m [ inl a ↦ at_least a | inr (inl a) ↦ beyond a | inr (inr a) ↦ elim a [ ] ],
  ))
  | inr e ↦ rw e (λ m. absurd m)
]
  where
    at_least : x ≡ 4096 → 4096 ≤ x
    at_least a = omega arith

    beyond : x ≡ 12288 → 4096 ≤ x
    beyond a = omega arith

both_large-AreGroups : AreGroups both_large (uniform 0 1 blacks)
unfolding prev_link next_link get_color get_link_pointer get_link_info
both_large-AreGroups = record {
  group = λ i r. elim (Bool-cases (i == 13)) [
    | inl e ↦ rw e (record {
      fields = record {
        white = refl;
        free = refl;
        last = refl;
        black = inl (refl, λ q. refl);
        gray = inl (refl, refl);
      };
      white_count = refl;
      black_count = refl;
      linked = record {
        nodes = ground arith;
        white_chain = nil;
        main_chain = chain _ 0 _ (refl, refl, (refl, refl, tt));
        white_color = tt;
        gray_color = tt;
        black_color = (refl, (refl, tt));
        green_color = tt;
      };
    })
    | inr e ↦ rw e (empty-IsGroup 0 1 i _)
  ];
  apart =
      λ i j r q ne. Disjoint-of _ _ (λ x a b. ne ((its_place i x a).0 ∙ sym (its_place j x b).0));
}

abbrev both_large-IsTiled : IsTiled both_large 0
both_large-IsTiled =
    large 13 refl (omega arith, omega arith) refl refl (omega arith)
      (large 13 refl (omega arith, omega arith) refl refl (omega arith) (end refl))

both_large-HaveHeaders : HaveHeaders both_large blacks both_large-IsTiled
unfolding page_index_to_ptr
both_large-HaveHeaders = (inl refl, (inr (inl refl), tt))

verify_heap-eq-ok_example : verify_heap 5 both_large ≡ ok tt
verify_heap-eq-ok_example =
    verify_heap-eq-ok both_large blacks both_large-AreGroups (λ i x r m. (its_place i x m).1) 5
      both_large-IsTiled both_large-HaveHeaders (omega arith)
