-- ===== src/Examples/Pages.antt =====
-- The theorem on free pages, at a heap whose two objects are free.
use rtgc.Common.{ℕ, ◌≡◌, ◌⊎◌, inl, inr, refl, ◌∈◌, List, [], ◌∷◌, arith}
use rtgc.InfoBits.{Ptr, prev_link, next_link, get_color, get_link_pointer, get_link_info}
use rtgc.Chain.{nil}
use rtgc.Group.View.{view, IsGroup}
use rtgc.Heap.{Heap, group_state, free_page, page_index_to_ptr}
use rtgc.Heap.Valid.{AreColors}
use rtgc.Coalesce.{identify_single_free_page}
use rtgc.Coalesce.Pages.{AreGreen, AreOthers, identify_single_free_page-IsGroup}
use rtgc.Examples.Groups.{chain}
use rtgc.Examples.Pair.{pair}

abbrev both_free : Heap
both_free = pair 0 1 (view [] [] [] (4096 ∷ 8192 ∷ []))

both_free-IsGroup : IsGroup 0 1 (group_state 12 both_free) (view [] [] [] (4096 ∷ 8192 ∷ []))
unfolding prev_link next_link get_color get_link_pointer get_link_info
both_free-IsGroup = record {
  fields = record {
    white = refl;
    free = refl;
    last = refl;
    black = inl (refl, λ e. refl);
    gray = inl (refl, refl);
  };
  white_count = refl;
  black_count = refl;
  linked = record {
    nodes = ground arith;
    white_chain = nil;
    main_chain = chain _ 0 _ (refl, refl, (refl, refl, tt));
    white_color = tt;
    gray_color = tt;
    black_color = tt;
    green_color = (refl, (refl, tt));
  };
}

colors : AreColors 0 1
colors = record { marked = omega arith; unmarked = omega arith; differ = λ e. omega arith }

second_page : (a : ℕ) → a ∈ (page_index_to_ptr both_free 1 ∷ []) → a ∈ (4096 ∷ 8192 ∷ [])
unfolding page_index_to_ptr
second_page a (inl e) = inr (inl e)
second_page a (inr m) = absurd m

identify_single_free_page-IsGroup_example :
    (rest : List Ptr) × IsGroup 0 1
      (group_state 12 (identify_single_free_page 1 12 both_free))
      (view [] [] [] rest)
    × ((AreGreen both_free.mem (page_index_to_ptr both_free 1 ∷ [])
          × (((identify_single_free_page 1 12 both_free).pages 1).group ≡ free_page)
          × AreOthers (page_index_to_ptr both_free 1 ∷ []) (4096 ∷ 8192 ∷ []) rest)
        ⊎ ((AreGreen both_free.mem (page_index_to_ptr both_free 1 ∷ []) → ⊥)
            × (identify_single_free_page 1 12 both_free ≡ both_free)))
identify_single_free_page-IsGroup_example =
    identify_single_free_page-IsGroup both_free 1 12 1 [] [] (4096 ∷ 8192 ∷ []) colors
      both_free-IsGroup (omega arith) refl second_page
