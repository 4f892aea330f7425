-- ===== src/Examples/PairHeaps.antt =====
-- Four stages of a cycle in a heap of two objects.
use rtgc.Common.{ℕ, inl, inr, refl, ◌∈◌, [], ◌∷◌, arith}
use rtgc.InfoBits.{
  prev_link, next_link, get_color, get_link_pointer, get_link_info, get_storage_class,
}
use rtgc.Chain.{nil}
use rtgc.Group.View.{View, view}
use rtgc.Heap.Valid.{IsHeap, AreColors}
use rtgc.Examples.Groups.{chain}
use rtgc.Examples.Pair.{pair, views_of, pair-IsHeap}

-- Both objects black, both white, the first one gray and the first one black.
abbrev pub kept : View
kept = view [] [] (4096 ∷ 8192 ∷ []) []

abbrev pub fresh : View
fresh = view (4096 ∷ 8192 ∷ []) [] [] []

abbrev pub half : View
half = view (8192 ∷ []) (4096 ∷ []) [] []

abbrev pub done : View
done = view (8192 ∷ []) [] (4096 ∷ []) []

colors : AreColors 0 1
colors = record { marked = omega arith; unmarked = omega arith; differ = λ e. omega arith }

pub kept-IsHeap : IsHeap (pair 0 1 kept) (views_of kept)
unfolding prev_link next_link get_color get_link_pointer get_link_info get_storage_class
kept-IsHeap =
    pair-IsHeap 0 1 kept colors
      (record {
        fields = record {
          white = refl;
          free = refl;
          last = refl;
          black = inl (refl, λ e. refl);
          gray = inl (refl, refl);
        };
        white_count = refl;
        black_count = refl;
        linked = record {
          nodes = ground arith;
          white_chain = nil;
          main_chain = chain _ 0 _ (refl, refl, (refl, refl, tt));
          white_color = tt;
          gray_color = tt;
          black_color = (refl, (refl, tt));
          green_color = tt;
        };
      })
      (λ a m. m, λ a m. m) (omega arith, omega arith)

pub fresh-IsHeap : IsHeap (pair 0 1 fresh) (views_of fresh)
unfolding prev_link next_link get_color get_link_pointer get_link_info get_storage_class
fresh-IsHeap =
    pair-IsHeap 0 1 fresh colors
      (record {
        fields = record {
          white = refl;
          free = refl;
          last = refl;
          black = inl (refl, λ e. refl);
          gray = inl (refl, refl);
        };
        white_count = refl;
        black_count = refl;
        linked = record {
          nodes = ground arith;
          white_chain = chain _ 0 _ (refl, refl, (refl, refl, tt));
          main_chain = nil;
          white_color = (refl, (refl, tt));
          gray_color = tt;
          black_color = tt;
          green_color = tt;
        };
      })
      (λ a m. m, λ a m. m) (omega arith, omega arith)

swap : (a x y : ℕ) → a ∈ (x ∷ y ∷ []) → a ∈ (y ∷ x ∷ [])
swap a x y (inl e) = inr (inl e)
swap a x y (inr (inl e)) = inl e
swap a x y (inr (inr m)) = absurd m

pub half-IsHeap : IsHeap (pair 0 1 half) (views_of half)
unfolding prev_link next_link get_color get_link_pointer get_link_info get_storage_class
half-IsHeap =
    pair-IsHeap 0 1 half colors
      (record {
        fields = record {
          white = refl;
          free = refl;
          last = refl;
          black = inr (refl, λ e. cc);
          gray = inr (refl, λ e. omega arith);
        };
        white_count = refl;
        black_count = refl;
        linked = record {
          nodes = ground arith;
          white_chain = chain _ 0 _ (refl, refl, tt);
          main_chain = chain _ 0 _ (refl, refl, tt);
          white_color = (refl, tt);
          gray_color = (refl, tt);
          black_color = tt;
          green_color = tt;
        };
      })
      (λ a. swap a 4096 8192, λ a. swap a 8192 4096) (omega arith, omega arith)

pub done-IsHeap : IsHeap (pair 0 1 done) (views_of done)
unfolding prev_link next_link get_color get_link_pointer get_link_info get_storage_class
done-IsHeap =
    pair-IsHeap 0 1 done colors
      (record {
        fields = record {
          white = refl;
          free = refl;
          last = refl;
          black = inl (refl, λ e. absurd (omega arith));
          gray = inl (refl, refl);
        };
        white_count = refl;
        black_count = refl;
        linked = record {
          nodes = ground arith;
          white_chain = chain _ 0 _ (refl, refl, tt);
          main_chain = chain _ 0 _ (refl, refl, tt);
          white_color = (refl, tt);
          gray_color = tt;
          black_color = (refl, tt);
          green_color = tt;
        };
      })
      (λ a. swap a 4096 8192, λ a. swap a 8192 4096) (omega arith, omega arith)
