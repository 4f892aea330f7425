-- ===== src/Examples/Groups.antt =====
-- The theorems on a group, each at a group of a few objects. The marked color is GENERATION0.
use rtgc.Common.{
  ℕ, ◌+◌, ◌<◌, ◌≡◌, refl, inl, inr, List, [], ◌∷◌, ◌++◌, map, head_or, last_or, length, Returns,
  arith, ◌==◌, if◌then◌else◌,
}
use rtgc.InfoBits.{
  Mem, Ptr, prev_link, next_link, get_color, get_link_pointer, get_link_info, gray, green,
  generation0, generation1,
}
use rtgc.Chain.{AreNodes, IsChain, nil, cons}
use rtgc.Group.{
  GroupState, make_object_gray, flip_group, recycle_group_garbage, take_free, blacken, add_objects,
  remove_object_from_free_list,
}
use rtgc.Group.View.{View, view, main, IsGroup}
use rtgc.Group.Gray.{make_object_gray-IsGroup}
use rtgc.Group.Flip.{flip_group-IsGroup}
use rtgc.Group.Recycle.{recycle_group_garbage-IsGroup}
use rtgc.Group.Allocate.{take_free-IsGroup}
use rtgc.Group.Scan.{blacken-IsGroup}
use rtgc.Group.Extend.{add_objects-IsGroup}
use rtgc.Group.Extend.Objects.{objects}
use rtgc.Group.Remove.{remove_object_from_free_list-IsGroup}

-- The headers of a chain of objects with their colors.
abbrev lay : Ptr → List (Ptr × ℕ) → Mem → Mem
lay prev [] m = m
lay prev ((p, c) ∷ rest) m =
    lay p rest (λ a.
      if a == p then prev + c else if a == p + 8 then head_or (map (λ t. t.0) rest) 0 else m a)

abbrev pub colored : ℕ → List Ptr → List (Ptr × ℕ)
colored c ps = map (λ p. (p, c)) ps

-- The group of 32-byte objects with these lists.
abbrev pub listed : View → GroupState
listed v = record {
  mem = lay 0 (colored generation1 v.whites) (
      lay 0 (colored gray v.grays ++ (colored generation0 v.blacks ++ colored green v.greens))
        (λ a. 0));
  group = record {
    size = 32;
    index = 5;
    last = last_or 0 (main v);
    free = head_or v.greens 0;
    gray = head_or v.grays 0;
    black = head_or (v.blacks ++ v.greens) 0;
    white = head_or v.whites 0;
    white_count = length v.whites;
    black_scanned_count = length v.blacks;
    black_alloc_count = 0;
  };
}

-- A chain from its links, one object after the other.
abbrev pub Links : Mem → Ptr → List Ptr → Type 0
Links m before [] = Unit
Links m before (x ∷ xs) = (prev_link m x ≡ before) × (next_link m x ≡ head_or xs 0) × Links m x xs

pub chain : (m : Mem) (before : Ptr) (xs : List Ptr) → Links m before xs → IsChain m before xs 0
chain m before [] h = nil
chain m before (x ∷ xs) h = cons h.0 h.1 (chain m x xs h.2)

abbrev marking : View
marking = view (32 ∷ []) (64 ∷ []) (96 ∷ []) (128 ∷ 160 ∷ [])

marking-IsGroup : IsGroup generation0 generation1 (listed marking) marking
unfolding prev_link next_link get_color get_link_pointer get_link_info
marking-IsGroup = record {
  fields = record {
    white = refl;
    free = refl;
    last = refl;
    black = inl (refl, λ e. absurd (omega arith));
    gray = inr (refl, λ e. omega arith);
  };
  white_count = refl;
  black_count = refl;
  linked = record {
    nodes = ground arith;
    white_chain = chain _ 0 _ (refl, refl, tt);
    main_chain = chain _ 0 _ (refl, refl, (refl, refl, (refl, refl, (refl, refl, tt))));
    white_color = (refl, tt);
    gray_color = (refl, tt);
    black_color = (refl, tt);
    green_color = (refl, (refl, tt));
  };
}

abbrev marked_out : View
marked_out = view (32 ∷ 64 ∷ []) [] (96 ∷ []) (128 ∷ 160 ∷ [])

marked_out-IsGroup : IsGroup generation0 generation1 (listed marked_out) marked_out
unfolding prev_link next_link get_color get_link_pointer get_link_info
marked_out-IsGroup = record {
  fields = record {
    white = refl;
    free = refl;
    last = refl;
    black = inl (refl, λ e. absurd (omega arith));
    gray = inl (refl, refl);
  };
  white_count = refl;
  black_count = refl;
  linked = record {
    nodes = ground arith;
    white_chain = chain _ 0 _ (refl, refl, (refl, refl, tt));
    main_chain = chain _ 0 _ (refl, refl, (refl, refl, (refl, refl, tt)));
    white_color = (refl, (refl, tt));
    gray_color = tt;
    black_color = (refl, tt);
    green_color = (refl, (refl, tt));
  };
}

abbrev idle : View
idle = view [] [] (96 ∷ 64 ∷ []) (128 ∷ [])

idle-IsGroup : IsGroup generation0 generation1 (listed idle) idle
unfolding prev_link next_link get_color get_link_pointer get_link_info
idle-IsGroup = record {
  fields = record {
    white = refl;
    free = refl;
    last = refl;
    black = inl (refl, λ e. refl);
    gray = inl (refl, refl);
  };
  white_count = refl;
  black_count = refl;
  linked = record {
    nodes = ground arith;
    white_chain = nil;
    main_chain = chain _ 0 _ (refl, refl, (refl, refl, (refl, refl, tt)));
    white_color = tt;
    gray_color = tt;
    black_color = (refl, (refl, tt));
    green_color = (refl, tt);
  };
}

abbrev full : View
full = view (32 ∷ []) [] (96 ∷ []) []

full-IsGroup : IsGroup generation0 generation1 (listed full) full
unfolding prev_link next_link get_color get_link_pointer get_link_info
full-IsGroup = record {
  fields = record {
    white = refl;
    free = refl;
    last = refl;
    black = inl (refl, λ e. refl);
    gray = inl (refl, refl);
  };
  white_count = refl;
  black_count = refl;
  linked = record {
    nodes = ground arith;
    white_chain = chain _ 0 _ (refl, refl, tt);
    main_chain = chain _ 0 _ (refl, refl, tt);
    white_color = (refl, tt);
    gray_color = tt;
    black_color = (refl, tt);
    green_color = tt;
  };
}

room-AreNodes : AreNodes (32 ∷ 96 ∷ objects 32 3 4096)
room-AreNodes = ground arith

small_color : generation0 < 4
small_color = omega arith

make_object_gray-IsGroup_example :
    Returns
      (λ s'. IsGroup 0 1 s' (view [] (32 ∷ 64 ∷ []) (96 ∷ []) (128 ∷ 160 ∷ [])))
      (make_object_gray 1 32 (listed marking))
make_object_gray-IsGroup_example =
    make_object_gray-IsGroup 0 1 (listed marking) [] 32 [] (64 ∷ []) (96 ∷ []) (128 ∷ 160 ∷ [])
      marking-IsGroup

flip_group-IsGroup_example :
    IsGroup 1 0 (flip_group (listed idle)) (view (96 ∷ 64 ∷ []) [] [] (128 ∷ []))
flip_group-IsGroup_example =
    flip_group-IsGroup 0 1 (listed idle) (96 ∷ 64 ∷ []) (128 ∷ []) idle-IsGroup

recycle_group_garbage-IsGroup_example :
    Returns
      (λ s'. IsGroup 0 1 s' (view [] [] (96 ∷ []) (128 ∷ 160 ∷ 32 ∷ 64 ∷ [])))
      (recycle_group_garbage 3 (listed marked_out))
recycle_group_garbage-IsGroup_example =
    recycle_group_garbage-IsGroup 0 1 (listed marked_out) (32 ∷ 64 ∷ []) (96 ∷ []) (128 ∷ 160 ∷ [])
      3 marked_out-IsGroup (omega arith)

take_free-IsGroup_example :
    IsGroup 0 1 (take_free 0 (listed marking)) (view (32 ∷ []) (64 ∷ []) (96 ∷ 128 ∷ []) (160 ∷ []))
take_free-IsGroup_example =
    take_free-IsGroup 0 1 (listed marking) (32 ∷ []) (64 ∷ []) (96 ∷ []) 128 (160 ∷ []) small_color
      marking-IsGroup

blacken-IsGroup_example :
    IsGroup 0 1 (blacken 0 64 (listed marking)) (view (32 ∷ []) [] (64 ∷ 96 ∷ []) (128 ∷ 160 ∷ []))
blacken-IsGroup_example =
    blacken-IsGroup 0 1 (listed marking) (32 ∷ []) [] 64 (96 ∷ []) (128 ∷ 160 ∷ []) small_color
      marking-IsGroup

add_objects-IsGroup_example :
    Returns
      (λ s'. IsGroup 0 1 s' (view (32 ∷ []) [] (96 ∷ []) (objects 32 3 4096)))
      (add_objects 3 4096 (listed full))
add_objects-IsGroup_example =
    add_objects-IsGroup 0 1 (listed full) (32 ∷ []) [] (96 ∷ []) 2 4096 refl full-IsGroup
      room-AreNodes

remove_object_from_free_list-IsGroup_example :
    IsGroup 0 1
      (remove_object_from_free_list 160 (listed marked_out))
      (view (32 ∷ 64 ∷ []) [] (96 ∷ []) (128 ∷ []))
remove_object_from_free_list-IsGroup_example =
    remove_object_from_free_list-IsGroup 0 1 (listed marked_out) (32 ∷ 64 ∷ []) (96 ∷ []) (128 ∷ [])
      160 [] marked_out-IsGroup
