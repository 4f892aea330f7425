-- ===== src/Collect/Groups.antt =====
-- The loops of flip and of recycle_all_garbage in rtgc.c over all groups.
use rtgc.Common.{
  ℕ, zero, suc, ◌+◌, ◌%◌, ◌<◌, ◌≡◌, ◌⊎◌, inl, inr, refl, sym, ap, ap₂, true, false, [], ◌++◌,
  SameMembers, length, Run, ok, ◌>>=◌, ◌>>◌, guard, assertion, Returns, returns, Returns-bind,
  Returns-mono,
}
use mathlib.Core.Path.{fun_ext, subst}
use mathlib.Core.Bool.{not}
use rtgc.Group.{GroupState, flip_group, recycle_group_garbage}
use rtgc.Group.View.{View, view, IsGroup}
use rtgc.Group.Steps.{Becomes, flip-Becomes, recycle-Becomes}
use rtgc.Heap.{Heap, on_group}
use rtgc.Heap.Groups.{
  InRange, Spec, AreGroups, KeepsHeap, KeepsShape, KeepsTable, KeepsHeap-KeepsShape,
  KeepsShape-KeepsTable, uniform, uniform_recolored,
}
use rtgc.InfoBits.{Mem, Ptr}
use rtgc.Heap.Valid.{IsHeap, IsPayload, AreColors, IsPayload-members, moved}
use rtgc.Heap.Written.{with_mem, with_mem-IsHeap}
use rtgc.Group.Frame.{objects_of}
use rtgc.Heap.Each.{for_groups, for_groups-AreGroups}
use rtgc.Collect.{Roots, flip_groups, start_cycle, flip, recycle_groups}

-- Nothing is gray, or nothing is white or gray.
abbrev pub NothingGray : View → Type 0
NothingGray v = v.grays ≡ []

abbrev pub IsIdle : View → Type 0
IsIdle v = (v.whites ≡ []) × (v.grays ≡ [])

abbrev pub flipped_view : View → View
flipped_view v = view v.blacks [] [] v.greens

abbrev pub recycled_view : View → View
recycled_view v = view [] [] v.blacks (v.greens ++ v.whites)

flip_groups-eq-for_groups :
    (k i : ℕ) (h : Heap) → flip_groups k i h ≡ for_groups (λ s. ok (flip_group s)) k i h
unfolding flip_groups for_groups
flip_groups-eq-for_groups zero i h = refl
flip_groups-eq-for_groups (suc k) i h =
    ap (λ (t : Heap → Run Heap). on_group i (λ s. ok (flip_group s)) h >>= t)
      (fun_ext (flip_groups-eq-for_groups k (i + 1)))

abbrev flipped_spec : Spec → Spec
flipped_spec p = record {
  marked_color = p.unmarked_color;
  unmarked_color = p.marked_color;
  view = flipped_view p.view;
}

flip_step :
    (s : GroupState) (p : Spec)
    → IsIdle p.view
    → IsGroup p.marked_color p.unmarked_color s p.view
    → Returns
        (Becomes p.unmarked_color p.marked_color s p.view (flipped_view p.view))
        (ok (flip_group s))
flip_step s p d g =
    let e : p.view ≡ view [] [] p.view.blacks p.view.greens =
      ap₂ (λ a b. view a b p.view.blacks p.view.greens) d.0 d.1 in
    rw e (
      returns
        (flip-Becomes p.marked_color p.unmarked_color s p.view.blacks p.view.greens (rw e at g)))

-- When the signal handlers copy registers and stacks, they write over no header of an object.
abbrev pub IsSave : (ℕ → View) → (save_state : Mem → Mem) → Type 0
IsSave v save_state = (m : Mem) (b : Ptr) → b % 8 ≡ 0 → (save_state m b ≡ m b) ⊎ IsPayload v b

start_cycle-AreGroups : (h : Heap) (st : ℕ → Spec) → AreGroups h st → AreGroups (start_cycle h) st
unfolding start_cycle
start_cycle-AreGroups h st a = record { group = a.group; apart = a.apart }

flip-eq :
    (save_state : Mem → Mem) (h : Heap)
    → h.enable_write_barrier ≡ false
    → flip save_state h ≡ (
        flip_groups 20 5 h >>= λ h1.
        ok (with_mem (start_cycle h1) (save_state (start_cycle h1).mem)))
unfolding flip
flip-eq save h off =
    ap
      (λ b. guard (not b) assertion >> flip_groups 20 5 h >>= λ h1.
        ok (with_mem (start_cycle h1) (save (start_cycle h1).mem)))
      off

pub flipped_members :
    (v : View) → IsIdle v → SameMembers (objects_of v) (objects_of (flipped_view v))
flipped_members v d =
    subst (λ (u : View). SameMembers (objects_of u) (objects_of (flipped_view v)))
      (sym (ap₂ (λ a b. view a b v.blacks v.greens) d.0 d.1)) (λ a m. m, λ a m. m)

-- The state after flip.
pub record Flips (h : Heap) (views : ℕ → View) (h' : Heap) : Type 0 where
  pub valid : IsHeap h' (λ i. flipped_view (views i))
  pub marked_color : h'.marked_color ≡ h.unmarked_color
  pub unmarked_color : h'.unmarked_color ≡ h.marked_color
  pub barrier : h'.enable_write_barrier ≡ true
  pub table : KeepsTable h h'
  pub write_vector : h'.write_vector ≡ h.write_vector
  pub vector_length : h'.write_vector_length ≡ h.write_vector_length
  pub first_static : h'.first_static_ptr ≡ h.first_static_ptr
  pub static_frontier : h'.static_frontier_ptr ≡ h.static_frontier_ptr

pub flip-Flips :
    (save_state : Mem → Mem) (h : Heap) (views : ℕ → View)
    → IsSave views save_state
    → h.enable_write_barrier ≡ false
    → IsHeap h views
    → ((i : ℕ) → InRange i → IsIdle (views i))
    → Returns (Flips h views) (flip save_state h)
unfolding start_cycle
flip-Flips save h views sv off valid idle =
    rw (flip-eq save h off, flip_groups-eq-for_groups 20 5 h)
      (Returns-bind
        (for_groups-AreGroups (λ p. IsIdle p.view) (λ s. ok (flip_group s)) flipped_spec flip_step h
          (uniform h.marked_color h.unmarked_color views) valid.groups idle)
        (λ h1 q.
          let c = valid.colors in
          let colors : AreColors h.unmarked_color h.marked_color = record {
            marked = c.unmarked;
            unmarked = c.marked;
            differ = λ e. c.differ (sym e);
          } in
          let mk = q.1.unmarked_color in
          let un = q.1.marked_color in
          let shape = started (KeepsHeap-KeepsShape q.1) in
          let before =
            moved h views (start_cycle h1) (λ i. flipped_view (views i)) valid
              (colors_same mk un colors)
              (uniform_recolored (start_cycle h1) h.unmarked_color h.marked_color _ _
                (λ i. flipped_view (views i)) mk un (start_cycle-AreGroups h1 _ q.0))
              shape same in
          returns (record {
            valid =
                with_mem-IsHeap (start_cycle h1) (λ i. flipped_view (views i)) before
                  (save (start_cycle h1).mem)
                  (λ b d. still_payload b (sv (start_cycle h1).mem b d));
            marked_color = mk;
            unmarked_color = un;
            barrier = refl;
            table = with_mem_table (KeepsShape-KeepsTable shape);
            write_vector = q.1.write_vector;
            vector_length = q.1.write_vector_length;
            first_static = q.1.first_static;
            static_frontier = q.1.static_frontier;
          })))
  where
    same :
        (i : ℕ)
        → InRange i
        → SameMembers (objects_of (views i)) (objects_of (flipped_view (views i)))
    same i r = flipped_members (views i) (idle i r)

    colors_same : {a b c d : ℕ} → a ≡ c → b ≡ d → AreColors c d → AreColors a b
    colors_same e f k = rw (e, f) k

    started : {h1 : Heap} → KeepsShape h h1 → KeepsShape h (start_cycle h1)
    started s = record {
      pages = s.pages;
      first = s.first;
      last = s.last;
      size = s.size;
      index = s.index;
      classes = s.classes;
    }

    still_payload :
        {x y : ℕ} (b : ℕ)
        → (x ≡ y) ⊎ IsPayload views b
        → (x ≡ y) ⊎ IsPayload (λ i. flipped_view (views i)) b
    still_payload b (inl e) = inl e
    still_payload b (inr p) = inr (IsPayload-members views (λ i. flipped_view (views i)) same b p)

    with_mem_table : {h1 : Heap} {m : Mem} → KeepsTable h h1 → KeepsTable h (with_mem h1 m)
    with_mem_table k = record {
      pages = k.pages;
      first = k.first;
      last = k.last;
      size = k.size;
      index = k.index;
    }

-- In a valid heap with nothing white or gray, while the write barrier is off, flip returns, where
-- the handlers save no word over the header of an object. The heap is again valid, with the colors exchanged
-- and the barrier on: in every group the black objects have become white, nothing is gray or
-- black, and the free objects are the same in the same order.
pub flip-IsHeap :
    (save_state : Mem → Mem) (h : Heap) (views : ℕ → View)
    → IsSave views save_state
    → h.enable_write_barrier ≡ false
    → IsHeap h views
    → ((i : ℕ) → InRange i → IsIdle (views i))
    → Returns
        (λ h'.
          IsHeap h' (λ i. flipped_view (views i))
          × (h'.marked_color ≡ h.unmarked_color)
          × (h'.unmarked_color ≡ h.marked_color)
          × (h'.enable_write_barrier ≡ true))
        (flip save_state h)
flip-IsHeap save h views sv off valid idle =
    Returns-mono (flip-Flips save h views sv off valid idle)
      (λ h' f. (f.valid, f.marked_color, f.unmarked_color, f.barrier))

recycle_groups-eq-for_groups :
    (r : Roots) (fuel k i : ℕ) (h : Heap)
    → recycle_groups r fuel k i h ≡ for_groups (recycle_group_garbage fuel) k i h
unfolding recycle_groups for_groups
recycle_groups-eq-for_groups r fuel zero i h = refl
recycle_groups-eq-for_groups r fuel (suc k) i h =
    ap (λ (t : Heap → Run Heap). on_group i (recycle_group_garbage fuel) h >>= t)
      (fun_ext (recycle_groups-eq-for_groups r fuel k (i + 1)))

-- What recycling needs of a group: nothing gray, and fewer white objects than fuel.
abbrev CanRecycle : ℕ → Spec → Type 0
CanRecycle fuel p = (p.view.grays ≡ []) × (length p.view.whites < fuel)

recycle_step :
    (fuel : ℕ) (s : GroupState) (p : Spec)
    → CanRecycle fuel p
    → IsGroup p.marked_color p.unmarked_color s p.view
    → Returns
        (Becomes p.marked_color p.unmarked_color s p.view (recycled_view p.view))
        (recycle_group_garbage fuel s)
recycle_step fuel s p d g =
    let e : p.view ≡ view p.view.whites [] p.view.blacks p.view.greens =
      ap (λ b. view p.view.whites b p.view.blacks p.view.greens) d.0 in
    rw e (
      recycle-Becomes p.marked_color p.unmarked_color s p.view.whites p.view.blacks p.view.greens
        fuel (rw e at g) d.1)

-- Once every group represents its lists, with nothing gray, fewer white objects than the fuel and
-- no object in two groups, the loop of recycle_all_garbage returns with every group's white
-- objects at the end of its free list, and its colors, black objects and free objects kept.
pub recycle_groups-AreGroups :
    (r : Roots) (fuel : ℕ) (h : Heap) (views : ℕ → View)
    → AreGroups h (uniform h.marked_color h.unmarked_color views)
    → ((i : ℕ) → InRange i → (views i).grays ≡ [])
    → ((i : ℕ) → InRange i → length (views i).whites < fuel)
    → Returns
        (λ h'.
          AreGroups h' (uniform h.marked_color h.unmarked_color (λ i. recycled_view (views i)))
          × KeepsHeap h h')
        (recycle_groups r fuel 20 5 h)
recycle_groups-AreGroups r fuel h views a none few =
    rw (recycle_groups-eq-for_groups r fuel 20 5 h) (
      for_groups-AreGroups (CanRecycle fuel) (recycle_group_garbage fuel)
        (λ p. record p { view = recycled_view p.view }) (recycle_step fuel) h
        (uniform h.marked_color h.unmarked_color views) a (λ i k. (none i k, few i k)))
