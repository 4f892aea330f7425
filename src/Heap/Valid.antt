-- ===== src/Heap/Valid.antt =====
-- The whole heap between the steps of a collection in rtgc.c: the lists of all groups, what words
-- point to, and what lies behind the headers of the objects.
use rtgc.Common.{
  ℕ, ◌+◌, ◌≤◌, ◌<◌, ◌≡◌, ◌≢◌, refl, sym, ap, ◌∙◌, List, [], ◌++◌, length, some, ◌∈◌, SameMembers,
  All-of_mem, All-mem, append_assoc, ◌-◌, ◌/◌, ◌%◌,
}
use rtgc.InfoBits.{Ptr, get_storage_class, sc_metadata}
use rtgc.Chain.{IsNode}
use rtgc.Group.View.{View}
use rtgc.Group.Frame.{FarFrom, objects_of}
use rtgc.Heap.{Heap, Page, group_page, ptr_to_page_index}
use rtgc.Heap.Groups.{
  InRange, AreGroups, KeepsHeap, KeepsShape, KeepsTable, KeepsShape-KeepsTable,
  KeepsHeap-KeepsShape, KeepsHeap-refl, KeepsHeap-trans, uniform, uniform_recolored,
}
use rtgc.Heap.Target.{target, target-KeepsTable}

-- The two colors that are exchanged.
pub record AreColors (marked_color unmarked_color : ℕ) : Type 0 where
  pub marked : marked_color < 2
  pub unmarked : unmarked_color < 2
  pub differ : marked_color ≢ unmarked_color

pub FarFrom-members : (a : ℕ) (xs ys : List Ptr) → SameMembers xs ys → FarFrom a xs → FarFrom a ys
FarFrom-members a xs ys s f =
    All-of_mem (λ n. (a ≢ n) × (a ≢ n + 8)) ys
      (λ b m. All-mem (λ n. (a ≢ n) × (a ≢ n + 8)) b xs (s.1 b m) f)

-- The address of a word, at no header of an object.
abbrev pub IsPayload : (ℕ → View) → ℕ → Type 0
IsPayload views a = (a % 8 ≡ 0) × ((j : ℕ) → InRange j → FarFrom a (objects_of (views j)))

pub IsPayload-members :
    (v v' : ℕ → View)
    → ((i : ℕ) → InRange i → SameMembers (objects_of (v i)) (objects_of (v' i)))
    → (a : ℕ) → IsPayload v a
    → IsPayload v' a
IsPayload-members v v' s a (e, p) = (e, λ j r. FarFrom-members a _ _ (s j r) (p j r))

-- Every word whose target is an object of the page table has that object in the lists, on a page
-- of its group; no part of an object behind its header is a header; no object has metadata.
pub record IsHeap (h : Heap) (views : ℕ → View) : Type 0 where
  pub colors : AreColors h.marked_color h.unmarked_color
  pub groups : AreGroups h (uniform h.marked_color h.unmarked_color views)
  pub targets :
      (w i base : ℕ)
      → target h w ≡ some (i, base)
      → InRange i
        × (base ∈ objects_of (views i))
        × ((h.pages (ptr_to_page_index h base)).group ≡ group_page i)
  pub payload :
      (i x a : ℕ)
      → InRange i
      → x ∈ objects_of (views i)
      → a % 8 ≡ 0
      → x + 16 ≤ a
      → a < x + (h.groups i).size
      → IsPayload views a
  pub classes :
      (i x : ℕ) → InRange i → x ∈ objects_of (views i) → get_storage_class h.mem x < sc_metadata

-- What tracing may do to the lists: white objects have become gray.
pub record Grays (v v' : View) : Type 0 where
  pub whites : (a : ℕ) → a ∈ v'.whites → a ∈ v.whites
  pub new : List Ptr
  pub grays : v'.grays ≡ new ++ v.grays
  pub pending : length v'.whites + length v'.grays ≡ length v.whites + length v.grays
  pub blacks : v'.blacks ≡ v.blacks
  pub greens : v'.greens ≡ v.greens

pub Grays-refl : (v : View) → Grays v v
Grays-refl v = record {
  whites = λ a m. m;
  new = [];
  grays = refl;
  pending = refl;
  blacks = refl;
  greens = refl;
}

pub Grays-trans : {u v w : View} → Grays u v → Grays v w → Grays u w
Grays-trans {u} g k = record {
  whites = λ a m. g.whites a (k.whites a m);
  new = k.new ++ g.new;
  grays = k.grays ∙ ap (λ t. k.new ++ t) g.grays ∙ sym (append_assoc k.new g.new u.grays);
  pending = k.pending ∙ g.pending;
  blacks = k.blacks ∙ g.blacks;
  greens = k.greens ∙ g.greens;
}

-- What every step of marking keeps.
pub record Marks (h : Heap) (views : ℕ → View) (h' : Heap) (views' : ℕ → View) : Type 0 where
  pub valid : IsHeap h' views'
  pub keeps : KeepsHeap h h'
  pub members : (i : ℕ) → SameMembers (objects_of (views i)) (objects_of (views' i))
  pub contents : (a : ℕ) → IsPayload views a → h'.mem a ≡ h.mem a

pub Marks-refl : (h : Heap) (views : ℕ → View) → IsHeap h views → Marks h views h views
Marks-refl h views v = record {
  valid = v;
  keeps = KeepsHeap-refl h;
  members = λ i. (λ a m. m, λ a m. m);
  contents = λ a p. refl;
}

pub Marks-trans :
    (h : Heap) (v : ℕ → View) (h1 : Heap) (v1 : ℕ → View) (h2 : Heap) (v2 : ℕ → View)
    → Marks h v h1 v1
    → Marks h1 v1 h2 v2
    → Marks h v h2 v2
Marks-trans h v h1 v1 h2 v2 m k = record {
  valid = k.valid;
  keeps = KeepsHeap-trans m.keeps k.keeps;
  members = λ i. (
    λ a x. (k.members i).0 a ((m.members i).0 a x),
    λ a x. (m.members i).1 a ((k.members i).1 a x),
  );
  contents = λ a p. k.contents a (IsPayload-members v v1 (λ j r. m.members j) a p) ∙ m.contents a p;
}

-- A heap with the same tables whose lists have the same members is as valid, if no object gets
-- metadata.
pub moved_table :
    (h : Heap) (v : ℕ → View) (h' : Heap) (v' : ℕ → View)
    → IsHeap h v
    → AreColors h'.marked_color h'.unmarked_color
    → AreGroups h' (uniform h'.marked_color h'.unmarked_color v')
    → KeepsTable h h'
    → ((i x : ℕ) → InRange i → x ∈ objects_of (v i) → get_storage_class h'.mem x < sc_metadata)
    → ((i : ℕ) → InRange i → SameMembers (objects_of (v i)) (objects_of (v' i)))
    → IsHeap h' v'
unfolding ptr_to_page_index
moved_table h v h' v' i c a k q s = record {
  colors = c;
  groups = a;
  targets = λ w j base e.
      let t = i.targets w j base (sym (target-KeepsTable h h' w k) ∙ e) in
      (
        t.0,
        (s j t.0).0 base t.1,
        ap (λ (p : ℕ → Page). (p ((base - h'.first_partition_ptr) / 4096)).group) k.pages
            ∙ ap (λ (f : ℕ). (h.pages ((base - f) / 4096)).group) k.first
            ∙ t.2,
      );
  payload = λ j x b r m d l u.
      IsPayload-members v v' s b (i.payload j x b r ((s j r).1 x m) d l (rw (← k.size j) u));
  classes = λ j x r m. q j x r ((s j r).1 x m);
}

pub moved :
    (h : Heap) (v : ℕ → View) (h' : Heap) (v' : ℕ → View)
    → IsHeap h v
    → AreColors h'.marked_color h'.unmarked_color
    → AreGroups h' (uniform h'.marked_color h'.unmarked_color v')
    → KeepsShape h h'
    → ((i : ℕ) → InRange i → SameMembers (objects_of (v i)) (objects_of (v' i)))
    → IsHeap h' v'
moved h v h' v' i c a k s =
    moved_table h v h' v' i c a (KeepsShape-KeepsTable k)
      (λ j x r m.
        let node = All-mem IsNode x (objects_of (v j)) m (i.groups.group j r).linked.nodes.0 in
        rw (k.classes x node.0) (i.classes j x r m))
      s

-- The step of one group, when its lists keep their members and all else is kept.
pub stepped :
    (h : Heap) (v : ℕ → View) (h' : Heap) (v' : ℕ → View)
    → IsHeap h v
    → AreGroups h' (uniform h.marked_color h.unmarked_color v')
    → KeepsHeap h h'
    → ((i : ℕ) → SameMembers (objects_of (v i)) (objects_of (v' i)))
    → ((a : ℕ) → IsPayload v a → h'.mem a ≡ h.mem a)
    → Marks h v h' v'
stepped h v h' v' i a k s c = record {
  valid =
      moved h v h' v' i (rw (k.marked_color, k.unmarked_color) i.colors)
        (uniform_recolored h' h.marked_color h.unmarked_color h'.marked_color h'.unmarked_color v'
          k.marked_color k.unmarked_color a)
        (KeepsHeap-KeepsShape k) (λ j r. s j);
  keeps = k;
  members = s;
  contents = c;
}
