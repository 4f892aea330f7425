-- ===== src/Heap/Groups.antt =====
-- All groups of a heap at once: each represents its lists, and no object is in two groups.
use rtgc.Common.{
  ℕ, ◌≤◌, ◌≡◌, ◌≢◌, inl, inr, refl, ◌∙◌, Run, Returns, returns, Returns-bind, ◌∈◌, Disjoint,
  Disjoint-mem, Disjoint-of, ◌==◌, if◌then◌else◌, Bool-cases, eq_of_==, ne_of_==,
}
use rtgc.InfoBits.{Ptr}
use rtgc.Group.{Group, GroupState}
use rtgc.Group.View.{View, IsGroup}
use rtgc.Group.Frame.{KeepsClasses, objects_of, Keeps-IsGroup}
use rtgc.Group.Steps.{Becomes}
use rtgc.Heap.{Heap, group_state, put_group_state, set_group, on_group}

-- The indices that are used.
abbrev pub InRange : ℕ → Type 0
InRange i = (5 ≤ i) × (i ≤ 24)

-- What a group is to represent, and under which colors.
pub record Spec : Type 0 where
  pub marked_color : ℕ
  pub unmarked_color : ℕ
  pub view : View

pub record AreGroups (h : Heap) (st : ℕ → Spec) : Type 0 where
  pub group :
      (i : ℕ)
      → InRange i
      → IsGroup (st i).marked_color (st i).unmarked_color (group_state i h) (st i).view
  pub apart :
      (i j : ℕ)
      → InRange i
      → InRange j
      → i ≢ j
      → Disjoint (objects_of (st i).view) (objects_of (st j).view)

abbrev pub put : (ℕ → Spec) → ℕ → Spec → ℕ → Spec
put st i s j = if j == i then s else st j

-- What a step on one group keeps of the heap.
pub record KeepsHeap (h h' : Heap) : Type 0 where
  pub pages : h'.pages ≡ h.pages
  pub first : h'.first_partition_ptr ≡ h.first_partition_ptr
  pub last : h'.last_partition_ptr ≡ h.last_partition_ptr
  pub marked_color : h'.marked_color ≡ h.marked_color
  pub unmarked_color : h'.unmarked_color ≡ h.unmarked_color
  pub barrier : h'.enable_write_barrier ≡ h.enable_write_barrier
  pub write_vector : h'.write_vector ≡ h.write_vector
  pub write_vector_length : h'.write_vector_length ≡ h.write_vector_length
  pub first_static : h'.first_static_ptr ≡ h.first_static_ptr
  pub static_frontier : h'.static_frontier_ptr ≡ h.static_frontier_ptr
  pub size : (i : ℕ) → (h'.groups i).size ≡ (h.groups i).size
  pub index : (i : ℕ) → (h'.groups i).index ≡ (h.groups i).index
  pub classes : KeepsClasses h.mem h'.mem

-- What the table of pages and the groups' sizes say is kept, and so are the classes.
pub record KeepsShape (h h' : Heap) : Type 0 where
  pub pages : h'.pages ≡ h.pages
  pub first : h'.first_partition_ptr ≡ h.first_partition_ptr
  pub last : h'.last_partition_ptr ≡ h.last_partition_ptr
  pub size : (i : ℕ) → (h'.groups i).size ≡ (h.groups i).size
  pub index : (i : ℕ) → (h'.groups i).index ≡ (h.groups i).index
  pub classes : KeepsClasses h.mem h'.mem

-- The table of pages and the groups' sizes alone.
pub record KeepsTable (h h' : Heap) : Type 0 where
  pub pages : h'.pages ≡ h.pages
  pub first : h'.first_partition_ptr ≡ h.first_partition_ptr
  pub last : h'.last_partition_ptr ≡ h.last_partition_ptr
  pub size : (i : ℕ) → (h'.groups i).size ≡ (h.groups i).size
  pub index : (i : ℕ) → (h'.groups i).index ≡ (h.groups i).index

pub KeepsTable-refl : (h : Heap) → KeepsTable h h
KeepsTable-refl h = record {
  pages = refl;
  first = refl;
  last = refl;
  size = λ i. refl;
  index = λ i. refl;
}

pub KeepsTable-trans : {a b c : Heap} → KeepsTable a b → KeepsTable b c → KeepsTable a c
KeepsTable-trans h k = record {
  pages = k.pages ∙ h.pages;
  first = k.first ∙ h.first;
  last = k.last ∙ h.last;
  size = λ i. k.size i ∙ h.size i;
  index = λ i. k.index i ∙ h.index i;
}

pub KeepsShape-KeepsTable : {h h' : Heap} → KeepsShape h h' → KeepsTable h h'
KeepsShape-KeepsTable k = record {
  pages = k.pages;
  first = k.first;
  last = k.last;
  size = k.size;
  index = k.index;
}

pub KeepsHeap-KeepsShape : {h h' : Heap} → KeepsHeap h h' → KeepsShape h h'
KeepsHeap-KeepsShape k = record {
  pages = k.pages;
  first = k.first;
  last = k.last;
  size = k.size;
  index = k.index;
  classes = k.classes;
}

pub KeepsShape-trans : {a b c : Heap} → KeepsShape a b → KeepsShape b c → KeepsShape a c
KeepsShape-trans h k = record {
  pages = k.pages ∙ h.pages;
  first = k.first ∙ h.first;
  last = k.last ∙ h.last;
  size = λ i. k.size i ∙ h.size i;
  index = λ i. k.index i ∙ h.index i;
  classes = λ q l. k.classes q l ∙ h.classes q l;
}

pub KeepsHeap-refl : (h : Heap) → KeepsHeap h h
KeepsHeap-refl h = record {
  pages = refl;
  first = refl;
  last = refl;
  marked_color = refl;
  unmarked_color = refl;
  barrier = refl;
  write_vector = refl;
  write_vector_length = refl;
  first_static = refl;
  static_frontier = refl;
  size = λ i. refl;
  index = λ i. refl;
  classes = λ q k. refl;
}

pub KeepsHeap-trans : {a b c : Heap} → KeepsHeap a b → KeepsHeap b c → KeepsHeap a c
KeepsHeap-trans h k = record {
  pages = k.pages ∙ h.pages;
  first = k.first ∙ h.first;
  last = k.last ∙ h.last;
  marked_color = k.marked_color ∙ h.marked_color;
  unmarked_color = k.unmarked_color ∙ h.unmarked_color;
  barrier = k.barrier ∙ h.barrier;
  write_vector = k.write_vector ∙ h.write_vector;
  write_vector_length = k.write_vector_length ∙ h.write_vector_length;
  first_static = k.first_static ∙ h.first_static;
  static_frontier = k.static_frontier ∙ h.static_frontier;
  size = λ i. k.size i ∙ h.size i;
  index = λ i. k.index i ∙ h.index i;
  classes = λ q l. k.classes q l ∙ h.classes q l;
}

module _ (h : Heap) (st : ℕ → Spec) (i : ℕ) (r : InRange i) (a : AreGroups h st) (mk un : ℕ)
    (v' : View) (s' : GroupState) (b : Becomes mk un (group_state i h) (st i).view v' s') where
  abbrev after : Heap
  after = put_group_state i h s'

  abbrev spec : Spec
  spec = record { marked_color = mk; unmarked_color = un; view = v' }

  mem_old : (j : ℕ) (x : Ptr) → x ∈ objects_of (put st i spec j).view → x ∈ objects_of (st j).view
  mem_old j x m = elim (Bool-cases (j == i)) [
    | inl e ↦ let m' : x ∈ objects_of v' = rw e at m in rw (eq_of_== j i e) (b.members.1 x m')
    | inr e ↦ rw e at m
  ]

  after-IsGroup :
      (j : ℕ)
      → InRange j
      → IsGroup
          (put st i spec j).marked_color
          (put st i spec j).unmarked_color
          (group_state j after)
          (put st i spec j).view
  after-IsGroup j k = elim (Bool-cases (j == i)) [
    | inl e ↦ rw e b.result
    | inr e ↦ rw e (
        Keeps-IsGroup (st j).marked_color (st j).unmarked_color (group_state j h) (st j).view
          (objects_of (st i).view) s'.mem (a.group j k) (a.group i r).linked.nodes.0 b.frame
          (a.apart j i k r (ne_of_== j i e)))
  ]

  pub after-AreGroups : AreGroups after (put st i spec)
  after-AreGroups = record {
    group = after-IsGroup;
    apart = λ j k rj rk ne.
        Disjoint-of _ _
          (λ x mj mk. Disjoint-mem _ _ x (a.apart j k rj rk ne) (mem_old j x mj) (mem_old k x mk));
  }

  after-field :
      (f : Group → ℕ)
      → f s'.group ≡ f (h.groups i)
      → (j : ℕ) → f (set_group h.groups i s'.group j) ≡ f (h.groups j)
  after-field f e j = elim (Bool-cases (j == i)) [
    | inl k ↦ rw (k, eq_of_== j i k) e
    | inr k ↦ rw k refl
  ]

  pub after-KeepsHeap : KeepsHeap h after
  after-KeepsHeap = record {
    pages = refl;
    first = refl;
    last = refl;
    marked_color = refl;
    unmarked_color = refl;
    barrier = refl;
    write_vector = refl;
    write_vector_length = refl;
    first_static = refl;
    static_frontier = refl;
    size = after-field (λ g. g.size) b.size;
    index = after-field (λ g. g.index) b.index;
    classes = b.classes;
  }

-- A step on one group is a step of the heap.
pub on_group-AreGroups :
    (h : Heap) (st : ℕ → Spec) (i mk un : ℕ) (v' : View) (f : GroupState → Run GroupState)
    → InRange i
    → AreGroups h st
    → Returns (Becomes mk un (group_state i h) (st i).view v') (f (group_state i h))
    → Returns
        (λ h'.
          AreGroups h' (put st i (record { marked_color = mk; unmarked_color = un; view = v' }))
          × KeepsHeap h h')
        (on_group i f h)
unfolding on_group
on_group-AreGroups h st i mk un v' f r a b = Returns-bind b (λ s' k.
    returns (after-AreGroups h st i r a mk un v' s' k, after-KeepsHeap h st i r a mk un v' s' k))

-- The lists that are meant may be named otherwise.
pub AreGroups-same :
    (h : Heap) (st st' : ℕ → Spec)
    → ((i : ℕ) → InRange i → st i ≡ st' i)
    → AreGroups h st
    → AreGroups h st'
AreGroups-same h st st' e a = record {
  group = λ i r. rw (← e i r) (a.group i r);
  apart = λ i j r k ne. rw (← e i r, ← e j k) (a.apart i j r k ne);
}

-- The same colors for all groups.
abbrev pub uniform : (marked_color unmarked_color : ℕ) → (ℕ → View) → ℕ → Spec
uniform mk un views i = record { marked_color = mk; unmarked_color = un; view = views i }

pub uniform_recolored :
    (h : Heap) (mk un mk' un' : ℕ) (views : ℕ → View)
    → mk' ≡ mk
    → un' ≡ un
    → AreGroups h (uniform mk un views)
    → AreGroups h (uniform mk' un' views)
uniform_recolored h mk un mk' un' views e f a = rw (e, f) a
