-- ===== src/Concurrent/Cycle.antt =====
-- full_gc of rtgc.c from the scan of the roots to recycling, while mutators store.
use rtgc.Common.{
  ap, ◌∙◌, ◌-◌, ◌/◌, ◌%◌, ℕ, ◌+◌, ◌*◌, ◌≤◌, ◌<◌, ◌≡◌, ◌⊎◌, refl, true, false, ◌∈◌, [], length, All,
  SameMembers, SameMembers-trans, sym, Returns, Returns-bind, Returns-mono, ◌>>=◌, arith,
}
use mathlib.Core.Path.{subst}
use rtgc.Group.View.{View}
use rtgc.Group.Frame.{objects_of}
use rtgc.Common.Bits.{test_bit}
use rtgc.Heap.{Heap, Page, ptr_to_page_index}
use rtgc.Heap.Groups.{
  InRange, AreGroups, KeepsHeap, KeepsTable, KeepsTable-trans, uniform, uniform_recolored,
}
use rtgc.Heap.Valid.{IsHeap, moved}
use rtgc.Trace.Segments.{IsScanner}
use rtgc.Trace.Total.{total, pending_one_at}
use rtgc.Trace.Blacken.{IsTricolor}
use rtgc.Trace.Reach.{IsReachable}
use rtgc.Collect.{Roots}
use rtgc.Collect.Groups.{recycled_view, recycle_groups-AreGroups}
use rtgc.Collect.Cycle.{recycled_members}
use rtgc.Collect.RootWords.{IsRoot}
use rtgc.Collect.RootSet.{AreRoots}
use rtgc.Concurrent.{Shared, mark}
use rtgc.Concurrent.Roots.{scan_root_set, collect}
use rtgc.Concurrent.Snapshot.{AreMarkable, place, IsObject, IsSnapshot}
use rtgc.Concurrent.Load.{load, load-le, load-le_count, object_count, total-le_count}
use rtgc.Concurrent.Stores.{ArePolite}
use rtgc.Concurrent.RootSet.{scan_root_set-Covers}
use rtgc.Concurrent.Finish.{AreOwned, first-IsSnapshot, Marked, mark-Marked}

-- What the first scan of the roots begins with.
pub record IsStart (r : Roots) (s : Shared) (v : ℕ → View) : Type 0 where
  pub valid : IsHeap s.heap v
  pub tricolor : IsTricolor s.heap v
  pub barrier : s.heap.enable_write_barrier ≡ true
  pub markable : AreMarkable s.heap v
  pub owned : AreOwned s.heap v
  pub polite : All (ArePolite v) s.schedule
  pub roots : AreRoots r v
  pub no_static : s.heap.static_frontier_ptr ≡ s.heap.first_static_ptr

-- What a cycle ends with, for the heap that the scan of the roots began with.
pub record Collected (r : Roots) (h : Heap) (v : ℕ → View) (h' : Heap) (v' : ℕ → View)
    : Type 0 where
  pub valid : IsHeap h' v'
  pub table : KeepsTable h h'
  pub members : (i : ℕ) → InRange i → SameMembers (objects_of (v i)) (objects_of (v' i))
  pub idle : (i : ℕ) → ((v' i).whites ≡ []) × ((v' i).grays ≡ [])
  pub kept :
      (i x : ℕ) → IsReachable h v (IsRoot r h.mem) i x → (x ∈ (v' i).blacks) ⊎ (x ∈ (v i).greens)
  pub barrier : h'.enable_write_barrier ≡ false
  pub markable : AreMarkable h' v'
  pub owned : AreOwned h' v'
  pub no_static : h'.static_frontier_ptr ≡ h'.first_static_ptr

-- What the page table and the write vector say is moved to a heap with the same ones.
pub AreMarkable-moved :
    (h : Heap) (v : ℕ → View) (h' : Heap) (v' : ℕ → View)
    → KeepsTable h h'
    → h'.write_vector_length ≡ h.write_vector_length
    → ((i : ℕ) → InRange i → SameMembers (objects_of (v i)) (objects_of (v' i)))
    → AreMarkable h v
    → AreMarkable h' v'
AreMarkable-moved h v h' v' k e m a i x r n =
    subst
      (λ l.
        (h'.first_partition_ptr ≤ x)
        × ((x - h'.first_partition_ptr) % 32 ≡ 0)
        × ((x - h'.first_partition_ptr) / 2048 < l))
      (sym e)
      (subst (λ f. (f ≤ x) × ((x - f) % 32 ≡ 0) × ((x - f) / 2048 < h.write_vector_length))
        (sym k.first) (a i x r ((m i r).1 x n)))

pub IsObject-moved :
    (h : Heap) (v : ℕ → View) (h' : Heap) (v' : ℕ → View) (index bit : ℕ)
    → KeepsTable h h'
    → ((i : ℕ) → InRange i → SameMembers (objects_of (v i)) (objects_of (v' i)))
    → IsObject h v (place h index bit)
    → IsObject h' v' (place h' index bit)
unfolding ptr_to_page_index
IsObject-moved h v h' v' index bit k m (i, r, n, p) =
    subst (λ x. IsObject h' v' x) (ap (λ (f : ℕ). f + index * 32 * 64 + bit * 32) (sym k.first))
      (
        i,
        r,
        (m i r).0 (place h index bit) n,
        ap (λ (q : ℕ → Page). (q ((place h index bit - h'.first_partition_ptr) / 4096)).group)
              k.pages
            ∙ ap (λ (f : ℕ). (h.pages ((place h index bit - f) / 4096)).group) k.first
            ∙ p,
      )

-- The groups have been recycled.
recycled :
    {r : Roots} (h0 : Heap) (v0 : ℕ → View)
    → AreMarkable h0 v0
    → h0.static_frontier_ptr ≡ h0.first_static_ptr
    → (h : Heap) (v : ℕ → View) (h' : Heap) → IsSnapshot h0 v0 h v
    → ((i : ℕ) → InRange i → (v i).grays ≡ [])
    → ((i x : ℕ)
        → IsReachable h0 v0 (IsRoot r h0.mem) i x
        → (x ∈ (v i).blacks) ⊎ (x ∈ (v0 i).greens))
    → KeepsHeap (record h { enable_write_barrier = false }) h'
    → AreGroups h' (uniform h.marked_color h.unmarked_color (λ i. recycled_view (v i)))
    → Collected r h0 v0 h' (λ i. recycled_view (v i))
recycled h0 v0 able e h v h' s none kept k b =
    let v' : ℕ → View = λ i. recycled_view (v i) in
    let table : KeepsTable h h' = record {
      pages = k.pages;
      first = k.first;
      last = k.last;
      size = k.size;
      index = k.index;
    } in
    let members : (i : ℕ) → InRange i → SameMembers (objects_of (v i)) (objects_of (v' i)) =
      λ i q. recycled_members (v i) (none i q) in
    let all = λ (i : ℕ) (q : InRange i).
      SameMembers-trans (objects_of (v0 i)) (objects_of (v i)) (objects_of (v' i)) (s.members i)
        (members i q) in
    let both = KeepsTable-trans s.table table in
    record {
      valid =
          moved h v h' v' s.valid (rw (k.marked_color, k.unmarked_color) s.valid.colors)
            (uniform_recolored h' h.marked_color h.unmarked_color h'.marked_color h'.unmarked_color
              v' k.marked_color k.unmarked_color b)
            (record {
              pages = k.pages;
              first = k.first;
              last = k.last;
              size = k.size;
              index = k.index;
              classes = k.classes;
            })
            members;
      table = both;
      members = all;
      idle = λ i. (refl, refl);
      kept = kept;
      barrier = k.barrier;
      markable =
          AreMarkable-moved h0 v0 h' v' both (k.write_vector_length ∙ s.vector_length) all able;
      owned = λ index bit l u t. IsObject-moved h0 v0 h' v' index bit both all (
          s.owned index bit (within l (k.write_vector_length ∙ s.vector_length)) u
            (ap (λ (f : ℕ → ℕ). test_bit (f index) bit) (sym k.write_vector) ∙ t));
      no_static =
          k.static_frontier ∙ s.static_frontier ∙ e ∙ sym s.first_static ∙ sym k.first_static;
    }
  where
    within : {i a b : ℕ} → i < a → a ≡ b → i < b
    within l e = omega arith

module _ (r : Roots) (fuel : ℕ) (cs : IsScanner r.custom_scanner) (s : Shared) (v : ℕ → View)
    (a : IsStart r s v) (enough : 2 * object_count 20 5 v < fuel) where
  enough_total : total 20 5 v < fuel
  enough_total = le_lt (total 20 5 v) (object_count 20 5 v) (total-le_count 20 5 v) enough
    where
      le_lt : (a b : ℕ) → a ≤ b → 2 * b < fuel → a < fuel
      le_lt a b p q = omega arith

  -- The part that runs beside the mutators.
  scanned-Marked :
      Returns
        (Marked s.heap v a.valid a.markable (IsRoot r s.heap.mem))
        (scan_root_set r fuel s >>= mark r.custom_scanner fuel fuel)
  scanned-Marked =
      Returns-bind
        (scan_root_set-Covers s.heap v a.valid a.markable r fuel s v
          (first-IsSnapshot s.heap v a.valid a.tricolor a.barrier a.owned, a.polite) a.roots
          a.no_static (omega (arith, enough)))
        (λ s1 (v1, g1, l1, t1, c1).
          mark-Marked s.heap v a.valid a.markable (IsRoot r s.heap.mem) r.custom_scanner fuel cs
            fuel s1 v1 g1 c1 l1.fewer enough_total
            (under (load 20 5 v s1.heap) (load 20 5 v s.heap) (2 * object_count 20 5 v)
              (load-le s.heap s1.heap v 20 5 (λ j y b c m. l1.lighter j y (b, omega arith) m))
              (load-le_count 20 5 v s.heap) enough))
    where
      under : (a b c : ℕ) → a ≤ b → b ≤ c → c < fuel → a < fuel
      under a b c p q l = omega arith

  pub collect-Collected :
      Returns (λ h'. (v' : (ℕ → View)) × Collected r s.heap v h' v') (collect r fuel s)
  unfolding collect
  collect-Collected = Returns-bind scanned-Marked (λ s2 (v2, g, t, none, kept).
      let h2 = s2.heap in
      let swept : Heap = record h2 { enable_write_barrier = false } in
      let groups : AreGroups swept (uniform swept.marked_color swept.unmarked_color v2) = record {
        group = g.0.valid.groups.group;
        apart = g.0.valid.groups.apart;
      } in
      Returns-mono
        (recycle_groups-AreGroups r fuel swept v2 groups none (λ i q.
          few (length (v2 i).whites) (length (v2 i).grays) (total 20 5 v2) (total 20 5 v)
            (pending_one_at 20 5 i v2 q.0 (omega (arith, q.1))) t enough_total))
        (λ h3 (b, k). (
          λ i. recycled_view (v2 i),
          recycled s.heap v a.markable a.no_static h2 v2 h3 g.0 none kept
              (record {
                pages = k.pages;
                first = k.first;
                last = k.last;
                marked_color = k.marked_color;
                unmarked_color = k.unmarked_color;
                barrier = k.barrier;
                write_vector = k.write_vector;
                write_vector_length = k.write_vector_length;
                first_static = k.first_static;
                static_frontier = k.static_frontier;
                size = k.size;
                index = k.index;
                classes = k.classes;
              })
              b,
        )))
    where
      few : (a b n k : ℕ) → a + b ≤ n → n ≤ k → k < fuel → a < fuel
      few a b n k p q u = omega arith

  -- Whatever the mutators store with RTwrite_barrier between the steps of the collector, from a
  -- valid heap with the barrier on and no static object, where no black object points to a white
  -- one, every object has a bit of the write vector and every mark is that of an object: the scan
  -- of the roots, marking and then recycling return, with more fuel than twice the objects in the
  -- lists, where the stores and the roots are words at multiples of 8 that are not at the headers
  -- of objects and the client's scanners are set and only trace. Every group represents lists
  -- with the same objects, all black or free, and every object that could be reached from the
  -- roots when the scan of the roots began, over allocated objects with pointers, is black, if it
  -- was not free then.
  pub collect-keeps_snapshot :
      Returns
        (λ h'.
          (v' : (ℕ → View)) × IsHeap h' v'
          × ((i : ℕ) → InRange i → SameMembers (objects_of (v i)) (objects_of (v' i)))
          × ((i : ℕ) → ((v' i).whites ≡ []) × ((v' i).grays ≡ []))
          × ((i x : ℕ)
              → IsReachable s.heap v (IsRoot r s.heap.mem) i x
              → (x ∈ (v' i).blacks) ⊎ (x ∈ (v i).greens)))
        (collect r fuel s)
  collect-keeps_snapshot =
      Returns-mono collect-Collected (λ h' (v', c). (v', c.valid, c.members, c.idle, c.kept))
