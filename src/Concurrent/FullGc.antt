-- ===== src/Concurrent/FullGc.antt =====
-- full_gc of rtgc.c from flip to recycling, while mutators store.
use rtgc.Common.{
  ℕ, zero, suc, ◌+◌, ◌*◌, ◌≤◌, ◌<◌, ◌≡◌, ◌⊎◌, refl, sym, ap, ap₂, ◌∙◌, false, ◌∈◌, List, [], ◌∷◌,
  length, All, SameMembers, SameMembers-trans, Run, ok, Returns, returns, Returns-mono, arith,
}
use mathlib.Core.Path.{subst}
use rtgc.Group.View.{View, view}
use rtgc.Group.Frame.{objects_of}
use rtgc.Common.Bits.{test_bit}
use rtgc.InfoBits.{Mem, Ptr}
use rtgc.Heap.{Heap}
use rtgc.Heap.Groups.{InRange}
use rtgc.Heap.Valid.{IsHeap, IsPayload, IsPayload-members}
use rtgc.Trace.Segments.{IsScanner}
use rtgc.Trace.Reach.{IsReachable}
use rtgc.Collect.{ThreadState, Roots, flip}
use rtgc.Collect.Groups.{IsSave, IsIdle, Flips, flip-Flips, flipped_view, flipped_members}
use rtgc.Collect.RootWords.{IsRoot, ThreadsPayload}
use rtgc.Collect.RootSet.{AreRoots}
use rtgc.Concurrent.{Store, Shared}
use rtgc.Concurrent.Roots.{cycle}
use rtgc.Concurrent.Snapshot.{AreMarkable}
use rtgc.Concurrent.Load.{object_count}
use rtgc.Concurrent.Stores.{ArePolite}
use rtgc.Concurrent.Finish.{AreOwned}
use rtgc.Concurrent.Cycle.{IsStart, AreMarkable-moved, IsObject-moved, collect-Collected}

-- Between two collections.
pub record IsReady (h : Heap) (v : ℕ → View) : Type 0 where
  pub valid : IsHeap h v
  pub barrier : h.enable_write_barrier ≡ false
  pub idle : (i : ℕ) → InRange i → IsIdle (v i)
  pub markable : AreMarkable h v
  pub owned : AreOwned h v
  pub no_static : h.static_frontier_ptr ≡ h.first_static_ptr

-- Lists with the same members have the same payload.
module _ (v v' : ℕ → View)
    (same : (i : ℕ) → InRange i → SameMembers (objects_of (v i)) (objects_of (v' i))) where
  IsPayload-moved : (a : ℕ) → IsPayload v a → IsPayload v' a
  IsPayload-moved = IsPayload-members v v' same

  ArePolite-moved : (ss : List Store) → ArePolite v ss → ArePolite v' ss
  ArePolite-moved [] p = tt
  ArePolite-moved (s ∷ ss) p = (IsPayload-moved s.lhs_address p.0, ArePolite-moved ss p.1)

  pub schedule-moved : (l : List (List Store)) → All (ArePolite v) l → All (ArePolite v') l
  schedule-moved [] p = tt
  schedule-moved (b ∷ l) p = (ArePolite-moved b p.0, schedule-moved l p.1)

  globals-moved : (l : List Ptr) → All (IsPayload v) l → All (IsPayload v') l
  globals-moved [] p = tt
  globals-moved (a ∷ l) p = (IsPayload-moved a p.0, globals-moved l p.1)

  ThreadsPayload-moved : (ts : List ThreadState) → ThreadsPayload v ts → ThreadsPayload v' ts
  ThreadsPayload-moved [] p = tt
  ThreadsPayload-moved (t ∷ ts) p = (
    λ j l. IsPayload-moved _ (p.0 j l),
    λ j l. IsPayload-moved _ (p.1 j l),
    ThreadsPayload-moved ts p.2,
  )

  pub AreRoots-moved : (r : Roots) → AreRoots r v → AreRoots r v'
  AreRoots-moved r a = record {
    threads = ThreadsPayload-moved r.saved_threads a.threads;
    globals = globals-moved r.global_roots a.globals;
    scanners = a.scanners;
  }

flipped_length :
    (v : View) → IsIdle v → length (objects_of (flipped_view v)) ≡ length (objects_of v)
flipped_length v d =
    subst (λ (u : View). length (objects_of (flipped_view v)) ≡ length (objects_of u))
      (sym (ap₂ (λ a b. view a b v.blacks v.greens) d.0 d.1)) refl

object_count_same :
    (k i : ℕ) (v v' : ℕ → View)
    → ((j : ℕ) → i ≤ j → j < i + k → length (objects_of (v' j)) ≡ length (objects_of (v j)))
    → object_count k i v' ≡ object_count k i v
object_count_same zero i v v' e = refl
object_count_same (suc k) i v v' e =
    ap₂ (λ (a b : ℕ). a + b) (e i (omega arith) (omega arith))
      (object_count_same k (i + 1) v v' (λ j l u. e j (omega arith) (omega arith)))

-- The value that is returned.
Returns-ok : {A : Type 0} {P : A → Type 0} {m : Run A} → Returns P m → (a : A) × (m ≡ ok a) × P a
Returns-ok (returns {a} p) = (a, refl, p)

module _ (save_state : Mem → Mem) (r : Roots) (fuel : ℕ) (cs : IsScanner r.custom_scanner)
    (schedule : List (List Store)) (h : Heap) (v : ℕ → View) (saves : IsSave v save_state)
    (a : IsReady h v) (polite : All (ArePolite v) schedule) (roots : AreRoots r v)
    (enough : 2 * object_count 20 5 v < fuel) where
  abbrev flipped : ℕ → View
  flipped i = flipped_view (v i)

  flipped_same : (i : ℕ) → InRange i → SameMembers (objects_of (v i)) (objects_of (flipped i))
  flipped_same i q = flipped_members (v i) (a.idle i q)

  flipped_enough : 2 * object_count 20 5 flipped < fuel
  flipped_enough =
      subst (λ n. 2 * n < fuel)
        (sym (
          object_count_same 20 5 v flipped
            (λ j l u. flipped_length (v j) (a.idle j (l, omega arith)))))
        enough

  start : (h1 : Heap) → Flips h v h1 → IsStart r (record { heap = h1; schedule = schedule }) flipped
  start h1 f =
      let table = f.table in
      record {
        valid = f.valid;
        tricolor = λ i x q m. absurd m;
        barrier = f.barrier;
        markable = AreMarkable-moved h v h1 flipped table f.vector_length flipped_same a.markable;
        owned = λ index bit l u t. IsObject-moved h v h1 flipped index bit table flipped_same (
            a.owned index bit (within l f.vector_length) u
              (ap (λ (g : ℕ → ℕ). test_bit (g index) bit) (sym f.write_vector) ∙ t));
        polite = schedule-moved v flipped flipped_same schedule polite;
        roots = AreRoots-moved v flipped flipped_same r roots;
        no_static = f.static_frontier ∙ a.no_static ∙ sym f.first_static;
      }
    where
      within : {i a b : ℕ} → i < a → a ≡ b → i < b
      within l e = omega arith

  -- Whatever the mutators store with RTwrite_barrier between the steps of the collector, full_gc
  -- takes a heap that is ready, up to its coalescing of free pages, to a heap that is ready
  -- again, with more fuel than twice the objects in the lists, where the stores and the roots are
  -- words at multiples of 8 that are not at the headers of objects, the handlers save no word
  -- over the header of an object, and the client's scanners are set and only trace. Ready means a
  -- valid heap with nothing white or gray, the barrier off, no static object, a bit of the write
  -- vector for every object and marks of objects only. The groups have the same objects, and
  -- every object that can be reached from the roots right after flip, over allocated objects with
  -- pointers, is black, if it was not free.
  pub cycle-IsReady :
      Returns
        (λ h'.
          (v' : (ℕ → View)) × IsReady h' v'
          × ((i : ℕ) → InRange i → SameMembers (objects_of (v i)) (objects_of (v' i)))
          × ((h1 : Heap) × (flip save_state h ≡ ok h1)
              × ((i x : ℕ)
                  → IsReachable h1 (λ j. flipped_view (v j)) (IsRoot r h1.mem) i x
                  → (x ∈ (v' i).blacks) ⊎ (x ∈ (v i).greens))))
        (cycle r fuel save_state schedule h)
  unfolding cycle
  cycle-IsReady =
      let (h1, e, f) = Returns-ok (flip-Flips save_state h v saves a.barrier a.valid a.idle) in
      let s : Shared = record { heap = h1; schedule = schedule } in
      rw (e, f.barrier)
        (Returns-mono (collect-Collected r fuel cs s flipped (start h1 f) flipped_enough)
          (λ h' (v', c). (
            v',
            record {
              valid = c.valid;
              barrier = c.barrier;
              idle = λ i q. c.idle i;
              markable = c.markable;
              owned = c.owned;
              no_static = c.no_static;
            },
            λ i q.
                SameMembers-trans (objects_of (v i)) (objects_of (flipped i)) (objects_of (v' i))
                  (flipped_same i q) (c.members i q),
            (h1, refl, c.kept),
          )))
