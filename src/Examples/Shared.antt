-- ===== src/Examples/Shared.antt =====
-- The theorems on marking beside mutators, at a heap of two white objects: a mutator removes the
-- pointer of the first one to the second one.
use rtgc.Common.{
  ℕ, ◌+◌, ◌*◌, ◌-◌, ◌/◌, ◌%◌, ◌<◌, ◌≤◌, ◌≡◌, ◌⊎◌, inl, inr, refl, sym, Bool, true, false, ◌∈◌, [],
  ok, ◌∷◌, Returns, SameMembers, ◌==◌, if◌then◌else◌, eq_of_==, Bool-cases, arith, ◌∙◌,
}
use rtgc.Common.Bits.{test_bit-zero}
use rtgc.InfoBits.{Mem, Ptr}
use rtgc.Group.View.{View}
use rtgc.Group.Frame.{objects_of}
use rtgc.Heap.{Heap}
use rtgc.Heap.Groups.{InRange}
use rtgc.Heap.Valid.{IsHeap, IsPayload, moved_table}
use rtgc.Trace.Blacken.{IsTricolor}
use rtgc.Trace.Reach.{IsReachable}
use rtgc.WriteBarrier.{write_barrier, memcpy}
use rtgc.Collect.{flip}
use rtgc.Collect.Groups.{flipped_view}
use rtgc.Collect.RootWords.{IsRoot}
use rtgc.Concurrent.{Shared}
use rtgc.Concurrent.Roots.{collect, cycle}
use rtgc.Concurrent.Snapshot.{AreMarkable, IsSnapshot, Later}
use rtgc.Concurrent.Stores.{write_barrier-IsSnapshot}
use rtgc.Concurrent.Copy.{IsPayloadSegment, WritesWithin, memcpy-IsSnapshot}
use rtgc.Concurrent.Finish.{AreOwned, first-IsSnapshot}
use rtgc.Concurrent.Cycle.{IsStart, collect-keeps_snapshot}
use rtgc.Concurrent.FullGc.{IsReady, AreRoots-moved, schedule-moved, cycle-IsReady}
use rtgc.Examples.Pair.{pair, views_of}
use rtgc.Examples.PairHeaps.{fresh, kept, fresh-IsHeap, kept-IsHeap}
use rtgc.Examples.Cycle.{
  kept-IsIdle, handler_save, handler_save-IsSave, roots, no-IsScanner, roots-AreRoots,
}

abbrev running : Heap
running = record (pair 0 1 fresh) { enable_write_barrier = true; write_vector_length = 3 }

-- Before the first step of the collector, and before the third.
abbrev busy : Shared
busy = record {
  heap = running;
  schedule =
      ((record { lhs_address = 4112; rhs = 0 }) ∷ [])
      ∷ []
      ∷ ((record { lhs_address = 64; rhs = 8200 }) ∷ [])
      ∷ [];
}

running-IsHeap : IsHeap running (views_of fresh)
running-IsHeap =
    moved_table (pair 0 1 fresh) (views_of fresh) running (views_of fresh) fresh-IsHeap
      fresh-IsHeap.colors
      (record { group = fresh-IsHeap.groups.group; apart = fresh-IsHeap.groups.apart })
      (record { pages = refl; first = refl; last = refl; size = λ i. refl; index = λ i. refl })
      fresh-IsHeap.classes (λ i r. (λ a m. m, λ a m. m))

have_bits :
    (x : ℕ) → x ∈ (4096 ∷ 8192 ∷ []) → (4096 ≤ x) × ((x - 4096) % 32 ≡ 0) × ((x - 4096) / 2048 < 3)
have_bits x (inl e) = (omega arith, omega arith, omega arith)
have_bits x (inr (inl e)) = (omega arith, omega arith, omega arith)
have_bits x (inr (inr m)) = absurd m

running-AreMarkable : AreMarkable running (views_of fresh)
running-AreMarkable i x r = elim (Bool-cases (i == 12)) [
  | inl e ↦ rw e (λ m. have_bits x m)
  | inr e ↦ rw e (λ m. absurd m)
]

running-AreOwned : AreOwned running (views_of fresh)
running-AreOwned index bit a l e = absurd (true_ne_false (sym e ∙ test_bit-zero bit))
  where
    true_ne_false : ◌≡◌ {A = Bool} true false → ⊥
    true_ne_false e = cc

running-IsTricolor : IsTricolor running (views_of fresh)
running-IsTricolor i x r = elim (Bool-cases (i == 12)) [
  | inl e ↦ rw e (λ m. absurd m)
  | inr e ↦ rw e (λ m. absurd m)
]

word-IsPayload : IsPayload (views_of fresh) 4112
word-IsPayload =
    running-IsHeap.payload 12 4096 4112 (omega arith, omega arith) (inl refl) (omega arith)
      (omega arith) (omega arith)

busy-IsStart : IsStart roots busy (views_of fresh)
busy-IsStart = record {
  valid = running-IsHeap;
  tricolor = running-IsTricolor;
  barrier = refl;
  markable = running-AreMarkable;
  owned = running-AreOwned;
  polite = ((word-IsPayload, tt), (tt, ((roots-AreRoots.globals.0, tt), tt)));
  roots = roots-AreRoots;
  no_static = refl;
}

collect-keeps_snapshot_example :
    Returns
      (λ h'.
        (v' : (ℕ → View)) × IsHeap h' v'
        × ((i : ℕ) → InRange i → SameMembers (objects_of (views_of fresh i)) (objects_of (v' i)))
        × ((i : ℕ) → ((v' i).whites ≡ []) × ((v' i).grays ≡ []))
        × ((i x : ℕ)
            → IsReachable running (views_of fresh) (IsRoot roots running.mem) i x
            → (x ∈ (v' i).blacks) ⊎ (x ∈ (views_of fresh i).greens)))
      (collect roots 5 busy)
collect-keeps_snapshot_example =
    collect-keeps_snapshot roots 5 no-IsScanner busy (views_of fresh) busy-IsStart (omega arith)

write_barrier-IsSnapshot_example :
    Returns
      (λ h'.
        IsSnapshot running (views_of fresh) h' (views_of fresh)
        × Later (views_of fresh) running (views_of fresh) h' (views_of fresh))
      (write_barrier 4112 0 running)
write_barrier-IsSnapshot_example =
    write_barrier-IsSnapshot running (views_of fresh) running-IsHeap running-AreMarkable running
      (views_of fresh)
      (first-IsSnapshot running (views_of fresh) running-IsHeap running-IsTricolor refl
        running-AreOwned)
      4112 0 word-IsPayload

-- A memcpy of two words
abbrev copy_two : (p1 p2 : Ptr) → (num_bytes : ℕ) → Mem → Mem
copy_two p1 p2 num_bytes m b = if b == p1 then m p2 else (if b == p1 + 8 then m (p2 + 8) else m b)

copy_two-WritesWithin : WritesWithin 4112 16 (copy_two 4112 8208 16)
copy_two-WritesWithin m b d = elim (Bool-cases (b == 4112)) [
  | inl e ↦ inr (0, omega arith, eq_of_== b 4112 e)
  | inr e ↦ elim (Bool-cases (b == 4120)) [
    | inl k ↦ inr (1, omega arith, eq_of_== b 4120 k)
    | inr k ↦ inl (rw e (rw k refl))
  ]
]

words-IsPayloadSegment : IsPayloadSegment (views_of fresh) 4112 16
words-IsPayloadSegment j l =
    running-IsHeap.payload 12 4096 (4112 + 8 * j) (omega arith, omega arith) (inl refl)
      (omega arith) (omega arith) (omega arith)

memcpy-IsSnapshot_example :
    Returns
      (λ h'.
        IsSnapshot running (views_of fresh) h' (views_of fresh)
        × Later (views_of fresh) running (views_of fresh) h' (views_of fresh))
      (memcpy (ok tt) copy_two 4112 8208 16 running)
memcpy-IsSnapshot_example =
    memcpy-IsSnapshot running (views_of fresh) running-IsHeap running-AreMarkable (ok tt) refl
      copy_two 4112 8208 16 running (views_of fresh) refl
      (first-IsSnapshot running (views_of fresh) running-IsHeap running-IsTricolor refl
        running-AreOwned)
      words-IsPayloadSegment copy_two-WritesWithin

-- Before the flip both objects are black.
abbrev resting : Heap
resting = record (pair 0 1 kept) { write_vector_length = 3 }

resting-IsHeap : IsHeap resting (views_of kept)
resting-IsHeap =
    moved_table (pair 0 1 kept) (views_of kept) resting (views_of kept) kept-IsHeap
      kept-IsHeap.colors
      (record { group = kept-IsHeap.groups.group; apart = kept-IsHeap.groups.apart })
      (record { pages = refl; first = refl; last = refl; size = λ i. refl; index = λ i. refl })
      kept-IsHeap.classes (λ i r. (λ a m. m, λ a m. m))

resting-IsReady : IsReady resting (views_of kept)
resting-IsReady = record {
  valid = resting-IsHeap;
  barrier = refl;
  idle = kept-IsIdle;
  markable = λ i x r. elim (Bool-cases (i == 12)) [
    | inl e ↦ rw e (λ m. have_bits x m)
    | inr e ↦ rw e (λ m. absurd m)
  ];
  owned = λ index bit a l e. absurd (true_ne_false (sym e ∙ test_bit-zero bit));
  no_static = refl;
}
  where
    true_ne_false : ◌≡◌ {A = Bool} true false → ⊥
    true_ne_false e = cc

same_objects :
    (i : ℕ) → InRange i → SameMembers (objects_of (views_of fresh i)) (objects_of (views_of kept i))
same_objects i r = elim (Bool-cases (i == 12)) [
  | inl e ↦ rw e (λ a m. m, λ a m. m)
  | inr e ↦ rw e (λ a m. m, λ a m. m)
]

cycle-IsReady_example :
    Returns
      (λ h'.
        (v' : (ℕ → View)) × IsReady h' v'
        × ((i : ℕ) → InRange i → SameMembers (objects_of (views_of kept i)) (objects_of (v' i)))
        × ((h1 : Heap) × (flip handler_save resting ≡ ok h1)
            × ((i x : ℕ)
                → IsReachable h1 (λ j. flipped_view (views_of kept j)) (IsRoot roots h1.mem) i x
                → (x ∈ (v' i).blacks) ⊎ (x ∈ (views_of kept i).greens))))
      (cycle roots 5 handler_save busy.schedule resting)
cycle-IsReady_example =
    cycle-IsReady handler_save roots 5 no-IsScanner busy.schedule resting (views_of kept)
      handler_save-IsSave resting-IsReady
      (schedule-moved (views_of fresh) (views_of kept) same_objects busy.schedule
        busy-IsStart.polite)
      (AreRoots-moved (views_of fresh) (views_of kept) same_objects roots roots-AreRoots)
      (omega arith)
