-- ===== src/Examples/Cycle.antt =====
-- The theorems on whole heaps, at a heap of two objects.
use rtgc.Common.{
  ℕ, ◌+◌, ◌%◌, ◌<◌, ◌≤◌, ◌≡◌, ◌≢◌, ◌⊎◌, ◌*◌, inl, inr, refl, true, false, ◌∈◌, [], ◌∷◌, none, ok,
  ◌>>=◌, Returns, returns, SameMembers, All-of_mem, ◌==◌, Bool-cases, arith, length, Bool, ltb,
  ltb→lt, ltb-false, if◌then◌else◌,
}
use native.Mathlib.Nat.{one-le-pow}
use rtgc.InfoBits.{Mem}
use rtgc.Group.View.{View}
use rtgc.Group.Frame.{objects_of}
use rtgc.Heap.Groups.{InRange, AreGroups, KeepsHeap, uniform}
use rtgc.Heap.Valid.{IsHeap, IsPayload}
use rtgc.Trace.{trace_pointer, scan_gray_set}
use rtgc.Trace.Words.{Traced, Traced-refl, IsShaded, trace_pointer-Traced}
use rtgc.Trace.Segments.{Darker, IsScanner}
use rtgc.Trace.Total.{total}
use rtgc.Trace.Blacken.{IsTricolor}
use rtgc.Trace.Finish.{IsMarked, scan_gray_set-IsMarked}
use rtgc.Trace.Reach.{IsReachable}
use rtgc.Collect.{Roots, flip, recycle_groups, scan_root_set, mark}
use rtgc.Collect.Groups.{
  IsSave, IsIdle, flipped_view, recycled_view, flip-IsHeap, recycle_groups-AreGroups,
}
use rtgc.Collect.RootWords.{IsRoot}
use rtgc.Collect.RootSet.{AreRoots, scan_root_set-IsShaded}
use rtgc.Collect.Cycle.{collect-retains}
use rtgc.Inspect.{verify_white_counts}
use rtgc.Inspect.Whites.{AreAligned, verify_white_counts-eq-ok}
use rtgc.Examples.Pair.{pair, views_of}
use rtgc.Examples.PairHeaps.{
  kept, fresh, half, done, kept-IsHeap, fresh-IsHeap, half-IsHeap, done-IsHeap,
}

pub kept-IsIdle : (i : ℕ) → InRange i → IsIdle (views_of kept i)
kept-IsIdle i r = elim (Bool-cases (i == 12)) [
  | inl e ↦ rw e (refl, refl)
  | inr e ↦ rw e (refl, refl)
]

-- A scanner that traces nothing.
pub no-IsScanner : IsScanner (λ low high h. ok h)
no-IsScanner low high h v valid = returns (v, Traced-refl h v valid)

fresh-IsTricolor : IsTricolor (pair 0 1 fresh) (views_of fresh)
fresh-IsTricolor i x r = elim (Bool-cases (i == 12)) [
  | inl e ↦ rw e (λ m. absurd m)
  | inr e ↦ rw e (λ m. absurd m)
]

half-IsTricolor : IsTricolor (pair 0 1 half) (views_of half)
half-IsTricolor i x r = elim (Bool-cases (i == 12)) [
  | inl e ↦ rw e (λ m. absurd m)
  | inr e ↦ rw e (λ m. absurd m)
]

-- The registers of one thread are the words from 0, its stack those from 1024, and the word 64 is
-- a global root.
abbrev pub roots : Roots
roots = record {
  saved_threads = (record { registers = 0; saved_stack_base = 1024; saved_stack_size = 64 }) ∷ [];
  no_write_barrier_state_ptr = 0;
  no_write_barrier_state = 4200;
  global_roots = 64 ∷ [];
  root_scanners = λ i. none;
  total_root_scanners = 0;
  custom_scanner = λ low high h. ok h;
}

header_free :
    (v : View)
    → objects_of v ≡ 4096 ∷ 8192 ∷ []
    → (a : ℕ) → a % 8 ≡ 0
    → a < 4096
    → IsPayload (views_of v) a
header_free v e a d l = (
  d,
  λ j r.
      All-of_mem (λ n. (a ≢ n) × (a ≢ n + 8)) (objects_of (views_of v j))
        (λ b m. elim (Bool-cases (j == 12)) [
          | inl q ↦ two b (rw e at (rw q at m))
          | inr q ↦ absurd (rw q at m)
        ]),
)
  where
    two : (b : ℕ) → b ∈ (4096 ∷ 8192 ∷ []) → (a ≢ b) × (a ≢ b + 8)
    two b (inl e) = (λ q. omega arith, λ q. omega arith)
    two b (inr (inl e)) = (λ q. omega arith, λ q. omega arith)
    two b (inr (inr m)) = absurd m

low-IsPayload : (a : ℕ) → a % 8 ≡ 0 → a < 4096 → IsPayload (views_of fresh) a
low-IsPayload = header_free fresh refl

-- The handler writes 23 registers from 0 on, and a stack of 64 bytes from 1024 on, in which every
-- word points into the first object.
abbrev pub handler_save : Mem → Mem
handler_save m b =
    if ltb b 184 then b else if ltb b 1024 then m b else if ltb b 1088 then 4200 else m b

pub handler_save-IsSave : IsSave (views_of kept) handler_save
handler_save-IsSave m b d = elim (Bool-cases (ltb b 1088)) [
  | inl e ↦ inr (header_free kept refl b d (below (ltb→lt b 1088 e)))
  | inr e ↦ inl (rw (ltb-false b 184 (above (not_ltb e)), e) (same (ltb b 1024) (m b)))
]
  where
    below : b < 1088 → b < 4096
    below l = omega arith

    not_ltb : ltb b 1088 ≡ false → 1088 ≤ b
    not_ltb e = ground arith

    above : 1088 ≤ b → 184 ≤ b
    above l = omega arith

    same : (q : Bool) (x : ℕ) → (if q then x else x) ≡ x
    same true x = refl
    same false x = refl

pub roots-AreRoots : AreRoots roots (views_of fresh)
roots-AreRoots = record {
  threads = (
    λ j l. low-IsPayload (0 + 8 * j) (omega arith) (omega arith),
    λ j l. low-IsPayload (1024 + 8 * j) (omega arith) (omega arith),
    tt,
  );
  globals = (low-IsPayload 64 (omega arith) (omega arith), tt);
  scanners = λ j l. absurd (omega arith);
}

flip-IsHeap_example :
    Returns
      (λ h'.
        IsHeap h' (λ i. flipped_view (views_of kept i))
        × (h'.marked_color ≡ 1)
        × (h'.unmarked_color ≡ 0)
        × (h'.enable_write_barrier ≡ true))
      (flip handler_save (pair 0 1 kept))
flip-IsHeap_example =
    flip-IsHeap handler_save (pair 0 1 kept) (views_of kept) handler_save-IsSave refl kept-IsHeap
      kept-IsIdle

done-few : (i : ℕ) → InRange i → length (views_of done i).whites < 2
done-few i r = elim (Bool-cases (i == 12)) [
  | inl e ↦ rw e (omega arith)
  | inr e ↦ rw e (omega arith)
]

done-none : (i : ℕ) → InRange i → (views_of done i).grays ≡ []
done-none i r = elim (Bool-cases (i == 12)) [ inl e ↦ rw e refl | inr e ↦ rw e refl ]

recycle_groups-AreGroups_example :
    Returns
      (λ h'.
        AreGroups h' (uniform 0 1 (λ i. recycled_view (views_of done i)))
        × KeepsHeap (pair 0 1 done) h')
      (recycle_groups roots 2 20 5 (pair 0 1 done))
recycle_groups-AreGroups_example =
    recycle_groups-AreGroups roots 2 (pair 0 1 done) (views_of done) done-IsHeap.groups done-none
      done-few

-- A pointer into the first object.
trace_pointer-Traced_example :
    Returns
      (λ h'.
        (v' : (ℕ → View)) × Traced (pair 0 1 fresh) (views_of fresh) h' v' × IsShaded h' v' 4100)
      (trace_pointer 4100 (pair 0 1 fresh))
trace_pointer-Traced_example =
    trace_pointer-Traced (pair 0 1 fresh) (views_of fresh) 4100 fresh-IsHeap

scan_gray_set-IsMarked_example :
    Returns
      (λ h'.
        (v' : (ℕ → View)) × Darker (pair 0 1 half) (views_of half) h' v'
        × IsMarked h' v'
        × (total 20 5 v' ≤ 2))
      (scan_gray_set (λ low high h. ok h) 3 (pair 0 1 half))
scan_gray_set-IsMarked_example =
    scan_gray_set-IsMarked (λ low high h. ok h) 3 no-IsScanner (pair 0 1 half) (views_of half)
      half-IsHeap half-IsTricolor (omega arith)

scan_root_set-IsShaded_example :
    Returns
      (λ h'.
        (v' : (ℕ → View)) × Traced (pair 0 1 fresh) (views_of fresh) h' v'
        × ((w : ℕ) → IsRoot roots (pair 0 1 fresh).mem w → IsShaded h' v' w))
      (scan_root_set roots 3 (pair 0 1 fresh))
scan_root_set-IsShaded_example =
    scan_root_set-IsShaded roots 3 (pair 0 1 fresh) (views_of fresh) fresh-IsHeap roots-AreRoots
      refl (omega arith)

collect-retains_example :
    Returns
      (λ h'.
        (v' : (ℕ → View)) × AreGroups h' (uniform 0 1 v')
        × ((i : ℕ) → InRange i → SameMembers (objects_of (views_of fresh i)) (objects_of (v' i)))
        × ((i : ℕ) → ((v' i).whites ≡ []) × ((v' i).grays ≡ []))
        × ((i x : ℕ)
            → IsReachable (pair 0 1 fresh) (views_of fresh) (IsRoot roots (pair 0 1 fresh).mem) i x
            → (x ∈ (v' i).blacks) ⊎ (x ∈ (views_of fresh i).greens)))
      (scan_root_set roots 3 (pair 0 1 fresh) >>= mark roots 3 3 >>= λ h2.
        recycle_groups roots 3 20 5 (record h2 { enable_write_barrier = false }))
collect-retains_example =
    collect-retains roots 3 no-IsScanner (pair 0 1 fresh) (views_of fresh) fresh-IsHeap
      fresh-IsTricolor roots-AreRoots refl (λ j l. refl) (omega arith)

done-large : (i : ℕ) → InRange i → 0 < ((pair 0 1 done).groups i).size
done-large i r = elim (Bool-cases (i == 12)) [
  | inl e ↦ rw e (omega arith)
  | inr e ↦ rw e (one-le-pow i 2 (omega arith))
]

done-AreAligned :
    (i : ℕ) → InRange i → AreAligned (((pair 0 1 done).groups i).size) (views_of done i).whites
done-AreAligned i r = elim (Bool-cases (i == 12)) [ inl e ↦ rw e (refl, tt) | inr e ↦ rw e tt ]

verify_white_counts-eq-ok_example : verify_white_counts 2 20 5 (pair 0 1 done) ≡ ok tt
verify_white_counts-eq-ok_example =
    verify_white_counts-eq-ok (pair 0 1 done) (views_of done) 2 done-IsHeap.groups done-large
      (λ i r s. done-AreAligned i r) done-few
