-- ===== src/Concurrent/Search.antt =====
-- Parts of scan_write_vector of rtgc.c while mutators store, and how they follow each other.
use rtgc.Common.{
  ℕ, ◌+◌, ◌≤◌, ◌≡◌, inl, inr, refl, sym, ◌∙◌, Bool, true, false, ◌∈◌, Bool-cases, arith,
}
use mathlib.Core.Path.{subst}
use rtgc.Group.View.{View}
use rtgc.Heap.{Heap}
use rtgc.Heap.Groups.{InRange}
use rtgc.WriteBarrier.Marks.{marked}
use rtgc.Trace.GraySet.{high}
use rtgc.Concurrent.{Shared}
use rtgc.Concurrent.Snapshot.{Later, Later-refl, Later-trans}
use rtgc.Concurrent.Load.{load, load-le}
use rtgc.Concurrent.Stores.{IsGoing}

-- A part of the pass over the write vector, with the counts of found marks before and after.
pub record Search (h0 : Heap) (v0 : ℕ → View) (s : Shared) (v : ℕ → View) (n : ℕ) (s' : Shared)
    (v' : ℕ → View) (n' : ℕ) : Type 0 where
  pub going : IsGoing h0 v0 v' s'
  pub later : Later v0 s.heap v s'.heap v'
  pub count : n' + load 20 5 v0 s'.heap ≤ n + load 20 5 v0 s.heap
  pub more : n ≤ n'
  pub idle : n' ≡ n → v' ≡ v

unmarked_before :
    (v0 : ℕ → View) (h : Heap) (v : ℕ → View) (h' : Heap) (v' : ℕ → View) (i x : ℕ)
    → Later v0 h v h' v'
    → InRange i
    → x ∈ (v' i).whites
    → marked h' x ≡ false
    → marked h x ≡ false
unmarked_before v0 h v h' v' i x l r m e = elim (Bool-cases (marked h x)) [
  | inl k ↦ absurd (true_ne_false (sym (l.marks i x r m k) ∙ e))
  | inr k ↦ k
]
  where
    true_ne_false : ◌≡◌ {A = Bool} true false → ⊥
    true_ne_false e = cc

pub low : (a b c : ℕ) → a ≤ b → b ≤ c → c ≡ a → b ≡ a
low a b c p q e = omega arith

module _ (h0 : Heap) (v0 : ℕ → View) where
  pub Search-refl :
      (s : Shared) (v : ℕ → View) (n : ℕ) → IsGoing h0 v0 v s → Search h0 v0 s v n s v n
  Search-refl s v n g = record {
    going = g;
    later = Later-refl v0 s.heap v;
    count = le (n + load 20 5 v0 s.heap);
    more = omega arith;
    idle = λ e. refl;
  }
    where
      le : (a : ℕ) → a ≤ a
      le a = omega arith

  pub Search-trans :
      (s : Shared) (v : ℕ → View) (n : ℕ) (s1 : Shared) (v1 : ℕ → View) (n1 : ℕ) (s2 : Shared)
      (v2 : ℕ → View) (n2 : ℕ)
      → Search h0 v0 s v n s1 v1 n1
      → Search h0 v0 s1 v1 n1 s2 v2 n2
      → Search h0 v0 s v n s2 v2 n2
  Search-trans s v n s1 v1 n1 s2 v2 n2 p q = record {
    going = q.going;
    later = Later-trans v0 s.heap v s1.heap v1 s2.heap v2 p.later q.later;
    count =
        le_trans (n2 + load 20 5 v0 s2.heap) (n1 + load 20 5 v0 s1.heap) (n + load 20 5 v0 s.heap)
          q.count p.count;
    more = le_trans n n1 n2 p.more q.more;
    idle = λ e. q.idle (high n n1 n2 p.more q.more e) ∙ p.idle (low n n1 n2 p.more q.more e);
  }
    where
      le_trans : (a b c : ℕ) → a ≤ b → b ≤ c → a ≤ c
      le_trans a b c p q = omega arith

  -- The stores before the collector's next step.
  pub waited :
      (s : Shared) (v : ℕ → View) (n : ℕ) (s1 : Shared)
      → IsGoing h0 v0 v s1
      → Later v0 s.heap v s1.heap v
      → Search h0 v0 s v n s1 v n
  waited s v n s1 g l = record {
    going = g;
    later = l;
    count =
        add n (load 20 5 v0 s1.heap) (load 20 5 v0 s.heap)
          (load-le s.heap s1.heap v0 20 5 (λ j y a b k. l.lighter j y (a, omega arith) k));
    more = omega arith;
    idle = λ e. refl;
  }
    where
      add : (n a b : ℕ) → a ≤ b → n + a ≤ n + b
      add n a b l = omega arith

  -- White objects with a property have no mark, if no mark is found.
  abbrev pub Unmarked : Shared → (ℕ → View) → (ℕ → Type 0) → Type 0
  Unmarked s v P = (j x : ℕ) → InRange j → x ∈ (v j).whites → P x → marked s.heap x ≡ false

  -- What a later part shows of the objects that are still white.
  pub Unmarked-before :
      (s : Shared) (v : ℕ → View) (n : ℕ) (s1 : Shared) (v1 : ℕ → View) (n1 : ℕ) (P : ℕ → Type 0)
      → Search h0 v0 s v n s1 v1 n1
      → n1 ≡ n
      → Unmarked s1 v1 P
      → Unmarked s v P
  Unmarked-before s v n s1 v1 n1 P p e u j x r m q =
      let m1 = subst (λ w. x ∈ (w j).whites) (sym (p.idle e)) m in
      unmarked_before v0 s.heap v s1.heap v1 j x p.later r m1 (u j x r m1 q)
