-- ===== src/Concurrent/Clear.antt =====
-- Where scan_write_vector of rtgc.c clears a bit, while mutators store.
use rtgc.Common.{
  ℕ, ◌+◌, ◌-◌, ◌*◌, ◌/◌, ◌%◌, ◌<◌, ◌≤◌, ◌≡◌, inl, inr, refl, sym, ap, ◌∙◌, Bool, true, false, ◌∈◌,
  mem-append_left, ◌==◌, if◌then◌else◌, Bool-cases, eq_of_==, ==-true, arith,
}
use mathlib.Core.Path.{subst}
use rtgc.Common.Bits.{test_bit}
use rtgc.Group.View.{View}
use rtgc.Group.Frame.{objects_of}
use rtgc.Heap.{Heap, whitep}
use rtgc.Heap.Groups.{InRange}
use rtgc.Trace.Words.{is_white}
use rtgc.Trace.Total.{total}
use rtgc.WriteBarrier.Marks.{marked}
use rtgc.Concurrent.Snapshot.{AreMarkable, place, IsSnapshot, Later, weight}
use rtgc.Concurrent.Vector.{revector, revector-IsSnapshot, cleared, cleared-test, still_set}
use rtgc.Concurrent.Mutators.{able_now}

true_ne_false : ◌≡◌ {A = Bool} true false → ⊥
true_ne_false e = cc

module _ (h0 : Heap) (v0 : ℕ → View) where
  -- The mark of an object, by its place.
  pub marked_at :
      (h : Heap) (v : ℕ → View) (index bit x : ℕ)
      → IsSnapshot h0 v0 h v
      → bit < 64
      → x ≡ place h0 index bit
      → marked h x ≡ test_bit (h.write_vector index) bit
  marked_at h v index bit x s l e =
      let a =
        offsets h.first_partition_ptr
          (e ∙ ap (λ (f : ℕ). f + index * 32 * 64 + bit * 32) (sym s.table.first)) in
      ap (λ (j : ℕ). test_bit (h.write_vector j) ((x - h.first_partition_ptr) % 2048 / 32)) a.0
      ∙ ap (λ (b : ℕ). test_bit (h.write_vector index) b) a.1
    where
      offsets :
          (f : ℕ)
          → x ≡ f + index * 32 * 64 + bit * 32
          → ((x - f) / 2048 ≡ index) × ((x - f) % 2048 / 32 ≡ bit)
      offsets f e = omega arith

  module _ (able : AreMarkable h0 v0) (h : Heap) (v : ℕ → View) (s : IsSnapshot h0 v0 h v)
      (index bit : ℕ) (l : bit < 64) (i x : ℕ) (r : InRange i) (m : x ∈ objects_of (v0 i))
      (e : x ≡ place h0 index bit) (other : whitep h x ≡ false) where
    abbrev pub after : Heap
    after = revector h (cleared h.write_vector index bit)

    after-marked :
        (j y : ℕ)
        → InRange j
        → y ∈ objects_of (v0 j)
        → marked after y ≡ (if y == x then false else marked h y)
    after-marked j y q n =
        let a = able_now h0 v0 able h v s j y q n in
        let at_x : x ≡ h.first_partition_ptr + index * 32 * 64 + bit * 32 =
          e ∙ ap (λ (f : ℕ). f + index * 32 * 64 + bit * 32) (sym s.table.first) in
        cleared-test h.write_vector index bit (y - h.first_partition_ptr) l a.1
        ∙ ap (λ (b : Bool). if b then false else marked h y)
            (same_test h.first_partition_ptr x y (index * 32 * 64 + bit * 32) a.0
              (at_x ∙ assoc h.first_partition_ptr))
      where
        assoc : (f : ℕ) → f + index * 32 * 64 + bit * 32 ≡ f + (index * 32 * 64 + bit * 32)
        assoc f = omega arith

        same_test : (f x y o : ℕ) → f ≤ y → x ≡ f + o → (y - f == o) ≡ (y == x)
        same_test f x y o a e = ground arith

    lighter_at :
        (b m w : Bool)
        → (b ≡ true → w ≡ false)
        → (if (if b then false else m) then 1 else (if w then 2 else 0))
          ≤ (if m then 1 else (if w then 2 else 0))
    lighter_at true m w f = rw (f refl) (nothing m)
      where
        nothing : (m : Bool) → 0 ≤ (if m then 1 else 0)
        nothing true = omega arith
        nothing false = omega arith
    lighter_at false m w f = same (if m then 1 else (if w then 2 else 0))
      where
        same : (a : ℕ) → a ≤ a
        same a = omega arith

    pub clear-Later : Later v0 h v after v
    clear-Later = record {
      whites = λ j a n. n;
      marks = λ j y q n k.
          let n0 = (s.members j).1 y (mem-append_left y (v j).whites _ n) in
          after-marked j y q n0
          ∙ ap (λ (b : Bool). if b then false else marked h y) (differs j y q n)
          ∙ k;
      lighter = λ j y q n.
          subst (λ (b : Bool). (if b then 1 else (if whitep h y then 2 else 0)) ≤ weight h y)
            (sym (after-marked j y q n))
            (lighter_at (y == x) (marked h y) (whitep h y)
              (λ k. ap (λ (z : ℕ). whitep h z) (eq_of_== y x k) ∙ other));
      fewer = same (total 20 5 v);
    }
      where
        same : (a : ℕ) → a ≤ a
        same a = omega arith

        differs : (j y : ℕ) → InRange j → y ∈ (v j).whites → (y == x) ≡ false
        differs j y q n = elim (Bool-cases (y == x)) [
          | inl k ↦ absurd (
              true_ne_false (
                sym (is_white h v s.valid j y q n)
                ∙ ap (λ (z : ℕ). whitep h z) (eq_of_== y x k)
                ∙ other))
          | inr k ↦ k
        ]

    pub clear-IsSnapshot : IsSnapshot h0 v0 after v
    clear-IsSnapshot =
        revector-IsSnapshot h0 v0 h v _ s clear-Later
          (λ j b u p k. s.owned j b u p (still_set h.write_vector index bit j b k))

    -- The mark was set, and the object is not white.
    pub clear-lighter : marked h x ≡ true → weight after x < weight h x
    clear-lighter k =
        let now : marked after x ≡ false =
          after-marked i x r m
          ∙ ap (λ (b : Bool). if b then false else marked h x) (==-true x x refl) in
        rw (now, k, other) (omega arith)
