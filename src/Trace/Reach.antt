-- ===== src/Trace/Reach.antt =====
-- What the marking of rtgc.c retains: the objects that can be reached from words.
use rtgc.Common.{ℕ, ◌+◌, ◌*◌, ◌<◌, ◌≡◌, ◌⊎◌, inl, inr, sym, ap, ◌∙◌, ◌∈◌, some, mem-append}
use mathlib.Core.Path.{subst}
use rtgc.InfoBits.{get_storage_class, sc_pointers}
use rtgc.Group.View.{View}
use rtgc.Group.Frame.{objects_of}
use rtgc.Heap.{Heap}
use rtgc.Heap.Groups.{InRange}
use rtgc.Heap.Target.{target, target-KeepsHeap}
use rtgc.Heap.Valid.{IsHeap}
use rtgc.Trace.Words.{IsShaded}
use rtgc.Trace.Segments.{word_count, Darker, object-ArePayload, object-Aligned}
use rtgc.Trace.Finish.{IsMarked}

-- The objects that lead from the words in `roots` over the words of allocated objects whose class
-- has pointers.
pub data IsReachable (h : Heap) (views : ℕ → View) (roots : ℕ → Type 0) : ℕ → ℕ → Type 0 where
  from_root : {w i x : ℕ} → roots w → target h w ≡ some (i, x) → IsReachable h views roots i x
  from_object :
      {i x j k y : ℕ}
      → IsReachable h views roots i x
      → (x ∈ (views i).greens → ⊥)
      → get_storage_class h.mem x ≡ sc_pointers
      → k < word_count ((h.groups i).size)
      → target h (h.mem (x + 16 + 8 * k)) ≡ some (j, y)
      → IsReachable h views roots j y

module _ (h : Heap) (views : ℕ → View) (roots : ℕ → Type 0) (m : IsMarked h views)
    (shaded : (w : ℕ) → roots w → IsShaded h views w) where
  in_lists : {i x : ℕ} → IsReachable h views roots i x → InRange i × (x ∈ objects_of (views i))
  in_lists (from_root {w} {i} {x} r t) = let u = m.valid.targets w i x t in (u.0, u.1)
  in_lists (from_object {i} {x} {j} {k} {y} r g c l t) =
      let u = m.valid.targets (h.mem (x + 16 + 8 * k)) j y t in (u.0, u.1)

  -- Once marking is over, no object is white that can be reached from words that do not point to
  -- white objects.
  reachable-not_white : {i x : ℕ} → IsReachable h views roots i x → x ∈ (views i).whites → ⊥
  reachable-not_white (from_root {w} {i} {x} r t) q = shaded w r i x t q
  reachable-not_white (from_object {i} {x} {j} {k} {y} r g c l t) q =
      let u = in_lists r in
      elim (mem-append x (views i).whites _ u.1) [
        | inl a ↦ reachable-not_white r a
        | inr a ↦ elim (mem-append x (views i).grays _ a) [
          | inl b ↦ subst (λ l. x ∈ l) (m.no_grays i u.0) b
          | inr b ↦ elim (mem-append x (views i).blacks _ b) [
            | inl e ↦ m.tricolor i x u.0 e c k l j y t q
            | inr e ↦ g e
          ]
        ]
      ]

  pub reachable-IsRetained :
      (i x : ℕ) → IsReachable h views roots i x → (x ∈ (views i).blacks) ⊎ (x ∈ (views i).greens)
  reachable-IsRetained i x r =
      let u = in_lists r in
      elim (mem-append x (views i).whites _ u.1) [
        | inl a ↦ absurd (reachable-not_white r a)
        | inr a ↦ elim (mem-append x (views i).grays _ a) [
          | inl b ↦ absurd (subst (λ l. x ∈ l) (m.no_grays i u.0) b)
          | inr b ↦ mem-append x (views i).blacks (views i).greens b
        ]
      ]

in_lists_of :
    (h : Heap) (v : ℕ → View) (roots : ℕ → Type 0) (i x : ℕ)
    → IsHeap h v
    → IsReachable h v roots i x
    → InRange i × (x ∈ objects_of (v i))
in_lists_of h v roots i x valid (from_root {w} r t) = let u = valid.targets w i x t in (u.0, u.1)
in_lists_of h v roots i x valid (from_object {i = j} {x = y} {k = k} r g c l t) =
    let u = valid.targets (h.mem (y + 16 + 8 * k)) i x t in (u.0, u.1)

-- What can be reached stays so while objects get darker.
pub IsReachable-later :
    (h : Heap) (v : ℕ → View) (roots : ℕ → Type 0) (h' : Heap) (v' : ℕ → View) (i x : ℕ)
    → IsHeap h v
    → Darker h v h' v'
    → IsReachable h v roots i x
    → IsReachable h' v' roots i x
IsReachable-later h v roots h' v' i x valid d (from_root {w} r t) =
    from_root r (target-KeepsHeap h h' w d.marks.keeps ∙ t)
IsReachable-later h v roots h' v' i x valid d (from_object {i = j} {x = y} {k = k} r g c l t) =
    let u = in_lists_of h v roots j y valid r in
    let a = object-ArePayload h v valid j u.0 y u.1 k l in
    from_object (IsReachable-later h v roots h' v' j y valid d r)
      (λ m. g (subst (λ l. y ∈ l) (d.greens j) m))
      (d.marks.keeps.classes y (object-Aligned h v valid j u.0 y u.1) ∙ c)
      (subst (λ n. k < word_count n) (sym (d.marks.keeps.size j)) l)
      (target-KeepsHeap h h' (h'.mem (y + 16 + 8 * k)) d.marks.keeps
        ∙ ap (λ (w : ℕ). target h w) (d.marks.contents (y + 16 + 8 * k) a)
        ∙ t)
