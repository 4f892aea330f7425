-- ===== src/Heap/Written.antt =====
-- A valid heap in which words that are at no header change, as by a store of a mutator or when the
-- signal handlers of rtstop.c save registers and stacks.
use rtgc.Common.{
  ℕ, ◌+◌, ◌%◌, ◌<◌, ◌≡◌, ◌≢◌, ◌⊎◌, inl, inr, refl, sym, ◌∈◌, All, All-mem, All-of_mem, arith,
}
use mathlib.Core.Path.{subst}
use rtgc.InfoBits.{Mem, get_storage_class, sc_metadata}
use rtgc.InfoBits.Words.{Aligned}
use rtgc.Chain.{IsNode}
use rtgc.Group.View.{View}
use rtgc.Group.Extend.Objects.{SameHeader}
use rtgc.Group.Frame.{objects_of, header_same, same-IsGroup}
use rtgc.Heap.{Heap, group_state}
use rtgc.Heap.Groups.{InRange}
use rtgc.Heap.Valid.{IsHeap, IsPayload, moved_table}

abbrev pub with_mem : Heap → Mem → Heap
with_mem h m = record h { mem = m }

module _ (h : Heap) (v : ℕ → View) (valid : IsHeap h v) (m' : Mem)
    (c : (b : ℕ) → b % 8 ≡ 0 → (m' b ≡ h.mem b) ⊎ IsPayload v b) where
  same_words :
      (i x : ℕ) → InRange i → x ∈ objects_of (v i) → (m' x ≡ h.mem x) × (m' (x + 8) ≡ h.mem (x + 8))
  same_words i x r m =
      let header = λ (b : ℕ) (p : IsPayload v b).
        All-mem (λ n. (b ≢ n) × (b ≢ n + 8)) x (objects_of (v i)) m (p.1 i r) in
      let aligned =
        (All-mem IsNode x (objects_of (v i)) m (valid.groups.group i r).linked.nodes.0).0 in
      (
        elim (c x (first aligned)) [ inl e ↦ e | inr p ↦ absurd ((header x p).0 refl) ],
        elim (c (x + 8) (second aligned)) [
          | inl e ↦ e
          | inr p ↦ absurd ((header (x + 8) p).1 refl)
        ],
      )
    where
      first : Aligned x → x % 8 ≡ 0
      first a = omega arith

      second : Aligned x → (x + 8) % 8 ≡ 0
      second a = omega arith

  pub same_headers : (i : ℕ) → InRange i → All (SameHeader h.mem m') (objects_of (v i))
  same_headers i r =
      All-of_mem (SameHeader h.mem m') (objects_of (v i))
        (λ x m. let e = same_words i x r m in header_same h.mem m' x e.0 e.1)

  pub same_class :
      (i x : ℕ)
      → InRange i
      → x ∈ objects_of (v i)
      → get_storage_class m' x ≡ get_storage_class h.mem x
  unfolding get_storage_class
  same_class i x r m = rw ((same_words i x r m).1) refl

  pub with_mem-IsHeap : IsHeap (with_mem h m') v
  with_mem-IsHeap =
      moved_table h v (with_mem h m') v valid valid.colors
        (record {
          group = λ i r.
              same-IsGroup h.marked_color h.unmarked_color (group_state i h) (v i) m'
                (valid.groups.group i r) (same_headers i r);
          apart = valid.groups.apart;
        })
        (record { pages = refl; first = refl; last = refl; size = λ j. refl; index = λ j. refl })
        (λ i x r m. subst (λ n. n < sc_metadata) (sym (same_class i x r m)) (valid.classes i x r m))
        (λ j q. (λ b k. k, λ b k. k))
