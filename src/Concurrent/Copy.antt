-- ===== src/Concurrent/Copy.antt =====
-- memory_segment_write_barrier, RTmemcpy and RTmemset of rtgc.c, while the collector marks.
use rtgc.Common.{
  ℕ, zero, suc, ◌+◌, ◌-◌, ◌*◌, ◌/◌, ◌%◌, ◌<◌, ◌≡◌, ◌⊎◌, inl, inr, sym, ap, Bool, Run, ok, ◌>>=◌,
  Returns, returns, Returns-bind, Returns-mono, if◌then◌else◌, ==-true, arith,
}
use mathlib.Core.Path.{subst}
use rtgc.InfoBits.{Mem, Ptr}
use rtgc.Group.View.{View}
use rtgc.Heap.{Heap}
use rtgc.Heap.Valid.{IsHeap, IsPayload}
use rtgc.WriteBarrier.{mark_words, memory_segment_write_barrier, memcpy, memset}
use rtgc.Concurrent.Snapshot.{
  AreMarkable, IsCovered, IsCovered-Later, IsSnapshot, Later, Later-refl, Later-trans,
}
use rtgc.Heap.Written.{with_mem}
use rtgc.Concurrent.Payload.{with_mem-Later, with_mem-IsSnapshot}
use rtgc.Concurrent.Stores.{overwritten-Goes}

-- How many words the segment of so many bytes has.
abbrev pub words_of : ℕ → ℕ
words_of num_bytes = (num_bytes + 7) / 8

-- No word of the segment is at a header.
abbrev pub IsPayloadSegment : (ℕ → View) → (p1 : Ptr) → (num_bytes : ℕ) → Type 0
IsPayloadSegment v0 p1 num_bytes = (j : ℕ) → j < words_of num_bytes → IsPayload v0 (p1 + 8 * j)

-- A change of memory writes no other aligned word than those of the segment.
abbrev pub WritesWithin : (p1 : Ptr) → (num_bytes : ℕ) → (Mem → Mem) → Type 0
WritesWithin p1 num_bytes f =
    (m : Mem) (b : Ptr)
    → b % 8 ≡ 0
    → (f m b ≡ m b) ⊎ ((j : ℕ) × (j < words_of num_bytes) × (b ≡ p1 + 8 * j))

module _ (h0 : Heap) (v0 : ℕ → View) (valid0 : IsHeap h0 v0) (able : AreMarkable h0 v0) where
  abbrev Goes : (ℕ → View) → Heap → Heap → Type 0
  Goes v h h' = IsSnapshot h0 v0 h' v × Later v0 h v h' v

  -- The words of the segment are covered.
  abbrev AreCovered : (ℕ → View) → ℕ → Ptr → Heap → Type 0
  AreCovered v k next h = (j : ℕ) → j < k → IsCovered h0 h v (h0.mem (next + 8 * j))

  mark_words-Goes :
      (k : ℕ) (next : Ptr) (h : Heap) (v : ℕ → View)
      → next % 8 ≡ 0
      → IsSnapshot h0 v0 h v
      → ((j : ℕ) → j < k → IsPayload v0 (next + 8 * j))
      → Returns (λ h'. Goes v h h' × AreCovered v k next h') (mark_words k next h)
  unfolding mark_words
  mark_words-Goes zero next h v g s p =
      returns ((s, Later-refl v0 h v), λ j l. absurd (none_below j l))
    where
      none_below : (j : ℕ) → j < 0 → ⊥
      none_below j l = omega arith
  mark_words-Goes (suc k) next h v g s p = rw (==-true (next % 8) 0 g) (
      Returns-bind
        (overwritten-Goes h0 v0 valid0 able h v s next
          (subst (λ a. IsPayload v0 a) (first next) (p 0 (omega arith))))
        (λ h1 ((s1, l1), c).
          Returns-mono
            (mark_words-Goes k (next + 8) h1 v (omega arith) s1
              (λ j l. subst (λ a. IsPayload v0 a) (later next j) (p (suc j) (omega arith))))
            (λ h2 ((s2, l2), d). (
              (s2, Later-trans v0 h v h1 v h2 v l1 l2),
              λ j. all h2 (IsCovered-Later h0 v0 h1 v h2 v (h0.mem next) l2 c) d j,
            ))))
    where
      first : (a : ℕ) → a + 8 * 0 ≡ a
      first a = omega arith

      later : (a j : ℕ) → a + 8 * suc j ≡ a + 8 + 8 * j
      later a j = omega arith

      all :
          (h2 : Heap)
          → IsCovered h0 h2 v (h0.mem next)
          → AreCovered v k (next + 8) h2
          → AreCovered v (suc k) next h2
      all h2 c d zero l = subst (λ a. IsCovered h0 h2 v (h0.mem a)) (sym (first next)) c
      all h2 c d (suc j) l =
          subst (λ a. IsCovered h0 h2 v (h0.mem a)) (sym (later next j)) (d j (omega arith))

  module _ (resumed : Run (Unit {0})) (back : resumed ≡ ok tt) where
    segment-Goes :
        (p1 : Ptr) (num_bytes : ℕ) (h : Heap) (v : ℕ → View)
        → p1 % 8 ≡ 0
        → IsSnapshot h0 v0 h v
        → IsPayloadSegment v0 p1 num_bytes
        → Returns
            (λ h'. Goes v h h' × AreCovered v (words_of num_bytes) p1 h')
            (memory_segment_write_barrier resumed p1 (p1 + num_bytes) h)
    unfolding memory_segment_write_barrier
    segment-Goes p1 num_bytes h v g s p =
        let n = (p1 + num_bytes + 7 - p1) / 8 in
        let e : (if h.enable_write_barrier then mark_words n p1 h else ok h) ≡ mark_words n p1 h =
          ap (λ (t : Bool). if t then mark_words n p1 h else ok h) s.barrier in
        rw back (rw e (rw (count p1 num_bytes) (mark_words-Goes (words_of num_bytes) p1 h v g s p)))
      where
        count : (a n : ℕ) → (a + n + 7 - a) / 8 ≡ words_of n
        count a n = omega arith

    -- A change within the segment, after its write barrier.
    changed-Goes :
        (f : Mem → Mem) (p1 : Ptr) (num_bytes : ℕ) (h : Heap) (v : ℕ → View)
        → p1 % 8 ≡ 0
        → IsSnapshot h0 v0 h v
        → IsPayloadSegment v0 p1 num_bytes
        → WritesWithin p1 num_bytes f
        → Returns (Goes v h) (
            memory_segment_write_barrier resumed p1 (p1 + num_bytes) h >>= λ h'.
            ok (with_mem h' (f h'.mem)))
    changed-Goes f p1 num_bytes h v g s p within =
        Returns-bind (segment-Goes p1 num_bytes h v g s p) (λ h1 ((s1, l1), d).
          let c = changes h1 d in
          returns (
            with_mem-IsSnapshot h0 v0 h1 v s1 (f h1.mem) c,
            Later-trans v0 h v h1 v _ v l1 (with_mem-Later h0 v0 h1 v s1 (f h1.mem) c),
          ))
      where
        changes :
            (h1 : Heap)
            → AreCovered v (words_of num_bytes) p1 h1
            → (b : ℕ) → b % 8 ≡ 0
            → (f h1.mem b ≡ h1.mem b) ⊎ (IsPayload v0 b × IsCovered h0 h1 v (h0.mem b))
        changes h1 d b q = elim (within h1.mem b q) [
          | inl e ↦ inl e
          | inr (j, l, e) ↦
              inr
                (subst (λ a. IsPayload v0 a × IsCovered h0 h1 v (h0.mem a)) (sym e) (p j l, d j l))
        ]

    -- Where a heap is what marking keeps against the snapshot of a valid heap whose objects have
    -- bits of the write vector, and the call of Debugger comes back, RTmemcpy returns at every
    -- destination that is a multiple of 8 and no word of which is at the header of an object,
    -- whatever it copies, if memcpy writes no word outside those of the destination; and the heap is so again: no word of the snapshot
    -- that has been overwritten or that a black object had points to a white object without a
    -- mark. The lists stay the same, and white objects keep their marks.
    pub memcpy-IsSnapshot :
        (libc_memcpy : (p1 p2 : Ptr) → (num_bytes : ℕ) → Mem → Mem)
        → (p1 p2 : Ptr) (num_bytes : ℕ) (h : Heap) (v : ℕ → View) → p1 % 8 ≡ 0
        → IsSnapshot h0 v0 h v
        → IsPayloadSegment v0 p1 num_bytes
        → WritesWithin p1 num_bytes (libc_memcpy p1 p2 num_bytes)
        → Returns
            (λ h'. IsSnapshot h0 v0 h' v × Later v0 h v h' v)
            (memcpy resumed libc_memcpy p1 p2 num_bytes h)
    unfolding memcpy
    memcpy-IsSnapshot libc_memcpy p1 p2 num_bytes =
        changed-Goes (libc_memcpy p1 p2 num_bytes) p1 num_bytes

    -- As memcpy-IsSnapshot, for RTmemset.
    memset-IsSnapshot :
        (libc_memset : (p1 : Ptr) → (fill num_bytes : ℕ) → Mem → Mem)
        → (p1 : Ptr) (fill num_bytes : ℕ) (h : Heap) (v : ℕ → View) → p1 % 8 ≡ 0
        → IsSnapshot h0 v0 h v
        → IsPayloadSegment v0 p1 num_bytes
        → WritesWithin p1 num_bytes (libc_memset p1 fill num_bytes)
        → Returns
            (λ h'. IsSnapshot h0 v0 h' v × Later v0 h v h' v)
            (memset resumed libc_memset p1 fill num_bytes h)
    unfolding memset
    memset-IsSnapshot libc_memset p1 fill num_bytes =
        changed-Goes (libc_memset p1 fill num_bytes) p1 num_bytes
