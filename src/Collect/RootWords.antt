-- ===== src/Collect/RootWords.antt =====
-- The words that scan_root_set of rtgc.c is to trace itself, and the scans of them.
use rtgc.Common.{
  ℕ, ◌+◌, ◌-◌, ◌*◌, ◌/◌, ◌%◌, ◌<◌, ◌≡◌, ◌≢◌, ◌⊎◌, inl, inr, sym, ◌∙◌, List, [], ◌∷◌, All, ok,
  Returns, returns, Returns-bind, Returns-mono, ◌==◌, if◌then◌else◌, Bool-cases, eq_of_==,
}
use mathlib.Core.Path.{subst}
use rtgc.InfoBits.{Mem, Ptr}
use rtgc.Group.View.{View}
use rtgc.Heap.{Heap}
use rtgc.Heap.Valid.{IsHeap, IsPayload, Marks}
use rtgc.Trace.{trace_pointer, scan_memory_segment}
use rtgc.Trace.Words.{Traced, Traced-refl, Traced-trans, IsShaded, trace_pointer-Traced}
use rtgc.Trace.Segments.{
  ArePayload, IsShaded-later, IsPayload-later, Traced-Darker, scan_words-Traced,
}
use rtgc.Collect.{
  ThreadState, Roots, scan_saved_thread_state, scan_saved_threads, scan_threads, scan_global_roots,
}

abbrev pub words_of : (low high : Ptr) → ℕ
words_of low high = (high + 7 - low) / 8

-- The words of the segment.
abbrev pub InSegment : Mem → (low high : Ptr) → ℕ → Type 0
InSegment m low high w = (j : ℕ) × (j < words_of low high) × (w ≡ m (low + 8 * j))

-- Where the registers and the stack of a thread are saved.
abbrev pub stack_low : ThreadState → Ptr
stack_low t = t.saved_stack_base - t.saved_stack_base % 8

abbrev pub stack_high : ThreadState → Ptr
stack_high t = t.saved_stack_base + t.saved_stack_size

abbrev pub InThreads : Mem → List ThreadState → ℕ → Type 0
InThreads m [] w = ⊥
InThreads m (t ∷ ts) w =
    InSegment m t.registers (t.registers + 23 * 8) w
    ⊎ InSegment m (stack_low t) (stack_high t) w
    ⊎ InThreads m ts w

abbrev pub InGlobals : Mem → List Ptr → ℕ → Type 0
InGlobals m [] w = ⊥
InGlobals m (root ∷ roots) w = (w ≡ m root) ⊎ InGlobals m roots w

-- The words that scan_root_set is to trace itself.
abbrev pub IsRoot : Roots → Mem → ℕ → Type 0
IsRoot r m w =
    InThreads m r.saved_threads w
    ⊎ ((w ≡ r.no_write_barrier_state) × (r.no_write_barrier_state ≢ 0))
    ⊎ InGlobals m r.global_roots w

-- They are not at the headers of objects.
abbrev pub ThreadsPayload : (ℕ → View) → List ThreadState → Type 0
ThreadsPayload v [] = Unit
ThreadsPayload v (t ∷ ts) =
    ArePayload v t.registers (words_of t.registers (t.registers + 23 * 8))
    × ArePayload v (stack_low t) (words_of (stack_low t) (stack_high t))
    × ThreadsPayload v ts

-- The memory behind the headers is still that of `m`.
pub record Now (m : Mem) (h : Heap) (v : ℕ → View) (v0 : ℕ → View) : Type 0 where
  pub valid : IsHeap h v
  pub same : (a : ℕ) → IsPayload v0 a → h.mem a ≡ m a
  pub payload : (a : ℕ) → IsPayload v0 a → IsPayload v a

pub Now-later :
    (m : Mem) (h : Heap) (v v0 : ℕ → View) (h' : Heap) (v' : ℕ → View)
    → Now m h v v0
    → Marks h v h' v'
    → Now m h' v' v0
Now-later m h v v0 h' v' n k = record {
  valid = k.valid;
  same = λ a p. k.contents a (n.payload a p) ∙ n.same a p;
  payload = λ a p. IsPayload-later h v h' v' a k (n.payload a p);
}

-- Tracing that leaves no word of `P` pointing to a white object.
abbrev pub Shades : Heap → (ℕ → View) → (ℕ → Type 0) → Heap → Type 0
Shades h v P h' = (v' : (ℕ → View)) × Traced h v h' v' × ((w : ℕ) → P w → IsShaded h' v' w)

pub Shades-trans :
    (h : Heap) (v : ℕ → View) (P Q R : ℕ → Type 0) (h1 : Heap) (v1 : ℕ → View) (h2 : Heap)
    → ((w : ℕ) → R w → P w ⊎ Q w)
    → Traced h v h1 v1
    → ((w : ℕ) → P w → IsShaded h1 v1 w)
    → Shades h1 v1 Q h2
    → Shades h v R h2
Shades-trans h v P Q R h1 v1 h2 split t s (v2, t2, s2) = (
  v2,
  Traced-trans h v h1 v1 h2 v2 t t2,
  λ w r. elim (split w r) [
    | inl p ↦ IsShaded-later h1 v1 h2 v2 w (Traced-Darker h1 v1 h2 v2 t2) (s w p)
    | inr q ↦ s2 w q
  ],
)

module _ (m : Mem) (v0 : ℕ → View) where
  segment-Shades :
      (low high : Ptr) (h : Heap) (v : ℕ → View)
      → Now m h v v0
      → ArePayload v0 low (words_of low high)
      → Returns (Shades h v (InSegment m low high)) (scan_memory_segment low high h)
  unfolding scan_memory_segment
  segment-Shades low high h v n p =
      Returns-mono
        (scan_words-Traced (words_of low high) low h v n.valid (λ j l. n.payload _ (p j l)))
        (λ h' (v', t, s).
          let n' = Now-later m h v v0 h' v' n t.marks in
          (v', t, λ w (j, l, e). subst (λ u. IsShaded h' v' u) (n'.same _ (p j l) ∙ sym e) (s j l)))

  threads-Shades :
      (ts : List ThreadState) (h : Heap) (v : ℕ → View)
      → Now m h v v0
      → ThreadsPayload v0 ts
      → Returns (Shades h v (InThreads m ts)) (scan_saved_threads ts h)
  unfolding scan_saved_threads scan_saved_thread_state
  threads-Shades [] h v n p = returns (v, Traced-refl h v n.valid, λ w k. absurd k)
  threads-Shades (t ∷ ts) h v n p =
      Returns-bind
        (Returns-bind (segment-Shades t.registers (t.registers + 23 * 8) h v n p.0)
          (λ h1 (v1, t1, s1).
            Returns-mono
              (segment-Shades (stack_low t) (stack_high t) h1 v1
                (Now-later m h v v0 h1 v1 n t1.marks) p.1)
              (λ h2 q.
                Shades-trans h v (InSegment m t.registers (t.registers + 23 * 8))
                  (InSegment m (stack_low t) (stack_high t))
                  (λ w.
                    InSegment m t.registers (t.registers + 23 * 8) w
                    ⊎ InSegment m (stack_low t) (stack_high t) w)
                  h1 v1 h2 (λ w k. k) t1 s1 q)))
        (λ h2 (v2, t2, s2).
          Returns-mono (threads-Shades ts h2 v2 (Now-later m h v v0 h2 v2 n t2.marks) p.2) (λ h3 q.
            Shades-trans h v
              (λ w.
                InSegment m t.registers (t.registers + 23 * 8) w
                ⊎ InSegment m (stack_low t) (stack_high t) w)
              (InThreads m ts) (InThreads m (t ∷ ts)) h2 v2 h3
              (λ w k. elim k [
                | inl a ↦ inl (inl a)
                | inr (inl a) ↦ inl (inr a)
                | inr (inr a) ↦ inr a
              ])
              t2 s2 q))

  pub globals-Shades :
      (roots : List Ptr) (h : Heap) (v : ℕ → View)
      → Now m h v v0
      → All (IsPayload v0) roots
      → Returns (Shades h v (InGlobals m roots)) (scan_global_roots roots h)
  unfolding scan_global_roots
  globals-Shades [] h v n p = returns (v, Traced-refl h v n.valid, λ w k. absurd k)
  globals-Shades (root ∷ roots) h v n p =
      Returns-bind (trace_pointer-Traced h v (h.mem root) n.valid) (λ h1 (v1, t1, s1).
        Returns-mono (globals-Shades roots h1 v1 (Now-later m h v v0 h1 v1 n t1.marks) p.1) (λ h2 q.
          Shades-trans h v (λ w. w ≡ m root) (InGlobals m roots) (InGlobals m (root ∷ roots)) h1 v1
            h2 (λ w k. k) t1 (λ w e. subst (λ u. IsShaded h1 v1 u) (n.same root p.0 ∙ sym e) s1) q))

  state-Shades :
      (state : ℕ) (h : Heap) (v : ℕ → View)
      → Now m h v v0
      → Returns
          (Shades h v (λ w. (w ≡ state) × (state ≢ 0)))
          (if state == 0 then ok h else trace_pointer state h)
  state-Shades state h v n = elim (Bool-cases (state == 0)) [
    | inl e ↦ rw e (returns (v, Traced-refl h v n.valid, λ w k. absurd (k.1 (eq_of_== state 0 e))))
    | inr e ↦ rw e (
        Returns-mono (trace_pointer-Traced h v state n.valid)
          (λ h' (v', t, s). (v', t, λ w k. subst (λ u. IsShaded h' v' u) (sym k.0) s)))
  ]

  pub scan_threads-Shades :
      (r : Roots) (h : Heap) (v : ℕ → View)
      → Now m h v v0
      → ThreadsPayload v0 r.saved_threads
      → Returns
          (Shades h v (λ w.
            InThreads m r.saved_threads w
            ⊎ ((w ≡ r.no_write_barrier_state) × (r.no_write_barrier_state ≢ 0))))
          (scan_threads r h)
  unfolding scan_threads
  scan_threads-Shades r h v n p =
      Returns-bind (threads-Shades r.saved_threads h v n p) (λ h1 (v1, t1, s1).
        Returns-mono
          (state-Shades r.no_write_barrier_state h1 v1 (Now-later m h v v0 h1 v1 n t1.marks))
          (λ h2 q.
            Shades-trans h v (InThreads m r.saved_threads)
              (λ w. (w ≡ r.no_write_barrier_state) × (r.no_write_barrier_state ≢ 0)) _ h1 v1 h2
              (λ w k. k) t1 s1 q))
