-- ===== src/Trace/Segments.antt =====
-- scan_memory_segment and scan_object of rtgc.c, in a whole heap.
use rtgc.Common.{
  ℕ, zero, suc, ◌+◌, ◌-◌, ◌*◌, ◌/◌, ◌%◌, ◌<◌, ◌≤◌, ◌≡◌, inl, inr, refl, sym, ◌∙◌, ◌∈◌, Run, Returns,
  returns, Returns-bind, Returns-mono, ◌==◌, All-mem, ◌≢◌, Bool-cases, eq_of_==, ne_of_==, arith,
}
use mathlib.Core.Path.{subst}
use rtgc.InfoBits.{Ptr, get_storage_class, sc_nopointers, sc_pointers, sc_custom1}
use rtgc.InfoBits.Words.{Aligned}
use rtgc.Chain.{IsNode}
use rtgc.Group.View.{View}
use rtgc.Group.Frame.{objects_of}
use rtgc.Heap.{Heap}
use rtgc.Heap.Groups.{InRange, KeepsHeap}
use rtgc.Heap.Target.{target-KeepsHeap}
use rtgc.Heap.Valid.{IsHeap, IsPayload, Marks, Marks-refl, Marks-trans, IsPayload-members}
use rtgc.Trace.{scan_words, scan_memory_segment, scan_object}
use rtgc.Trace.Words.{Traced, Traced-refl, Traced-trans, IsShaded, trace_pointer-Traced}

-- A later heap, where no other objects are white.
pub record Darker (h : Heap) (v : ℕ → View) (h' : Heap) (v' : ℕ → View) : Type 0 where
  pub marks : Marks h v h' v'
  pub whites : (i a : ℕ) → a ∈ (v' i).whites → a ∈ (v i).whites
  pub greens : (i : ℕ) → (v' i).greens ≡ (v i).greens

pub Traced-Darker :
    (h : Heap) (v : ℕ → View) (h' : Heap) (v' : ℕ → View) → Traced h v h' v' → Darker h v h' v'
Traced-Darker h v h' v' t = record {
  marks = t.marks;
  whites = λ i. (t.grays i).whites;
  greens = λ i. (t.grays i).greens;
}

pub Darker-refl : (h : Heap) (v : ℕ → View) → IsHeap h v → Darker h v h v
Darker-refl h v i = record { marks = Marks-refl h v i; whites = λ i a m. m; greens = λ i. refl }

pub Darker-trans :
    (h : Heap) (v : ℕ → View) (h1 : Heap) (v1 : ℕ → View) (h2 : Heap) (v2 : ℕ → View)
    → Darker h v h1 v1
    → Darker h1 v1 h2 v2
    → Darker h v h2 v2
Darker-trans h v h1 v1 h2 v2 d k = record {
  marks = Marks-trans h v h1 v1 h2 v2 d.marks k.marks;
  whites = λ i a m. d.whites i a (k.whites i a m);
  greens = λ i. k.greens i ∙ d.greens i;
}

pub IsShaded-later :
    (h : Heap) (v : ℕ → View) (h' : Heap) (v' : ℕ → View) (w : ℕ)
    → Darker h v h' v'
    → IsShaded h v w
    → IsShaded h' v' w
IsShaded-later h v h' v' w d s i base e m =
    s i base (sym (target-KeepsHeap h h' w d.marks.keeps) ∙ e) (d.whites i base m)

pub IsPayload-later :
    (h : Heap) (v : ℕ → View) (h' : Heap) (v' : ℕ → View) (a : ℕ)
    → Marks h v h' v'
    → IsPayload v a
    → IsPayload v' a
IsPayload-later h v h' v' a t p = IsPayload-members v v' (λ j r. t.members j) a p

-- All words from `next` on, `k` of them, point to no white object.
abbrev pub AreShaded : Heap → (ℕ → View) → (next k : ℕ) → Type 0
AreShaded h views next k = (j : ℕ) → j < k → IsShaded h views (h.mem (next + 8 * j))

abbrev pub ArePayload : (ℕ → View) → (next k : ℕ) → Type 0
ArePayload views next k = (j : ℕ) → j < k → IsPayload views (next + 8 * j)

-- The words are the same later, and are not white again.
pub AreShaded-later :
    (h : Heap) (v : ℕ → View) (h' : Heap) (v' : ℕ → View) (next k : ℕ)
    → Darker h v h' v'
    → ArePayload v next k
    → AreShaded h v next k
    → AreShaded h' v' next k
AreShaded-later h v h' v' next k t p s j l =
    subst (λ w. IsShaded h' v' w) (sym (t.marks.contents (next + 8 * j) (p j l)))
      (IsShaded-later h v h' v' (h.mem (next + 8 * j)) t (s j l))

one_more : (next j : ℕ) → next + 8 * suc j ≡ next + 8 + 8 * j
one_more next j = omega arith

AreShaded-suc :
    (h : Heap) (v : ℕ → View) (next k : ℕ)
    → IsShaded h v (h.mem next)
    → AreShaded h v (next + 8) k
    → AreShaded h v next (suc k)
AreShaded-suc h v next k f s zero l = subst (λ a. IsShaded h v (h.mem a)) at_zero f
  where
    at_zero : next ≡ next + 8 * 0
    at_zero = omega arith
AreShaded-suc h v next k f s (suc j) l =
    subst (λ a. IsShaded h v (h.mem a)) (sym (one_more next j)) (s j (omega arith))

pub ArePayload-tail :
    (v : ℕ → View) (next k : ℕ) → ArePayload v next (suc k) → ArePayload v (next + 8) k
ArePayload-tail v next k p j l =
    subst (λ a. IsPayload v a) (one_more next j) (p (suc j) (omega arith))

pub ArePayload-head : (v : ℕ → View) (next k : ℕ) → ArePayload v next (suc k) → IsPayload v next
ArePayload-head v next k p = subst (λ a. IsPayload v a) at_zero (p 0 (omega arith))
  where
    at_zero : next + 8 * 0 ≡ next
    at_zero = omega arith

pub scan_words-Traced :
    (k next : ℕ) (h : Heap) (views : ℕ → View)
    → IsHeap h views
    → ArePayload views next k
    → Returns
        (λ h'. (views' : (ℕ → View)) × Traced h views h' views' × AreShaded h' views' next k)
        (scan_words k next h)
unfolding scan_words
scan_words-Traced zero next h views v p =
    returns (views, Traced-refl h views v, λ j l. absurd (omega arith))
scan_words-Traced (suc k) next h views v p =
    Returns-bind (trace_pointer-Traced h views (h.mem next) v) (λ h1 (v1, t1, s1).
      Returns-mono
        (scan_words-Traced k (next + 8) h1 v1 t1.marks.valid
          (λ j l. IsPayload-later h views h1 v1 _ t1.marks (ArePayload-tail views next k p j l)))
        (λ h2 (v2, t2, s2).
          let t = Traced-trans h views h1 v1 h2 v2 t1 t2 in
          (
            v2,
            t,
            AreShaded-suc h2 v2 next k
                (subst (λ w. IsShaded h2 v2 w)
                  (sym (t.marks.contents next (ArePayload-head views next k p)))
                  (IsShaded-later h1 v1 h2 v2 (h.mem next) (Traced-Darker h1 v1 h2 v2 t2) s1))
                s2,
          )))

-- Code of the client that scans: it may trace words, any number of them.
abbrev pub IsScanner : ((low high : Ptr) → Heap → Run Heap) → Type 0
IsScanner scan =
    (low high : Ptr) (h : Heap) (views : ℕ → View)
    → IsHeap h views
    → Returns (λ h'. (views' : (ℕ → View)) × Traced h views h' views') (scan low high h)

-- The words behind the header of an object with the given size.
abbrev pub word_count : (size : ℕ) → ℕ
word_count size = (size - 16 + 7) / 8

-- An object with pointers has no word left that points to a white object.
abbrev pub IsDone : Heap → (ℕ → View) → (group : ℕ) → Ptr → Type 0
IsDone h views i x =
    get_storage_class h.mem x ≡ sc_pointers
    → AreShaded h views (x + 16) (word_count ((h.groups i).size))

module _ (h : Heap) (views : ℕ → View) (valid : IsHeap h views) (i : ℕ) (r : InRange i) (x : Ptr)
    (m : x ∈ objects_of (views i)) where
  pub object-Aligned : Aligned x
  object-Aligned =
      (All-mem IsNode x (objects_of (views i)) m (valid.groups.group i r).linked.nodes.0).0

  pub object-ArePayload : ArePayload views (x + 16) (word_count ((h.groups i).size))
  object-ArePayload j l =
      valid.payload i x (x + 16 + 8 * j) r m (word object-Aligned) (behind ((h.groups i).size) l)
        (inside ((h.groups i).size) l)
    where
      word : Aligned x → (x + 16 + 8 * j) % 8 ≡ 0
      word a = omega arith

      behind : (size : ℕ) → j < (size - 16 + 7) / 8 → x + 16 ≤ x + 16 + 8 * j
      behind size l = omega arith

      inside : (size : ℕ) → j < (size - 16 + 7) / 8 → x + 16 + 8 * j < x + size
      inside size l = omega arith

  later-IsDone :
      (h' : Heap) (v' : ℕ → View)
      → KeepsHeap h h'
      → (get_storage_class h.mem x ≡ sc_pointers
          → AreShaded h' v' (x + 16) (word_count ((h.groups i).size)))
      → IsDone h' v' i x
  later-IsDone h' v' k f e =
      subst (λ n. AreShaded h' v' (x + 16) (word_count n)) (sym (k.size i))
        (f (sym (k.classes x object-Aligned) ∙ e))

  -- A done object stays done.
  pub IsDone-later :
      (h' : Heap) (v' : ℕ → View) → Darker h views h' v' → IsDone h views i x → IsDone h' v' i x
  IsDone-later h' v' d f = later-IsDone h' v' d.marks.keeps (λ e.
      AreShaded-later h views h' v' (x + 16) (word_count ((h.groups i).size)) d object-ArePayload
        (f e))

  abbrev Scanned : Heap → Type 0
  Scanned h' = (views' : (ℕ → View)) × Traced h views h' views' × IsDone h' views' i x

  not_pointers :
      (c : ℕ)
      → get_storage_class h.mem x ≡ c
      → c ≢ sc_pointers
      → (h' : Heap) (views' : ℕ → View) → Traced h views h' views'
      → IsDone h' views' i x
  not_pointers c e ne h' v' t = later-IsDone h' v' t.marks.keeps (λ k. absurd (ne (sym e ∙ k)))

  segment-Scanned : Returns Scanned (scan_memory_segment (x + 16) (x + (h.groups i).size) h)
  unfolding scan_memory_segment
  segment-Scanned =
      subst (λ n. Returns Scanned (scan_words n (x + 16) h)) (count ((h.groups i).size))
        (Returns-mono
          (scan_words-Traced (word_count ((h.groups i).size)) (x + 16) h views valid
            object-ArePayload)
          (λ h' (v', t, s). (v', t, later-IsDone h' v' t.marks.keeps (λ e. s))))
    where
      count : (size : ℕ) → (size - 16 + 7) / 8 ≡ (x + size + 7 - (x + 16)) / 8
      count size = omega arith

  -- In a valid heap, the scan of an object in the lists returns, where the client's scanner only
  -- traces; white objects have become gray, and the object then points to no white object if its
  -- class has pointers.
  pub scan_object-Traced :
      (custom_scanner : (low high : Ptr) → Heap → Run Heap) (fuel : ℕ)
      → IsScanner custom_scanner
      → Returns Scanned (scan_object custom_scanner fuel x ((h.groups i).size) h)
  unfolding scan_object
  scan_object-Traced custom fuel cs =
      let c = get_storage_class h.mem x in
      elim (Bool-cases (c == sc_nopointers)) [
        | inl e ↦ rw e (
            returns (
              views,
              Traced-refl h views valid,
              not_pointers 0 (eq_of_== _ _ e) (λ k. omega arith) h views
                  (Traced-refl h views valid),
            ))
        | inr e ↦ elim (Bool-cases (c == sc_pointers)) [
          | inl f ↦ rw (e, f) segment-Scanned
          | inr f ↦ elim (Bool-cases (c == sc_custom1)) [
            | inl g ↦
                rw (e, f, g)
                  (Returns-mono (cs (x + 16) (x + (h.groups i).size) h views valid) (λ h' (v', t).
                    (v', t, not_pointers 2 (eq_of_== _ _ g) (λ k. omega arith) h' v' t)))
            | inr g ↦ absurd (
                none_left c (ne_of_== _ _ e) (ne_of_== _ _ f) (ne_of_== _ _ g)
                  (valid.classes i x r m))
          ]
        ]
      ]
    where
      none_left : (c : ℕ) → c ≢ 0 → c ≢ 1 → c ≢ 2 → c < 3 → ⊥
      none_left c a b d l = omega arith
