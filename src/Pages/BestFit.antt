-- ===== src/Pages/BestFit.antt =====
-- The best-fit search of allocate_empty_pages in rtalloc.c.
use rtgc.Common.{
  ℕ, zero, suc, ◌+◌, ◌-◌, ◌<◌, ◌≤◌, ◌≡◌, ◌≢◌, ◌⊎◌, inl, inr, refl, sym, ap, ◌∙◌, List, [], ◌∷◌,
  ◌++◌, length, last_or, last_or-append, append_assoc, append-nil, All, All-append, All-map, IsList,
  Returns, returns, Returns-bind, true, false, not, ◌&&◌, leb, ltb, ◌==◌, ==-true, ==-false,
  Bool-cases, arith,
}
use rtgc.InfoBits.{Mem, Ptr, null}
use rtgc.Heap.{Heap}
use rtgc.Pages.{hole_page_count, hole_next, Best, consider, search_holes, allocate_empty_pages}

-- Of the holes `seen`, the best one that has `n` pages, with the hole before it in the list.
pub record IsBest (n : ℕ) (m : Mem) (seen : List Ptr) (b : Best) : Type 0 where
  pub before : List Ptr
  pub behind : List Ptr
  pub place : seen ≡ before ++ b.best ∷ behind
  pub prev : b.best_prev ≡ last_or 0 before
  pub not_null : b.best ≢ 0
  pub enough : n ≤ hole_page_count m b.best
  pub remaining : b.best_remaining + n ≡ hole_page_count m b.best
  pub least :
      All (λ x. n ≤ hole_page_count m x → hole_page_count m b.best ≤ hole_page_count m x) seen

-- The result of a search: there is none, or the best.
abbrev pub Searched : (total n : ℕ) → Mem → List Ptr → Best → Type 0
Searched total n m seen b =
    ((b.best ≡ 0) × (b.best_remaining ≡ total + 1) × All (λ x. hole_page_count m x < n) seen)
    ⊎ IsBest n m seen b

no_better :
    (total n : ℕ) (m : Mem) (seen : List Ptr) (b : Best) (x : Ptr)
    → Searched total n m seen b
    → (leb n (hole_page_count m x) && ltb (hole_page_count m x - n) b.best_remaining) ≡ false
    → hole_page_count m x ≤ total
    → Searched total n m (seen ++ x ∷ []) b
no_better total n m seen b x (inl h) t l =
    inl (h.0, h.1, All-append (λ z. hole_page_count m z < n) seen (x ∷ []) h.2 (ground arith, tt))
no_better total n m seen b x (inr h) t l = inr (record {
  before = h.before;
  behind = h.behind ++ x ∷ [];
  place = ap (λ t. t ++ x ∷ []) h.place ∙ append_assoc h.before (b.best ∷ h.behind) (x ∷ []);
  prev = h.prev;
  not_null = h.not_null;
  enough = h.enough;
  remaining = h.remaining;
  least =
      All-append (λ z. n ≤ hole_page_count m z → hole_page_count m b.best ≤ hole_page_count m z)
        seen (x ∷ []) h.least (λ p. ground (arith, h.remaining, p), tt);
})

better :
    (total n : ℕ) (m : Mem) (seen : List Ptr) (b : Best) (x : Ptr)
    → x ≢ 0
    → Searched total n m seen b
    → (leb n (hole_page_count m x) && ltb (hole_page_count m x - n) b.best_remaining) ≡ true
    → IsBest n m
        (seen ++ x ∷ [])
        (record { best = x; best_prev = last_or 0 seen; best_remaining = hole_page_count m x - n })
better total n m seen b x ne h t =
    let fits : n ≤ hole_page_count m x = ground arith in
    record {
      before = seen;
      behind = [];
      place = refl;
      prev = refl;
      not_null = ne;
      enough = fits;
      remaining = omega arith;
      least =
          All-append (λ z. n ≤ hole_page_count m z → hole_page_count m x ≤ hole_page_count m z) seen
            (x ∷ []) (earlier h) (λ p. omega arith, tt);
    }
  where
    earlier :
        Searched total n m seen b
        → All (λ z. n ≤ hole_page_count m z → hole_page_count m x ≤ hole_page_count m z) seen
    earlier (inl h) =
        All-map (λ z. hole_page_count m z < n)
          (λ z. n ≤ hole_page_count m z → hole_page_count m x ≤ hole_page_count m z) seen
          (λ z p q. absurd (omega arith)) h.2
    earlier (inr h) =
        All-map (λ z. n ≤ hole_page_count m z → hole_page_count m b.best ≤ hole_page_count m z)
          (λ z. n ≤ hole_page_count m z → hole_page_count m x ≤ hole_page_count m z) seen
          (λ z p q. ground (arith, p q, h.remaining)) h.least

-- One round keeps the result of the search so far.
considered :
    (total n : ℕ) (m : Mem) (seen : List Ptr) (b : Best) (x : Ptr)
    → x ≢ 0
    → hole_page_count m x ≤ total
    → Searched total n m seen b
    → Searched total n m (seen ++ x ∷ []) (consider n m (last_or 0 seen) x b)
unfolding consider
considered total n m seen b x ne l h =
    elim (Bool-cases
      (leb n (hole_page_count m x) && ltb (hole_page_count m x - n) b.best_remaining)) [
        | inl t ↦ rw t (inr (better total n m seen b x ne h t))
        | inr t ↦ rw t (no_better total n m seen b x h t l)
      ]

-- A hole of exactly the right size is not surpassed by those that are not looked at.
exact :
    (total n : ℕ) (m : Mem) (seen todo : List Ptr) (b : Best)
    → b.best_remaining ≡ 0
    → Searched total n m seen b
    → Searched total n m (seen ++ todo) b
exact total n m seen todo b e (inl h) = absurd (omega (arith, h.1))
exact total n m seen todo b e (inr h) = inr (record {
  before = h.before;
  behind = h.behind ++ todo;
  place = ap (λ t. t ++ todo) h.place ∙ append_assoc h.before (b.best ∷ h.behind) todo;
  prev = h.prev;
  not_null = h.not_null;
  enough = h.enough;
  remaining = h.remaining;
  least =
      All-append (λ z. n ≤ hole_page_count m z → hole_page_count m b.best ≤ hole_page_count m z)
        seen todo h.least (every todo);
})
  where
    every :
        (zs : List Ptr)
        → All (λ z. n ≤ hole_page_count m z → hole_page_count m b.best ≤ hole_page_count m z) zs
    every [] = tt
    every (z ∷ zs) = (λ p. omega (arith, h.remaining), every zs)

search_holes-Searched :
    (fuel total n : ℕ) (m : Mem) (seen todo : List Ptr) (prev next : Ptr) (b : Best)
    → length todo < fuel
    → prev ≡ last_or 0 seen
    → IsList (hole_next m) next todo
    → All (λ z. hole_page_count m z ≤ total) todo
    → Searched total n m seen b
    → Returns (Searched total n m (seen ++ todo)) (search_holes fuel n m prev next b)
unfolding search_holes
search_holes-Searched zero total n m seen todo prev next b f e l c h = absurd (omega arith)
search_holes-Searched (suc fuel) total n m seen [] prev next b f e l c h =
    rw (append-nil seen, search_holes, no_more b.best_remaining next l) (returns h)
  where
    no_more : (r p : ℕ) → p ≡ 0 → (ltb 0 r && not (p == 0)) ≡ false
    no_more r p e = ground arith
search_holes-Searched (suc fuel) total n m seen (x ∷ todo) prev next b f e l c h =
    elim (Bool-cases (ltb 0 b.best_remaining)) [
      | inl t ↦
          rw (search_holes, t, ==-false next 0 (λ z. l.1 (sym l.0 ∙ z)), l.0)
            (rw (sym (append_assoc seen (x ∷ []) todo)) (
              search_holes-Searched fuel total n m (seen ++ x ∷ []) todo x (hole_next m x)
                (consider n m prev x b) (omega arith) (sym (last_or-append 0 seen (x ∷ []))) l.2 c.1
                (rw e (considered total n m seen b x l.1 c.0 h))))
      | inr t ↦ rw (search_holes, t) (returns (exact total n m seen (x ∷ todo) b (ground arith) h))
    ]

pub record IsOneOf (x : Ptr) (xs : List Ptr) : Type 0 where
  pub before : List Ptr
  pub behind : List Ptr
  pub place : xs ≡ before ++ x ∷ behind

-- Where the list of holes is `holes`, none of more pages than the partition has, and the fuel is
-- more than their number, allocate_empty_pages returns. Either it gives NULL, the heap is as
-- before and every hole has too few pages, or it gives one of the holes, which has enough pages
-- and no more than any other hole that has enough.
pub allocate_empty_pages-least :
    (fuel page_count : ℕ) (h : Heap) (holes : List Ptr)
    → length holes < fuel
    → IsList (hole_next h.mem) h.empty_pages holes
    → All (λ z. hole_page_count h.mem z ≤ h.total_partition_pages) holes
    → Returns
        (λ (h', base).
          ((base ≡ 0) × (h' ≡ h) × All (λ z. hole_page_count h.mem z < page_count) holes)
          ⊎ ((base ≢ 0)
              × IsOneOf base holes
              × (page_count ≤ hole_page_count h.mem base)
              × All
                  (λ z.
                    page_count ≤ hole_page_count h.mem z
                    → hole_page_count h.mem base ≤ hole_page_count h.mem z)
                  holes))
        (allocate_empty_pages fuel page_count h)
unfolding allocate_empty_pages
allocate_empty_pages-least fuel n h holes f l c =
    Returns-bind
      (search_holes-Searched fuel h.total_partition_pages n h.mem [] holes 0 h.empty_pages
        (record { best = null; best_prev = null; best_remaining = h.total_partition_pages + 1 }) f
        refl l c (inl (refl, refl, tt)))
      (λ b s. elim s [
        | inl q ↦ rw (==-true b.best 0 q.0) (returns (inl (q.0, refl, q.2)))
        | inr q ↦ returns (
            inr (
              q.not_null,
              record { before = q.before; behind = q.behind; place = q.place },
              q.enough,
              q.least,
            ))
      ])
