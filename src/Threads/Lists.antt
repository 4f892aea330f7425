-- ===== src/Threads/Lists.antt =====
-- The two lists in the `next` links of the thread table of rtalloc.c.
use rtgc.Common.{
  IsList, ℕ, zero, suc, ◌+◌, ◌<◌, ◌≡◌, ◌≢◌, refl, sym, ◌∙◌, List, [], ◌∷◌, ◌++◌, length, ◌∉◌,
  IsDistinct, ok, ◌>>=◌, Returns, returns, ==-true, ==-false, arith, last_or, All-append_left,
  All-append_right,
}
use rtgc.InfoBits.{Ptr}
use rtgc.Threads.{
  Threads, set_thread, alloc_thread, make_thread_live, find_before, remove_live, free_thread,
}

IsList-set_thread :
    (next : Ptr → Ptr) (t v p : Ptr) (xs : List Ptr)
    → t ∉ xs
    → IsList next p xs
    → IsList (set_thread next t v) p xs
IsList-set_thread next t v p [] o h = h
IsList-set_thread next t v p (x ∷ xs) o h =
    (h.0, h.1, rw (==-false x t o.0) (IsList-set_thread next t v (next x) xs o.1 h.2))

-- Where the free list is `x` before `xs`, with no entry twice, and the live list is `ys`, which
-- `x` is not on, alloc_thread gives `x`, and once make_thread_live has run on it the free list is
-- `xs`, the live list is `x` before `ys`, and one more thread is counted.
pub make_thread_live-alloc_thread :
    (t : Threads) (x : Ptr) (xs ys : List Ptr)
    → IsDistinct (x ∷ xs)
    → x ∉ ys
    → IsList t.next t.free_threads (x ∷ xs)
    → IsList t.next t.live_threads ys
    → Returns
        (λ (t', thread).
          (thread ≡ x)
          × IsList t'.next t'.free_threads xs
          × IsList t'.next t'.live_threads (x ∷ ys)
          × (t'.total_threads ≡ t.total_threads + 1))
        (alloc_thread t >>= λ (t', thread). ok (make_thread_live thread t', thread))
unfolding alloc_thread make_thread_live
make_thread_live-alloc_thread t x xs ys d o free live =
    rw (==-false t.free_threads 0 (λ e. free.1 (sym free.0 ∙ e)), free.0)
      (returns (
        refl,
        IsList-set_thread t.next x t.live_threads (t.next x) xs d.0 free.2,
        (
          refl,
          free.1,
          rw (==-true x x refl)
              (IsList-set_thread t.next x t.live_threads t.live_threads ys o live),
        ),
        refl,
      ))

find_before_lem :
    (fuel : ℕ) (next : Ptr → Ptr) (thread prev p : Ptr) (xs ys : List Ptr)
    → length xs < fuel
    → thread ∉ xs
    → IsList next p (xs ++ thread ∷ ys)
    → find_before fuel thread prev p next ≡ ok (last_or prev xs)
unfolding find_before
find_before_lem zero next thread prev p xs ys l o h = absurd (omega arith)
find_before_lem (suc fuel) next thread prev p [] ys l o h = rw (==-true p thread h.0) refl
find_before_lem (suc fuel) next thread prev p (x ∷ xs) ys l o h =
    rw
      (
        ==-false p thread (λ e. o.0 (sym h.0 ∙ e)),
        ==-false p 0 (λ e. h.1 (sym h.0 ∙ e)),
        h.0,
        find_before_lem fuel next thread x (next x) xs ys (omega arith) o.1 h.2,
      )
      refl

not_last : (x y : Ptr) (ys : List Ptr) → x ∉ (y ∷ ys) → x ≢ last_or y ys
not_last x y [] o = λ e. o.0 (sym e)
not_last x y (z ∷ ys) o = not_last x z ys o.1

without_thread :
    (next : Ptr → Ptr) (thread x : Ptr) (xs ys : List Ptr)
    → IsDistinct (x ∷ xs ++ thread ∷ ys)
    → IsList next (next x) (xs ++ thread ∷ ys)
    → IsList
        (set_thread next (last_or x xs) (next thread))
        (set_thread next (last_or x xs) (next thread) x)
        (xs ++ ys)
without_thread next thread x [] ys d h =
    rw (==-true x x refl) (IsList-set_thread next x (next thread) (next thread) ys d.0.1 h.2)
without_thread next thread x (y ∷ xs) ys d h =
    rw
      (==-false x (last_or y xs)
        (not_last x y xs (All-append_left (λ z. z ≢ x) (y ∷ xs) (thread ∷ ys) d.0)))
      (h.0, h.1, without_thread next thread y xs ys d.1 h.2)

apart : (thread : Ptr) (xs ys : List Ptr) → IsDistinct (xs ++ thread ∷ ys) → thread ∉ xs
apart thread [] ys d = tt
apart thread (x ∷ xs) ys d =
    (λ e. (All-append_right (λ z. z ≢ x) xs (thread ∷ ys) d.0).0 (sym e), apart thread xs ys d.1)

-- A thread that stands anywhere on a live list with no entry twice, with more fuel than there are
-- entries before it, leaves that list, and the others stay on it in their order; the free list
-- pointer and the count are kept.
pub remove_live-IsList :
    (fuel : ℕ) (t : Threads) (thread : Ptr) (xs ys : List Ptr)
    → length xs < fuel
    → IsDistinct (xs ++ thread ∷ ys)
    → IsList t.next t.live_threads (xs ++ thread ∷ ys)
    → Returns
        (λ t'.
          IsList t'.next t'.live_threads (xs ++ ys)
          × (t'.free_threads ≡ t.free_threads)
          × (t'.total_threads ≡ t.total_threads))
        (remove_live fuel thread t)
unfolding remove_live
remove_live-IsList fuel t thread [] ys l d h =
    rw (remove_live, ==-true thread t.live_threads (sym h.0)) (returns (rw h.0 h.2, refl, refl))
remove_live-IsList fuel t thread (x ∷ xs) ys l d h =
    let ne : x ≢ thread = λ e. (All-append_right (λ z. z ≢ x) xs (thread ∷ ys) d.0).0 (sym e) in
    rw
      (
        remove_live,
        ==-false thread t.live_threads (λ e. ne (sym (e ∙ h.0))),
        find_before_lem fuel t.next thread 0 t.live_threads (x ∷ xs) ys l
            (ne, apart thread xs ys d.1) h,
      )
      (returns ((h.0, h.1, without_thread t.next thread x xs ys d h.2), refl, refl))

-- A thread that ends, as the head of the live list, while there is a free entry other than it:
-- free_thread returns, but the links of the two lead to each other, and the pointer to the first
-- free entry is as before.
pub free_thread_cycle :
    (fuel : ℕ) (t : Threads) (thread : Ptr)
    → thread ≡ t.live_threads
    → t.free_threads ≢ 0
    → thread ≢ t.free_threads
    → Returns
        (λ t'.
          (t'.next t'.free_threads ≡ thread)
          × (t'.next thread ≡ t'.free_threads)
          × (t'.free_threads ≡ t.free_threads))
        (free_thread fuel thread t)
unfolding free_thread remove_live
free_thread_cycle fuel t thread h f ne =
    rw (free_thread, remove_live, ==-true thread t.live_threads h, ==-false t.free_threads 0 f)
      (returns (
        rw (==-true t.free_threads t.free_threads refl) refl,
        rw (==-false thread t.free_threads ne, ==-true thread thread refl) refl,
        refl,
      ))
