-- ===== src/Stop/Saved.antt =====
-- The entries of saved_threads in rtstop.c: the threads have them in the order of the signals.
use rtgc.Common.{
  ℕ, suc, ◌+◌, ◌<◌, ◌≤◌, ◌≡◌, ◌≢◌, ◌⊎◌, inl, inr, refl, sym, ap, ◌∙◌, List, [], ◌∷◌, ◌++◌, length,
  All, All-append, All-append_left, All-append_right, lt→ltb, ==-true, ==-false, if◌then◌else◌,
  arith,
}
use mathlib.Core.Path.{subst}
use rtgc.Stop.{
  HandlerState, signaled, copied, Mutator, HaltedThread, SavedThread, set_saved, live_stack_size,
  save_thread,
}

-- The entry has the registers and the whole live stack of the thread.
pub record IsCopyOf (m : Mutator) (s : SavedThread) : Type 0 where
  pub registers : (j : ℕ) → j < 23 → s.registers j ≡ m.gregs j
  pub size : s.saved_stack_size ≡ live_stack_size m
  pub stack : (o : ℕ) → o < live_stack_size m → s.saved_stack o ≡ m.stack (m.stack_top + o)

-- The indices count from `n` on.
abbrev pub AreNumbered : ℕ → List HaltedThread → Type 0
AreNumbered n [] = Unit
AreNumbered n (t ∷ ts) = (t.saved_thread_index ≡ n) × AreNumbered (suc n) ts

-- If the thread's handler has copied, the thread's entry is a copy.
abbrev pub IsSaved : (ℕ → SavedThread) → HaltedThread → Type 0
IsSaved saved t = t.state ≡ copied → IsCopyOf t.thread (saved t.saved_thread_index)

numbered-append_left :
    (n : ℕ) (xs ys : List HaltedThread) → AreNumbered n (xs ++ ys) → AreNumbered n xs
numbered-append_left n [] ys a = tt
numbered-append_left n (x ∷ xs) ys a = (a.0, numbered-append_left (suc n) xs ys a.1)

numbered-append_right :
    (n : ℕ) (xs ys : List HaltedThread) → AreNumbered n (xs ++ ys) → AreNumbered (n + length xs) ys
numbered-append_right n [] ys a = subst (λ k. AreNumbered k ys) (omega arith) a
numbered-append_right n (x ∷ xs) ys a =
    subst (λ k. AreNumbered k ys) (omega arith) (numbered-append_right (suc n) xs ys a.1)

pub numbered-append :
    (n : ℕ) (xs ys : List HaltedThread)
    → AreNumbered n xs
    → AreNumbered (n + length xs) ys
    → AreNumbered n (xs ++ ys)
numbered-append n [] ys a b = subst (λ k. AreNumbered k ys) (omega arith) b
numbered-append n (x ∷ xs) ys a b =
    (a.0, numbered-append (suc n) xs ys a.1 (subst (λ k. AreNumbered k ys) (omega arith) b))

-- A change of the entry of a thread that is not in the list.
other-IsSaved :
    (saved : ℕ → SavedThread) (s : SavedThread) (k n : ℕ) (ts : List HaltedThread)
    → AreNumbered n ts
    → (k < n) ⊎ (n + length ts ≤ k)
    → All (IsSaved saved) ts
    → All (IsSaved (set_saved saved k s)) ts
other-IsSaved saved s k n [] a b c = tt
other-IsSaved saved s k n (t ∷ ts) a b c = (
  λ e.
      subst (λ u. IsCopyOf t.thread u)
        (sym (
          ap (λ q. if q then s else saved t.saved_thread_index)
            (==-false t.saved_thread_index k (apart a.0 b))))
        (c.0 e),
  other-IsSaved saved s k (suc n) ts a.1 (next b) c.1,
)
  where
    apart :
        t.saved_thread_index ≡ n → (k < n) ⊎ (n + suc (length ts) ≤ k) → t.saved_thread_index ≢ k
    apart p (inl l) = λ q. absurd (omega (arith, p, l, q))
    apart p (inr l) = λ q. absurd (omega (arith, p, l, q))

    next : (k < n) ⊎ (n + suc (length ts) ≤ k) → (k < suc n) ⊎ (suc n + length ts ≤ k)
    next (inl l) = inl (omega arith)
    next (inr l) = inr (omega arith)

-- One more thread has been signaled.
pub signaled-AreNumbered :
    {total : ℕ} (ts : List HaltedThread) (t : HaltedThread)
    → AreNumbered 0 ts
    → total ≡ length ts
    → AreNumbered 0 (ts ++ (record t { saved_thread_index = total }) ∷ [])
signaled-AreNumbered {total} ts t a e =
    numbered-append 0 ts ((record t { saved_thread_index = total }) ∷ []) a (zero_plus e, tt)
  where
    zero_plus : {a b : ℕ} → a ≡ b → a ≡ 0 + b
    zero_plus e = omega arith

pub signaled-IsSaved :
    {total : ℕ} (saved : ℕ → SavedThread) (s : SavedThread) (ts : List HaltedThread)
    (t : HaltedThread)
    → AreNumbered 0 ts
    → total ≡ length ts
    → t.state ≡ signaled
    → All (IsSaved saved) ts
    → All (IsSaved (set_saved saved total s)) (ts ++ t ∷ [])
signaled-IsSaved {total} saved s ts t a e q c =
    All-append (IsSaved (set_saved saved total s)) ts (t ∷ [])
      (other-IsSaved saved s total 0 ts a (inr (behind e)) c) ((λ k. absurd (differ q k)), tt)
  where
    behind : {a b : ℕ} → a ≡ b → 0 + b ≤ a
    behind e = omega arith

    differ : {a : HandlerState} → a ≡ signaled → a ≡ copied → ⊥
    differ p q = cc

-- A handler's step replaces its thread by one with the same index.
module _ (xs : List HaltedThread) (t t' : HaltedThread) (ys : List HaltedThread)
    (same : t'.saved_thread_index ≡ t.saved_thread_index) where
  pub replaced-AreNumbered : AreNumbered 0 (xs ++ t ∷ ys) → AreNumbered 0 (xs ++ t' ∷ ys)
  replaced-AreNumbered a =
      let r = numbered-append_right 0 xs (t ∷ ys) a in
      numbered-append 0 xs (t' ∷ ys) (numbered-append_left 0 xs (t ∷ ys) a) (same ∙ r.0, r.1)

  pub replaced-IsSaved :
      (saved : ℕ → SavedThread)
      → IsSaved saved t'
      → All (IsSaved saved) (xs ++ t ∷ ys)
      → All (IsSaved saved) (xs ++ t' ∷ ys)
  replaced-IsSaved saved s c =
      All-append (IsSaved saved) xs (t' ∷ ys) (All-append_left (IsSaved saved) xs (t ∷ ys) c)
        (s, (All-append_right (IsSaved saved) xs (t ∷ ys) c).1)

-- What the handler leaves in the entry of its thread.
save_thread-IsCopyOf : (m : Mutator) (s : SavedThread) → IsCopyOf m (save_thread m s)
save_thread-IsCopyOf m s = record {
  registers = λ j l. rw (lt→ltb j 23 l) (ap m.gregs (zero_plus j));
  size = refl;
  stack = λ o l. rw (lt→ltb o (live_stack_size m) l) refl;
}
  where
    zero_plus : (n : ℕ) → 0 + n ≡ n
    zero_plus n = omega arith

-- A handler copies: its own entry is a copy then, and the others stay.
pub copied-IsSaved :
    (saved : ℕ → SavedThread) (xs : List HaltedThread) (t : HaltedThread) (ys : List HaltedThread)
    → AreNumbered 0 (xs ++ t ∷ ys)
    → All (IsSaved saved) (xs ++ t ∷ ys)
    → All
        (IsSaved (
          set_saved saved t.saved_thread_index (save_thread t.thread (saved t.saved_thread_index))))
        (xs ++ (record t { state = copied }) ∷ ys)
copied-IsSaved saved xs t ys a c =
    let k = t.saved_thread_index in
    let s = save_thread t.thread (saved k) in
    let r = numbered-append_right 0 xs (t ∷ ys) a in
    All-append (IsSaved (set_saved saved k s)) xs ((record t { state = copied }) ∷ ys)
      (other-IsSaved saved s k 0 xs (numbered-append_left 0 xs (t ∷ ys) a) (inr (at_most r.0))
        (All-append_left (IsSaved saved) xs (t ∷ ys) c))
      (
        λ e.
            subst (λ u. IsCopyOf t.thread u)
              (sym (ap (λ q. if q then s else saved k) (==-true k k refl)))
              (save_thread-IsCopyOf t.thread (saved k)),
        other-IsSaved saved s k (suc (0 + length xs)) ys r.1 (inl (below r.0))
            (All-append_right (IsSaved saved) xs (t ∷ ys) c).1,
      )
  where
    at_most : {a b : ℕ} → a ≡ b → b ≤ a
    at_most e = omega arith

    below : {a b : ℕ} → a ≡ b → a < suc b
    below e = omega arith
