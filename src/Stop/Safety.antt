-- ===== src/Stop/Safety.antt =====
-- What stop_all_mutators_and_save_state of rtstop.c leaves, whatever the order of the steps.
use rtgc.Common.{
  ℕ, suc, ◌+◌, ◌≤◌, ◌≡◌, refl, sym, ap, ◌∙◌, List, [], ◌∷◌, ◌++◌, map, append-nil, length, All,
  arith,
}
use mathlib.Core.Path.{subst}
use rtgc.Stop.{
  HandlerState, signaled, entered, copied, Mutator, HaltedThread, SavedThread, signalling,
  waiting_for_handlers, waiting_for_stacks, finished, World, unlock_all_free_locks, stop,
  enter_handler, copy_stack, Step, Steps, signal, signal_failed, all_signaled, all_entered,
  all_copied, enter, copy, none, then,
}
use rtgc.Stop.Counts.{entered_one, copied_one, count, count_copied-le, count_entered-le}
use rtgc.Stop.Saved.{
  IsCopyOf, AreNumbered, IsSaved, replaced-AreNumbered, replaced-IsSaved, copied-IsSaved,
}
use rtgc.Stop.Reachable.{
  thread_of, IsBefore, InPhase, IsWorld, start-IsWorld, in_phase, replaced_threads, replaced_count,
  replaced_length, signal-IsWorld, enter-InPhase, copy-InPhase,
}

module _ (pthread_kill : Mutator → ℕ) (threads : List Mutator) (start : World) where
  enter-IsWorld :
      (w : World) (xs : List HaltedThread) (t : HaltedThread) (ys : List HaltedThread)
      → IsWorld threads start w
      → w.halted_threads ≡ xs ++ t ∷ ys
      → t.state ≡ signaled
      → IsWorld threads start (enter_handler xs t ys w)
  enter-IsWorld w xs t ys i e s =
      let t' : HaltedThread = record t { state = entered } in
      record {
        entered =
            more (i.entered ∙ ap (count entered_one) e) (ap entered_one s)
              (replaced_count xs t t' ys refl entered_one);
        copied =
            same (i.copied ∙ ap (count copied_one) e) (ap copied_one s)
              (replaced_count xs t t' ys refl copied_one);
        total =
            i.total
            ∙ ap (λ (l : List HaltedThread). length l) e
            ∙ sym (replaced_length xs t t' ys refl);
        threads =
            ap (λ (l : List Mutator). l ++ w.live_threads) (replaced_threads xs t t' ys refl)
            ∙ ap (λ (l : List HaltedThread). map thread_of l ++ w.live_threads) (sym e)
            ∙ i.threads;
        numbered = replaced-AreNumbered xs t t' ys refl (rw e at i.numbered);
        saved =
            replaced-IsSaved xs t t' ys refl w.saved_threads (λ q. absurd (not_copied q))
              (rw e at i.saved);
        phase = enter-InPhase pthread_kill threads start w i xs t ys e s w.phase i.phase;
      }
    where
      more : {a b c d : ℕ} → a ≡ b → c ≡ 0 → d + c ≡ b + 1 → a + 1 ≡ d
      more p q r = omega arith

      same : {a b c d : ℕ} → a ≡ b → c ≡ 0 → d + c ≡ b + 0 → a ≡ d
      same p q r = omega arith

      not_copied : entered ≡ copied → ⊥
      not_copied e = cc

  copy-IsWorld :
      (w : World) (xs : List HaltedThread) (t : HaltedThread) (ys : List HaltedThread)
      → IsWorld threads start w
      → w.halted_threads ≡ xs ++ t ∷ ys
      → t.state ≡ entered
      → IsWorld threads start (copy_stack xs t ys w)
  copy-IsWorld w xs t ys i e s =
      let t' : HaltedThread = record t { state = copied } in
      record {
        entered =
            same (i.entered ∙ ap (count entered_one) e) (ap entered_one s)
              (replaced_count xs t t' ys refl entered_one);
        copied =
            more (i.copied ∙ ap (count copied_one) e) (ap copied_one s)
              (replaced_count xs t t' ys refl copied_one);
        total =
            i.total
            ∙ ap (λ (l : List HaltedThread). length l) e
            ∙ sym (replaced_length xs t t' ys refl);
        threads =
            ap (λ (l : List Mutator). l ++ w.live_threads) (replaced_threads xs t t' ys refl)
            ∙ ap (λ (l : List HaltedThread). map thread_of l ++ w.live_threads) (sym e)
            ∙ i.threads;
        numbered = replaced-AreNumbered xs t t' ys refl (rw e at i.numbered);
        saved = copied-IsSaved w.saved_threads xs t ys (rw e at i.numbered) (rw e at i.saved);
        phase = copy-InPhase pthread_kill threads start w i xs t ys e s w.phase i.phase;
      }
    where
      more : {a b c d : ℕ} → a ≡ b → c ≡ 0 → d + c ≡ b + 1 → a + 1 ≡ d
      more p q r = omega arith

      same : {a b c d : ℕ} → a ≡ b → c ≡ 1 → d + c ≡ b + 1 → a ≡ d
      same p q r = omega arith

  -- A step of the collector that leaves the threads alone.
  change_phase :
      (w w' : World)
      → IsWorld threads start w
      → w'.halted_threads ≡ w.halted_threads
      → w'.saved_threads ≡ w.saved_threads
      → w'.live_threads ≡ w.live_threads
      → w'.entered_handler_count ≡ w.entered_handler_count
      → w'.copied_stack_count ≡ w.copied_stack_count
      → w'.total_threads_to_halt ≡ w.total_threads_to_halt
      → InPhase start w'.phase w'
      → IsWorld threads start w'
  change_phase w w' i e f l a b c p = record {
    entered = a ∙ i.entered ∙ ap (count entered_one) (sym e);
    copied = b ∙ i.copied ∙ ap (count copied_one) (sym e);
    total = c ∙ i.total ∙ ap (λ (l : List HaltedThread). length l) (sym e);
    threads = rw (e, l) i.threads;
    numbered = rw e i.numbered;
    saved = rw (e, f) i.saved;
    phase = p;
  }

  Step-IsWorld :
      (w w' : World) → Step pthread_kill w w' → IsWorld threads start w → IsWorld threads start w'
  Step-IsWorld w w' (signal t rest p l k) i =
      signal-IsWorld pthread_kill threads start w i t rest p l
  Step-IsWorld w w' (signal_failed t rest p l k) i =
      let b : IsBefore start w = in_phase start w signalling p i.phase in
      change_phase w w' i refl refl refl refl refl refl
        (record { marked = b.marked; unmarked = b.unmarked; locks = b.locks; barrier = b.barrier })
  Step-IsWorld w w' (all_signaled p l) i =
      let b : IsBefore start w = in_phase start w signalling p i.phase in
      change_phase w w' i refl refl refl refl refl refl (
        record { marked = b.marked; unmarked = b.unmarked; locks = b.locks; barrier = b.barrier },
        l,
      )
  Step-IsWorld w w' (all_entered p e) i =
      let b = in_phase start w waiting_for_handlers p i.phase in
      change_phase w w' i refl refl refl refl refl refl (record {
        marked = b.0.unmarked;
        unmarked = b.0.marked;
        locks = ap unlock_all_free_locks b.0.locks;
        barrier = refl;
        all_signaled = b.1;
        all_in = sym i.entered ∙ e ∙ i.total;
      })
  Step-IsWorld w w' (all_copied p e) i =
      let a = in_phase start w waiting_for_stacks p i.phase in
      change_phase w w' i refl refl refl refl refl refl (
        record {
          marked = a.marked;
          unmarked = a.unmarked;
          locks = a.locks;
          barrier = a.barrier;
          all_signaled = a.all_signaled;
          all_in = a.all_in;
        },
        sym i.copied ∙ e ∙ i.total,
        i.total,
      )
  Step-IsWorld w w' (enter xs t ys e s) i = enter-IsWorld w xs t ys i e s
  Step-IsWorld w w' (copy xs t ys e s) i = copy-IsWorld w xs t ys i e s

-- In whatever order the collector and the handlers make their steps from the start of
-- stop_all_mutators_and_save_state, and whatever pthread_kill returns: the counts of entered
-- handlers, copied stacks and threads to halt are those of the saved threads, no thread is lost,
-- the threads have the entries of saved_threads in the order of their signals, and the entry of
-- every thread whose handler has copied has its registers and its live stack; the colors, the
-- barrier and the free locks are those of the start until all threads are signaled and have
-- entered their handlers, and then the colors are exchanged, the barrier is on and the locks are
-- released; at the end all stacks are copied and counted.
pub stop-IsWorld :
    (pthread_kill : Mutator → ℕ) (threads : List Mutator) (start w : World)
    → Steps pthread_kill (stop threads start) w
    → IsWorld threads start w
stop-IsWorld kill threads start w none = start-IsWorld threads start
stop-IsWorld kill threads start w (then {w1 = w1} s t) =
    Step-IsWorld kill threads start w1 w t (stop-IsWorld kill threads start w1 s)

-- The entries from `n` on have the registers and stacks of the threads, in their order.
abbrev pub AreCopied : (n : ℕ) → List Mutator → (ℕ → SavedThread) → Type 0
AreCopied n [] saved = Unit
AreCopied n (t ∷ ts) saved = IsCopyOf t (saved n) × AreCopied (suc n) ts saved

copied_of_one : (s : HandlerState) → copied_one s ≡ 1 → s ≡ copied
copied_of_one signaled e = absurd (omega arith)
copied_of_one entered e = absurd (omega arith)
copied_of_one copied e = refl

AreCopied-of :
    (saved : ℕ → SavedThread) (n : ℕ) (ss : List HaltedThread)
    → AreNumbered n ss
    → All (IsSaved saved) ss
    → count copied_one ss ≡ length ss
    → AreCopied n (map thread_of ss) saved
AreCopied-of saved n [] k a e = tt
AreCopied-of saved n (s ∷ ss) k a e =
    let full =
      last_full (copied_one s.state) (count copied_one ss) (length ss) e (copied_one-le_one s.state)
        (at_most ss) in
    (
      subst (λ j. IsCopyOf s.thread (saved j)) k.0 (a.0 (copied_of_one s.state full.0)),
      AreCopied-of saved (suc n) ss k.1 a.1 full.1,
    )
  where
    copied_one-le_one : (s : HandlerState) → copied_one s ≤ 1
    copied_one-le_one signaled = omega arith
    copied_one-le_one entered = omega arith
    copied_one-le_one copied = omega arith

    at_most : (xs : List HaltedThread) → count copied_one xs ≤ length xs
    at_most xs = omega (arith, count_copied-le xs, count_entered-le xs)

    last_full : (a b n : ℕ) → a + b ≡ suc n → a ≤ 1 → b ≤ n → (a ≡ 1) × (b ≡ n)
    last_full a b n e p q = (omega arith, omega arith)

-- Whenever stop_all_mutators_and_save_state is at its end, in whatever order the steps were made,
-- saved_threads has an entry for every thread that was alive at the start, in the same order, with
-- its registers, its live stack from the stack pointer up and the size of that; the total is the
-- number of threads, and the colors are exchanged.
pub stop-AreCopied :
    (pthread_kill : Mutator → ℕ) (threads : List Mutator) (start w : World)
    → Steps pthread_kill (stop threads start) w
    → w.phase ≡ finished
    → AreCopied 0 threads w.saved_threads
      × (w.total_saved_threads ≡ length threads)
      × (w.marked_color ≡ start.unmarked_color)
      × (w.unmarked_color ≡ start.marked_color)
stop-AreCopied kill threads start w s f =
    let i = stop-IsWorld kill threads start w s in
    let p = in_phase start w finished f i.phase in
    let e : map thread_of w.halted_threads ≡ threads =
      sym (append-nil (map thread_of w.halted_threads))
      ∙ ap (λ (l : List Mutator). map thread_of w.halted_threads ++ l) (sym p.0.all_signaled)
      ∙ i.threads in
    (
      subst (λ l. AreCopied 0 l w.saved_threads) e
          (AreCopied-of w.saved_threads 0 w.halted_threads i.numbered i.saved p.1),
      p.2 ∙ sym (length-map w.halted_threads) ∙ ap (λ (l : List Mutator). length l) e,
      p.0.marked,
      p.0.unmarked,
    )
  where
    length-map : (ss : List HaltedThread) → length (map thread_of ss) ≡ length ss
    length-map [] = refl
    length-map (s ∷ ss) = ap (λ (n : ℕ). suc n) (length-map ss)
