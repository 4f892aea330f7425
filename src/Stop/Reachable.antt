-- ===== src/Stop/Reachable.antt =====
-- The states that stop_all_mutators_and_save_state of rtstop.c and the handlers can be in.
use rtgc.Common.{
  ℕ, ◌+◌, ◌≤◌, ◌≡◌, refl, sym, ap, ◌∙◌, true, List, [], ◌∷◌, ◌++◌, map, length, length-append, All,
  append_assoc, arith,
}
use mathlib.Core.Path.{subst}
use rtgc.Stop.{
  HandlerState, signaled, entered, copied, Mutator, HaltedThread, Phase, signalling,
  waiting_for_handlers, waiting_for_stacks, finished, in_debugger, World, unlock_all_free_locks,
  stop, signal_thread, enter_handler, copy_stack,
}
use rtgc.Stop.Saved.{AreNumbered, IsSaved, signaled-AreNumbered, signaled-IsSaved}
use rtgc.Stop.Counts.{
  entered_one, copied_one, count, count-append, count_entered-le, count_copied-le, all_entered_of,
}

abbrev pub thread_of : HaltedThread → Mutator
thread_of t = t.thread

-- Nobody has got the new colors, and the locks are held.
pub record IsBefore (start w : World) : Type 0 where
  pub marked : w.marked_color ≡ start.marked_color
  pub unmarked : w.unmarked_color ≡ start.unmarked_color
  pub locks : w.free_locks ≡ start.free_locks
  pub barrier : w.enable_write_barrier ≡ start.enable_write_barrier

-- The colors are exchanged, and every thread has entered its handler.
pub record IsAfter (start w : World) : Type 0 where
  pub marked : w.marked_color ≡ start.unmarked_color
  pub unmarked : w.unmarked_color ≡ start.marked_color
  pub locks : w.free_locks ≡ unlock_all_free_locks start.free_locks
  pub barrier : w.enable_write_barrier ≡ true
  pub all_signaled : w.live_threads ≡ []
  pub all_in : count entered_one w.halted_threads ≡ length w.halted_threads

abbrev pub InPhase : World → Phase → World → Type 0
InPhase start signalling w = IsBefore start w
InPhase start waiting_for_handlers w = IsBefore start w × (w.live_threads ≡ [])
InPhase start waiting_for_stacks w = IsAfter start w
InPhase start finished w =
    IsAfter start w
    × (count copied_one w.halted_threads ≡ length w.halted_threads)
    × (w.total_saved_threads ≡ length w.halted_threads)
InPhase start in_debugger w = IsBefore start w

-- What holds in every state between the start and the end.
pub record IsWorld (mutators : List Mutator) (start w : World) : Type 0 where
  pub entered : w.entered_handler_count ≡ count entered_one w.halted_threads
  pub copied : w.copied_stack_count ≡ count copied_one w.halted_threads
  pub total : w.total_threads_to_halt ≡ length w.halted_threads
  pub threads : map thread_of w.halted_threads ++ w.live_threads ≡ mutators
  pub numbered : AreNumbered 0 w.halted_threads
  pub saved : All (IsSaved w.saved_threads) w.halted_threads
  pub phase : InPhase start w.phase w

pub start-IsWorld : (threads : List Mutator) (w : World) → IsWorld threads w (stop threads w)
start-IsWorld threads w = record {
  entered = refl;
  copied = refl;
  total = refl;
  threads = refl;
  numbered = tt;
  saved = tt;
  phase = record { marked = refl; unmarked = refl; locks = refl; barrier = refl };
}

map_thread :
    (xs ys : List HaltedThread) → map thread_of (xs ++ ys) ≡ map thread_of xs ++ map thread_of ys
map_thread [] ys = refl
map_thread (x ∷ xs) ys = ap (λ l. x.thread ∷ l) (map_thread xs ys)

-- A step of one handler.
module _ (xs : List HaltedThread) (t t' : HaltedThread) (ys : List HaltedThread)
    (same : t'.thread ≡ t.thread) where
  pub replaced_threads : map thread_of (xs ++ t' ∷ ys) ≡ map thread_of (xs ++ t ∷ ys)
  replaced_threads =
      map_thread xs (t' ∷ ys)
      ∙ ap (λ (u : Mutator). map thread_of xs ++ (u ∷ map thread_of ys)) same
      ∙ sym (map_thread xs (t ∷ ys))

  pub replaced_count :
      (f : HandlerState → ℕ)
      → count f (xs ++ t' ∷ ys) + f t.state ≡ count f (xs ++ t ∷ ys) + f t'.state
  replaced_count f =
      swapped (count f xs) (count f ys) (f t.state) (f t'.state) (count-append f xs (t' ∷ ys))
        (count-append f xs (t ∷ ys))
    where
      swapped : (a b c d : ℕ) {e g : ℕ} → e ≡ a + (d + b) → g ≡ a + (c + b) → e + c ≡ g + d
      swapped a b c d p q = omega arith

  pub replaced_length : length (xs ++ t' ∷ ys) ≡ length (xs ++ t ∷ ys)
  replaced_length = length-append xs (t' ∷ ys) ∙ sym (length-append xs (t ∷ ys))

pub in_phase :
    (start w : World) (p : Phase) → w.phase ≡ p → InPhase start w.phase w → InPhase start p w
in_phase start w p e i = subst (λ q. InPhase start q w) e i

-- No handler is still to be entered once all are in.
none_signaled :
    (xs : List HaltedThread) (t : HaltedThread) (ys : List HaltedThread)
    → t.state ≡ signaled
    → count entered_one (xs ++ t ∷ ys) ≡ length (xs ++ t ∷ ys)
    → ⊥
none_signaled xs t ys e full = zero_ne_one (sym (ap entered_one e) ∙ all_entered_of xs t ys full)
  where
    zero_ne_one : ◌≡◌ {A = ℕ} 0 1 → ⊥
    zero_ne_one e = omega arith

-- A thread whose handler has just been entered is not copied.
none_left :
    (xs : List HaltedThread) (t : HaltedThread) (ys : List HaltedThread)
    → t.state ≡ entered
    → count copied_one (xs ++ t ∷ ys) ≡ length (xs ++ t ∷ ys)
    → ⊥
none_left xs t ys e full =
    let c = replaced_count xs t (record t { state = copied }) ys refl copied_one in
    let z : copied_one t.state ≡ 0 = ap copied_one e in
    let l = count_copied-le (xs ++ (record t { state = copied }) ∷ ys) in
    let m = count_entered-le (xs ++ (record t { state = copied }) ∷ ys) in
    let n = replaced_length xs t (record t { state = copied }) ys refl in too_many c z l m n full
  where
    too_many : {a b c d e f : ℕ} → a + c ≡ b + 1 → c ≡ 0 → a ≤ d → d ≤ e → e ≡ f → b ≡ f → ⊥
    too_many p q r s t u = omega arith

module _ (pthread_kill : Mutator → ℕ) (threads : List Mutator) (start w : World)
    (i : IsWorld threads start w) where
  pub signal-IsWorld :
      (t : Mutator) (rest : List Mutator)
      → w.phase ≡ signalling
      → w.live_threads ≡ t ∷ rest
      → IsWorld threads start (signal_thread t rest w)
  signal-IsWorld t rest p l =
      let new : HaltedThread = record {
        thread = t;
        saved_thread_index = w.total_threads_to_halt;
        state = signaled;
      } in
      let b : IsBefore start w = in_phase start w signalling p i.phase in
      record {
        entered =
            i.entered ∙ sym (count-append entered_one w.halted_threads (new ∷ []) ∙ plus_zero _);
        copied = i.copied ∙ sym (count-append copied_one w.halted_threads (new ∷ []) ∙ plus_zero _);
        total = ap (λ (n : ℕ). n + 1) i.total ∙ sym (length-append w.halted_threads (new ∷ []));
        threads =
            ap (λ (l : List Mutator). l ++ rest) (map_thread w.halted_threads (new ∷ []))
            ∙ append_assoc (map thread_of w.halted_threads) (t ∷ []) rest
            ∙ ap (λ (l : List Mutator). map thread_of w.halted_threads ++ l) (sym l)
            ∙ i.threads;
        numbered = signaled-AreNumbered w.halted_threads new i.numbered i.total;
        saved =
            signaled-IsSaved w.saved_threads
              (record (w.saved_threads w.total_threads_to_halt) { saved_stack_size = 0 })
              w.halted_threads new i.numbered i.total refl i.saved;
        phase =
            subst (λ q. InPhase start q (signal_thread t rest w)) (sym p)
              (record {
                marked = b.marked;
                unmarked = b.unmarked;
                locks = b.locks;
                barrier = b.barrier;
              });
      }
    where
      plus_zero : (n : ℕ) → n + (0 + 0) ≡ n
      plus_zero n = omega arith

  pub enter-InPhase :
      (xs : List HaltedThread) (t : HaltedThread) (ys : List HaltedThread)
      → w.halted_threads ≡ xs ++ t ∷ ys
      → t.state ≡ signaled
      → (p : Phase) → InPhase start p w
      → InPhase start p (enter_handler xs t ys w)
  enter-InPhase xs t ys e s signalling b = record {
    marked = b.marked;
    unmarked = b.unmarked;
    locks = b.locks;
    barrier = b.barrier;
  }
  enter-InPhase xs t ys e s waiting_for_handlers (b, l) =
      (record { marked = b.marked; unmarked = b.unmarked; locks = b.locks; barrier = b.barrier }, l)
  enter-InPhase xs t ys e s waiting_for_stacks a =
      absurd (none_signaled xs t ys s (rw e at a.all_in))
  enter-InPhase xs t ys e s finished (a, c, n) = absurd (none_signaled xs t ys s (rw e at a.all_in))
  enter-InPhase xs t ys e s in_debugger b = record {
    marked = b.marked;
    unmarked = b.unmarked;
    locks = b.locks;
    barrier = b.barrier;
  }

  pub copy-InPhase :
      (xs : List HaltedThread) (t : HaltedThread) (ys : List HaltedThread)
      → w.halted_threads ≡ xs ++ t ∷ ys
      → t.state ≡ entered
      → (p : Phase) → InPhase start p w
      → InPhase start p (copy_stack xs t ys w)
  copy-InPhase xs t ys e s signalling b = record {
    marked = b.marked;
    unmarked = b.unmarked;
    locks = b.locks;
    barrier = b.barrier;
  }
  copy-InPhase xs t ys e s waiting_for_handlers (b, l) =
      (record { marked = b.marked; unmarked = b.unmarked; locks = b.locks; barrier = b.barrier }, l)
  copy-InPhase xs t ys e s waiting_for_stacks a =
      let t' : HaltedThread = record t { state = copied } in
      record {
        marked = a.marked;
        unmarked = a.unmarked;
        locks = a.locks;
        barrier = a.barrier;
        all_signaled = a.all_signaled;
        all_in =
            kept (replaced_count xs t t' ys refl entered_one) (ap entered_one s) (rw e at a.all_in)
            ∙ sym (replaced_length xs t t' ys refl);
      }
    where
      kept : {a b c d : ℕ} → a + c ≡ b + 1 → c ≡ 1 → b ≡ d → a ≡ d
      kept p q r = omega arith
  copy-InPhase xs t ys e s finished (a, c, n) = absurd (none_left xs t ys s (rw e at c))
  copy-InPhase xs t ys e s in_debugger b = record {
    marked = b.marked;
    unmarked = b.unmarked;
    locks = b.locks;
    barrier = b.barrier;
  }
