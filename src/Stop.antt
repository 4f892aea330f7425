-- ===== src/Stop.antt =====
-- Stopping the world (rtstop.c): stop_all_mutators_and_save_state and the signal handler
-- gc_flip_action_func. The collector and the handlers of the threads act in turns, each turn a
-- step. Registers are words and stacks are bytes; what a thread has in them is fixed while it is in
-- its handler. What pthread_kill returns is a parameter. pthread_getspecific finds every thread, and where
-- pthread_kill fails the run ends with the call of Debugger.
pub mod Counts
pub mod Saved
pub mod Reachable
pub mod Safety
pub mod Progress
use rtgc.Common.{
  ℕ, zero, suc, ◌+◌, ◌-◌, ◌≡◌, ◌≢◌, Bool, true, false, List, [], ◌∷◌, ◌++◌, ltb, ◌==◌,
  if◌then◌else◌,
}
use rtgc.InfoBits.{Ptr}

-- Where a thread stands that has been sent FLIP_SIGNAL.
pub data HandlerState : Type 0 where
  signaled entered copied : HandlerState

-- THREAD_INFO, with what the handler finds in the context: the registers, among them the stack
-- pointer, and the bytes of the stack by address.
pub record Mutator : Type 0 where
  pub stack_bottom : Ptr
  pub stack_top : Ptr
  pub gregs : ℕ → ℕ
  pub stack : Ptr → ℕ

-- A thread that is sent the signal, with its index in saved_threads and where its handler stands.
pub record HaltedThread : Type 0 where
  pub thread : Mutator
  pub saved_thread_index : ℕ
  pub state : HandlerState

-- THREAD_STATE: the words of `registers`, and the bytes from saved_stack_base on.
pub record SavedThread : Type 0 where
  pub registers : ℕ → ℕ
  pub saved_stack : ℕ → ℕ
  pub saved_stack_size : ℕ

-- Where the collector stands in stop_all_mutators_and_save_state.
pub data Phase : Type 0 where
  signalling waiting_for_handlers waiting_for_stacks finished in_debugger : Phase

pub record World : Type 0 where
  pub phase : Phase
  pub live_threads : List Mutator
  pub halted_threads : List HaltedThread
  pub saved_threads : ℕ → SavedThread
  pub entered_handler_count : ℕ
  pub copied_stack_count : ℕ
  pub total_threads_to_halt : ℕ
  pub total_saved_threads : ℕ
  pub free_locks : ℕ → Bool
  pub enable_write_barrier : Bool
  pub marked_color : ℕ
  pub unmarked_color : ℕ

-- lock_all_free_locks and unlock_all_free_locks, over the groups from `i` on.
unfoldable pub set_free_locks : Bool → ℕ → (i : ℕ) → (ℕ → Bool) → ℕ → Bool
set_free_locks b zero i locks = locks
set_free_locks b (suc k) i locks = set_free_locks b k (i + 1) (λ j. if j == i then b else locks j)

abbrev pub lock_all_free_locks : (ℕ → Bool) → ℕ → Bool
lock_all_free_locks = set_free_locks true 20 5

abbrev pub unlock_all_free_locks : (ℕ → Bool) → ℕ → Bool
unlock_all_free_locks = set_free_locks false 20 5

-- The start of stop_all_mutators_and_save_state: `live_threads` is what is left of the list.
abbrev pub stop : List Mutator → World → World
stop threads w = record w {
  phase = signalling;
  live_threads = threads;
  halted_threads = [];
  entered_handler_count = 0;
  copied_stack_count = 0;
  total_threads_to_halt = 0;
}

abbrev pub set_saved : (ℕ → SavedThread) → (index : ℕ) → SavedThread → ℕ → SavedThread
set_saved saved index t j = if j == index then t else saved j

-- One round of the loop over the threads, where pthread_kill returns 0.
abbrev pub signal_thread : Mutator → List Mutator → World → World
signal_thread t rest w = record w {
  live_threads = rest;
  halted_threads =
      w.halted_threads
      ++ (record { thread = t; saved_thread_index = w.total_threads_to_halt; state = signaled })
        ∷ [];
  saved_threads =
      set_saved w.saved_threads w.total_threads_to_halt
        (record (w.saved_threads w.total_threads_to_halt) { saved_stack_size = 0 });
  total_threads_to_halt = w.total_threads_to_halt + 1;
}

-- After the busy wait for the handlers.
abbrev pub exchange_colors : World → World
exchange_colors w = record w {
  phase = waiting_for_stacks;
  enable_write_barrier = true;
  marked_color = w.unmarked_color;
  unmarked_color = w.marked_color;
  free_locks = unlock_all_free_locks w.free_locks;
}

-- After the busy wait for the stacks.
abbrev pub finish : World → World
finish w = record w { phase = finished; total_saved_threads = w.total_threads_to_halt }

-- gc_flip_action_func up to the count of entered handlers, and then up to that of copied stacks,
-- for the thread between `xs` and `ys`.
abbrev pub enter_handler : List HaltedThread → HaltedThread → List HaltedThread → World → World
enter_handler xs t ys w = record w {
  halted_threads = xs ++ (record t { state = entered }) ∷ ys;
  entered_handler_count = w.entered_handler_count + 1;
}

-- The stack grows down, and the size fits the `int` that it is stored in.
abbrev pub live_stack_size : Mutator → ℕ
live_stack_size t = t.stack_bottom - t.stack_top

-- memcpy: the destination after the first `n` places are copied
abbrev pub copied_from : (from n : ℕ) → (source dest : ℕ → ℕ) → ℕ → ℕ
copied_from from n source dest o = if ltb o n then source (from + o) else dest o

-- sizeof(gregset_t) is 23 words.
abbrev pub save_thread : Mutator → SavedThread → SavedThread
save_thread m s = record {
  registers = copied_from 0 23 m.gregs s.registers;
  saved_stack = copied_from m.stack_top (live_stack_size m) m.stack s.saved_stack;
  saved_stack_size = live_stack_size m;
}

abbrev pub copy_stack : List HaltedThread → HaltedThread → List HaltedThread → World → World
copy_stack xs t ys w = record w {
  halted_threads = xs ++ (record t { state = copied }) ∷ ys;
  saved_threads =
      set_saved w.saved_threads t.saved_thread_index
        (save_thread t.thread (w.saved_threads t.saved_thread_index));
  copied_stack_count = w.copied_stack_count + 1;
}

-- One step of the collector or of a handler.
pub data Step (pthread_kill : Mutator → ℕ) (w : World) : World → Type 0 where
  signal :
      (t : Mutator) (rest : List Mutator)
      → w.phase ≡ signalling
      → w.live_threads ≡ t ∷ rest
      → pthread_kill t ≡ 0
      → Step pthread_kill w (signal_thread t rest w)
  signal_failed :
      (t : Mutator) (rest : List Mutator)
      → w.phase ≡ signalling
      → w.live_threads ≡ t ∷ rest
      → pthread_kill t ≢ 0
      → Step pthread_kill w (record w { phase = in_debugger })
  all_signaled :
      w.phase ≡ signalling
      → w.live_threads ≡ []
      → Step pthread_kill w (record w { phase = waiting_for_handlers })
  all_entered :
      w.phase ≡ waiting_for_handlers
      → w.entered_handler_count ≡ w.total_threads_to_halt
      → Step pthread_kill w (exchange_colors w)
  all_copied :
      w.phase ≡ waiting_for_stacks
      → w.copied_stack_count ≡ w.total_threads_to_halt
      → Step pthread_kill w (finish w)
  enter :
      (xs : List HaltedThread) (t : HaltedThread) (ys : List HaltedThread)
      → w.halted_threads ≡ xs ++ t ∷ ys
      → t.state ≡ signaled
      → Step pthread_kill w (enter_handler xs t ys w)
  copy :
      (xs : List HaltedThread) (t : HaltedThread) (ys : List HaltedThread)
      → w.halted_threads ≡ xs ++ t ∷ ys
      → t.state ≡ entered
      → Step pthread_kill w (copy_stack xs t ys w)

-- Any number of steps.
pub data Steps (pthread_kill : Mutator → ℕ) (w : World) : World → Type 0 where
  none : Steps pthread_kill w w
  then :
      {w1 w2 : World} → Steps pthread_kill w w1 → Step pthread_kill w1 w2 → Steps pthread_kill w w2
