-- ===== src/Examples/Stops.antt =====
-- The theorems on stopping the world, at two threads that are signaled one after the other.
use rtgc.Common.{ℕ, ◌+◌, ◌%◌, ◌≡◌, ◌⊎◌, refl, true, false, [], ◌∷◌}
use rtgc.Stop.{
  HandlerState, Mutator, HaltedThread, World, waiting_for_handlers, finished, signaled, entered,
  copied, stop, signal_thread, enter_handler, exchange_colors, copy_stack, finish, Step, Steps,
  signal, all_signaled, all_entered, all_copied, enter, copy, none, then,
}
use rtgc.Stop.Reachable.{IsWorld}
use rtgc.Stop.Safety.{stop-IsWorld, AreCopied, stop-AreCopied}
use rtgc.Stop.Progress.{rank, stop-finishes}

abbrev kill : Mutator → ℕ
kill t = 0

abbrev first : Mutator
first = record { stack_bottom = 1000; stack_top = 900; gregs = λ j. 1000 + j; stack = λ a. a % 256 }

abbrev second : Mutator
second = record {
  stack_bottom = 2000;
  stack_top = 1960;
  gregs = λ j. 2000 + j;
  stack = λ a. a % 256;
}

abbrev before : World
before = record {
  phase = finished;
  live_threads = [];
  halted_threads = [];
  saved_threads = λ i. record { registers = λ j. 0; saved_stack = λ o. 0; saved_stack_size = 0 };
  entered_handler_count = 0;
  copied_stack_count = 0;
  total_threads_to_halt = 0;
  total_saved_threads = 0;
  free_locks = λ i. true;
  enable_write_barrier = false;
  marked_color = 0;
  unmarked_color = 1;
}

abbrev halted : HandlerState → ℕ → Mutator → HaltedThread
halted s n t = record { thread = t; saved_thread_index = n; state = s }

-- The first thread enters its handler before the second one is signaled, and copies its stack
-- before the second one enters.
abbrev half_way : World
half_way = copy_stack [] (halted entered 0 first) (halted signaled 1 second ∷ []) (
    signal_thread second [] (
      enter_handler [] (halted signaled 0 first) []
        (signal_thread first (second ∷ []) (stop (first ∷ second ∷ []) before))))

to_half_way : Steps kill (stop (first ∷ second ∷ []) before) half_way
to_half_way =
    then
      (then
        (then (then none (signal first (second ∷ []) refl refl refl))
          (enter [] (halted signaled 0 first) [] refl refl))
        (signal second [] refl refl refl))
      (copy [] (halted entered 0 first) (halted signaled 1 second ∷ []) refl refl)

abbrev waiting : World
waiting = record half_way { phase = waiting_for_handlers }

abbrev all_in : World
all_in =
    exchange_colors
      (enter_handler (halted copied 0 first ∷ []) (halted signaled 1 second) [] waiting)

abbrev at_end : World
at_end = finish (copy_stack (halted copied 0 first ∷ []) (halted entered 1 second) [] all_in)

to_end : Steps kill (stop (first ∷ second ∷ []) before) at_end
to_end =
    then
      (then
        (then
          (then (then to_half_way (all_signaled refl refl))
            (enter (halted copied 0 first ∷ []) (halted signaled 1 second) [] refl refl))
          (all_entered refl refl))
        (copy (halted copied 0 first ∷ []) (halted entered 1 second) [] refl refl))
      (all_copied refl refl)

stop-IsWorld_example : IsWorld (first ∷ second ∷ []) before half_way
stop-IsWorld_example = stop-IsWorld kill (first ∷ second ∷ []) before half_way to_half_way

stop-AreCopied_example :
    AreCopied 0 (first ∷ second ∷ []) at_end.saved_threads
    × (at_end.total_saved_threads ≡ 2)
    × (at_end.marked_color ≡ 1)
    × (at_end.unmarked_color ≡ 0)
stop-AreCopied_example = stop-AreCopied kill (first ∷ second ∷ []) before at_end to_end refl

stop-finishes_example :
    ((w' : World) → Step kill half_way w' → rank w' + 1 ≡ rank half_way)
    × ((half_way.phase ≡ finished) ⊎ ((w' : World) × Step kill half_way w'))
    × (rank (stop (first ∷ second ∷ []) before) ≡ 9)
stop-finishes_example =
    stop-finishes kill (first ∷ second ∷ []) before half_way (λ t. refl) to_half_way
