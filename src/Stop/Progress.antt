-- ===== src/Stop/Progress.antt =====
-- That stop_all_mutators_and_save_state of rtstop.c comes to its end.
use rtgc.Common.{
  ℕ, suc, ◌+◌, ◌*◌, ◌≡◌, ◌≢◌, ◌⊎◌, inl, inr, refl, sym, ap, ◌∙◌, List, [], ◌∷◌, ◌++◌, length, arith,
}
use native.Mathlib.Decide.{ℕ_discrete}
use rtgc.Stop.{
  HandlerState, signaled, entered, copied, Mutator, HaltedThread, Phase, signalling,
  waiting_for_handlers, waiting_for_stacks, finished, in_debugger, World, stop, signal_thread,
  exchange_colors, finish, enter_handler, copy_stack, Step, Steps, signal, signal_failed,
  all_signaled, all_entered, all_copied, enter, copy, none, then,
}
use rtgc.Stop.Counts.{entered_one, copied_one, count, count-append}
use rtgc.Stop.Reachable.{IsWorld, replaced_count}
use rtgc.Stop.Safety.{stop-IsWorld}

-- The steps that a thread's handler, and the collector, have still to make.
abbrev steps_left : HandlerState → ℕ
steps_left signaled = 2
steps_left entered = 1
steps_left copied = 0

abbrev phase_rank : Phase → ℕ
phase_rank signalling = 3
phase_rank waiting_for_handlers = 2
phase_rank waiting_for_stacks = 1
phase_rank finished = 0
phase_rank in_debugger = 2

abbrev pub rank : World → ℕ
rank w = phase_rank w.phase + 3 * length w.live_threads + count steps_left w.halted_threads

passed : {p : ℕ} (n a b : ℕ) → p ≡ n + 1 → n + a + b + 1 ≡ p + a + b
passed n a b e = omega arith

fewer : (a b k r : ℕ) {c d : ℕ} → b ≡ c → d ≡ suc k → r + d ≡ c + k → a + r + 1 ≡ a + b
fewer a b k r p q u = omega arith

-- Every step is one of them.
Step-rank :
    (pthread_kill : Mutator → ℕ) (w w' : World) → Step pthread_kill w w' → rank w' + 1 ≡ rank w
Step-rank kill w w' (signal t rest p l k) =
    let new : HaltedThread = record {
      thread = t;
      saved_thread_index = w.total_threads_to_halt;
      state = signaled;
    } in
    less (phase_rank w.phase) (length rest) (count steps_left w.halted_threads)
      (count-append steps_left w.halted_threads (new ∷ [])) (ap (λ (l : List Mutator). length l) l)
  where
    less :
        (a n c : ℕ) {c' m : ℕ} → c' ≡ c + (2 + 0) → m ≡ suc n → a + 3 * n + c' + 1 ≡ a + 3 * m + c
    less a n c p q = omega arith
Step-rank kill w w' (signal_failed t rest p l k) =
    passed 2 (3 * length w.live_threads) (count steps_left w.halted_threads) (ap phase_rank p)
Step-rank kill w w' (all_signaled p l) =
    passed 2 (3 * length w.live_threads) (count steps_left w.halted_threads) (ap phase_rank p)
Step-rank kill w w' (all_entered p e) =
    passed 1 (3 * length w.live_threads) (count steps_left w.halted_threads) (ap phase_rank p)
Step-rank kill w w' (all_copied p e) =
    passed 0 (3 * length w.live_threads) (count steps_left w.halted_threads) (ap phase_rank p)
Step-rank kill w w' (enter xs t ys e s) =
    let t' : HaltedThread = record t { state = entered } in
    fewer (phase_rank w.phase + 3 * length w.live_threads) (count steps_left w.halted_threads) 1
      (count steps_left (xs ++ t' ∷ ys)) (ap (count steps_left) e) (ap steps_left s)
      (replaced_count xs t t' ys refl steps_left)
Step-rank kill w w' (copy xs t ys e s) =
    let t' : HaltedThread = record t { state = copied } in
    fewer (phase_rank w.phase + 3 * length w.live_threads) (count steps_left w.halted_threads) 0
      (count steps_left (xs ++ t' ∷ ys)) (ap (count steps_left) e) (ap steps_left s)
      (replaced_count xs t t' ys refl steps_left)

-- A count that is not full leaves a thread out.
find :
    (f : HandlerState → ℕ) (ss : List HaltedThread)
    → ((s : HandlerState) → f s ≢ 0 → f s ≡ 1)
    → count f ss ≢ length ss
    → (xs : List HaltedThread) × (t : HaltedThread) × (ys : List HaltedThread) × (ss ≡ xs ++ t ∷ ys)
      × (f t.state ≡ 0)
find f [] one ne = absurd (ne refl)
find f (s ∷ ss) one ne = elim (ℕ_discrete (f s.state) 0) [
  | yes z ↦ ([], s, ss, refl, z)
  | no nz ↦
      let (xs, t, ys, e, z) = find f ss one (λ q. ne (full (one s.state nz) q)) in
      (s ∷ xs, t, ys, ap (λ l. s ∷ l) e, z)
]
  where
    full : {a b n : ℕ} → a ≡ 1 → b ≡ n → a + b ≡ suc n
    full p q = omega arith

entered_zero_or_one : (s : HandlerState) → entered_one s ≢ 0 → entered_one s ≡ 1
entered_zero_or_one signaled ne = absurd (ne refl)
entered_zero_or_one entered ne = refl
entered_zero_or_one copied ne = refl

copied_zero_or_one : (s : HandlerState) → copied_one s ≢ 0 → copied_one s ≡ 1
copied_zero_or_one signaled ne = absurd (ne refl)
copied_zero_or_one entered ne = absurd (ne refl)
copied_zero_or_one copied ne = refl

module _ (pthread_kill : Mutator → ℕ) where
  abbrev Moves : World → Type 0
  Moves w = (w' : World) × Step pthread_kill w w'

  move_handler :
      (w : World) (xs : List HaltedThread) (t : HaltedThread) (ys : List HaltedThread)
      → w.halted_threads ≡ xs ++ t ∷ ys
      → (s : HandlerState) → t.state ≡ s
      → copied_one s ≡ 0
      → Moves w
  move_handler w xs t ys e signaled s z = (enter_handler xs t ys w, enter xs t ys e s)
  move_handler w xs t ys e entered s z = (copy_stack xs t ys w, copy xs t ys e s)
  move_handler w xs t ys e copied s z = absurd (omega (arith, z))

  signalling-Moves :
      ((t : Mutator) → pthread_kill t ≡ 0)
      → (w : World) → w.phase ≡ signalling
      → (l : List Mutator) → w.live_threads ≡ l
      → Moves w
  signalling-Moves ok w p [] e = (record w { phase = waiting_for_handlers }, all_signaled p e)
  signalling-Moves ok w p (t ∷ rest) e = (signal_thread t rest w, signal t rest p e (ok t))

  module _ (threads : List Mutator) (start w : World) (i : IsWorld threads start w) where
    waiting_for_handlers-Moves : w.phase ≡ waiting_for_handlers → Moves w
    waiting_for_handlers-Moves p =
        elim (ℕ_discrete w.entered_handler_count w.total_threads_to_halt) [
          | yes e ↦ (exchange_colors w, all_entered p e)
          | no ne ↦
              let (xs, t, ys, e, z) =
                find entered_one w.halted_threads entered_zero_or_one
                  (λ q. ne (i.entered ∙ q ∙ sym i.total)) in
              move_handler w xs t ys e t.state refl (not_copied t.state z)
        ]
      where
        not_copied : (s : HandlerState) → entered_one s ≡ 0 → copied_one s ≡ 0
        not_copied signaled e = refl
        not_copied entered e = refl
        not_copied copied e = absurd (omega (arith, e))

    waiting_for_stacks-Moves : w.phase ≡ waiting_for_stacks → Moves w
    waiting_for_stacks-Moves p = elim (ℕ_discrete w.copied_stack_count w.total_threads_to_halt) [
      | yes e ↦ (finish w, all_copied p e)
      | no ne ↦
          let (xs, t, ys, e, z) =
            find copied_one w.halted_threads copied_zero_or_one
              (λ q. ne (i.copied ∙ q ∙ sym i.total)) in
          move_handler w xs t ys e t.state refl z
    ]

    any-Moves :
        ((t : Mutator) → pthread_kill t ≡ 0)
        → w.phase ≢ in_debugger
        → (p : Phase) → w.phase ≡ p
        → (w.phase ≡ finished) ⊎ Moves w
    any-Moves ok nd signalling e = inr (signalling-Moves ok w e w.live_threads refl)
    any-Moves ok nd waiting_for_handlers e = inr (waiting_for_handlers-Moves e)
    any-Moves ok nd waiting_for_stacks e = inr (waiting_for_stacks-Moves e)
    any-Moves ok nd finished e = inl e
    any-Moves ok nd in_debugger e = absurd (nd e)

  not_in_debugger :
      ((t : Mutator) → pthread_kill t ≡ 0)
      → (start w : World) → start.phase ≢ in_debugger
      → Steps pthread_kill start w
      → w.phase ≢ in_debugger
  not_in_debugger ok start w n none = n
  not_in_debugger ok start w n (then {w1 = w1} s (signal t rest p l k)) =
      not_in_debugger ok start w1 n s
  not_in_debugger ok start w n (then s (signal_failed t rest p l k)) = absurd (k (ok t))
  not_in_debugger ok start w n (then s (all_signaled p l)) = λ e. cc
  not_in_debugger ok start w n (then s (all_entered p e)) = λ e. cc
  not_in_debugger ok start w n (then s (all_copied p e)) = λ e. cc
  not_in_debugger ok start w n (then {w1 = w1} s (enter xs t ys e q)) =
      not_in_debugger ok start w1 n s
  not_in_debugger ok start w n (then {w1 = w1} s (copy xs t ys e q)) =
      not_in_debugger ok start w1 n s

-- Where pthread_kill always returns 0, stop_all_mutators_and_save_state comes to its end in every
-- order of the steps: in each state that is reached, every step lowers a rank by one, and the
-- collector is at its end or a step can be made. The rank at the start is three for each thread
-- and three.
pub stop-finishes :
    (pthread_kill : Mutator → ℕ) (threads : List Mutator) (start w : World)
    → ((t : Mutator) → pthread_kill t ≡ 0)
    → Steps pthread_kill (stop threads start) w
    → ((w' : World) → Step pthread_kill w w' → rank w' + 1 ≡ rank w)
      × ((w.phase ≡ finished) ⊎ ((w' : World) × Step pthread_kill w w'))
      × (rank (stop threads start) ≡ 3 + 3 * length threads)
stop-finishes kill threads start w ok s = (
  Step-rank kill w,
  any-Moves kill threads start w (stop-IsWorld kill threads start w s) ok
      (not_in_debugger kill ok (stop threads start) w (λ e. cc) s) w.phase refl,
  omega arith,
)
