-- ===== src/Stop/Counts.antt =====
-- How many of the saved threads of rtstop.c have entered the handler, and are copied.
use rtgc.Common.{ℕ, ◌+◌, ◌≤◌, ◌≡◌, suc, sym, ◌∙◌, length-append, List, [], ◌∷◌, ◌++◌, length, arith}
use rtgc.Stop.{HandlerState, signaled, entered, copied, HaltedThread}

abbrev pub entered_one : HandlerState → ℕ
entered_one signaled = 0
entered_one entered = 1
entered_one copied = 1

abbrev pub copied_one : HandlerState → ℕ
copied_one signaled = 0
copied_one entered = 0
copied_one copied = 1

abbrev pub count : (HandlerState → ℕ) → List HaltedThread → ℕ
count f [] = 0
count f (t ∷ ts) = f t.state + count f ts

pub count-append :
    (f : HandlerState → ℕ) (xs ys : List HaltedThread)
    → count f (xs ++ ys) ≡ count f xs + count f ys
count-append f [] ys = omega arith
count-append f (x ∷ xs) ys = omega (arith, count-append f xs ys)

entered_one-le : (s : HandlerState) → entered_one s ≤ 1
entered_one-le signaled = omega arith
entered_one-le entered = omega arith
entered_one-le copied = omega arith

copied_one-le : (s : HandlerState) → copied_one s ≤ entered_one s
copied_one-le signaled = omega arith
copied_one-le entered = omega arith
copied_one-le copied = omega arith

pub count_entered-le : (xs : List HaltedThread) → count entered_one xs ≤ length xs
count_entered-le [] = omega arith
count_entered-le (x ∷ xs) = omega (arith, count_entered-le xs, entered_one-le x.state)

pub count_copied-le : (xs : List HaltedThread) → count copied_one xs ≤ count entered_one xs
count_copied-le [] = omega arith
count_copied-le (x ∷ xs) = omega (arith, count_copied-le xs, copied_one-le x.state)

-- The states when a count is full.
pub all_entered_of :
    (xs : List HaltedThread) (t : HaltedThread) (ys : List HaltedThread)
    → count entered_one (xs ++ t ∷ ys) ≡ length (xs ++ t ∷ ys)
    → entered_one t.state ≡ 1
all_entered_of xs t ys e =
    full (count entered_one xs) (entered_one t.state) (count entered_one ys) (length xs) (length ys)
      (sym (count-append entered_one xs (t ∷ ys)) ∙ e ∙ length-append xs (t ∷ ys))
      (count_entered-le xs) (count_entered-le ys) (entered_one-le t.state)
  where
    full : (a b c n m : ℕ) → a + (b + c) ≡ n + suc m → a ≤ n → c ≤ m → b ≤ 1 → b ≡ 1
    full a b c n m e p q r = omega arith
