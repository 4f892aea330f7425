-- ===== src/Util/Counter.antt =====
-- COUNTER of rtutil.c: what each call does to the count under its lock.
use rtgc.Common.{ℕ, ◌+◌, Bool, ltb}

-- counter_zero and counter_increment: the new count, which is also their value.
unfoldable pub counter_zero : ℕ → ℕ
counter_zero count = 0

unfoldable pub counter_increment : ℕ → ℕ
counter_increment count = count + 1

-- The test of the loop in counter_wait_threshold: it waits while this is so.
unfoldable pub waits : (threshold count : ℕ) → Bool
waits threshold count = ltb count threshold
