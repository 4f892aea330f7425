-- ===== src/Util.antt =====
-- rtutil.c: differences of times, counters and the ring of objects to finalize. Memory mapping,
-- printing and the tests of that file are not modelled.
pub mod Time
pub mod Counter
pub mod Finalize
