-- ===== src/Util/Time.antt =====
-- RTtime_diff and RTtime_cmp on times from the epoch on.
use rtgc.Common.{ℕ, ◌+◌, ◌-◌, ◌*◌, ◌≤◌, ◌<◌, ◌≡◌, ◌↔◌, Bool, true, ltb, ◌==◌, if◌then◌else◌, arith}

pub record Timespec : Type 0 where
  pub tv_sec : ℕ
  pub tv_nsec : ℕ

-- The difference of the seconds may be negative in C; it is truncated here, and the laws are
-- about an end that does not lie before the start.
unfoldable pub time_diff : (end start : Timespec) → Timespec
time_diff end start =
    if ltb end.tv_nsec start.tv_nsec
    then record {
      tv_sec = end.tv_sec - start.tv_sec - 1;
      tv_nsec = 1_000_000_000 + end.tv_nsec - start.tv_nsec;
    }
    else record { tv_sec = end.tv_sec - start.tv_sec; tv_nsec = end.tv_nsec - start.tv_nsec }

unfoldable pub time_cmp : (a b : Timespec) → Bool
time_cmp a b = if a.tv_sec == b.tv_sec then ltb b.tv_nsec a.tv_nsec else ltb b.tv_sec a.tv_sec

abbrev pub nanoseconds : Timespec → ℕ
nanoseconds t = t.tv_sec * 1_000_000_000 + t.tv_nsec

abbrev pub IsNormal : Timespec → Type 0
IsNormal t = t.tv_nsec < 1_000_000_000

-- For normal times of which the first is not earlier, the difference is a normal time and has as
-- many nanoseconds as lie between them.
pub time_diff-nanoseconds :
    (end start : Timespec)
    → IsNormal end
    → IsNormal start
    → nanoseconds start ≤ nanoseconds end
    → IsNormal (time_diff end start)
      × (nanoseconds (time_diff end start) + nanoseconds start ≡ nanoseconds end)
unfolding time_diff
time_diff-nanoseconds end start p q h = ground arith

-- Comparison of normal times is comparison of their nanoseconds.
pub time_cmp-nanoseconds :
    (a b : Timespec)
    → IsNormal a
    → IsNormal b
    → (time_cmp a b ≡ true) ↔ (nanoseconds b < nanoseconds a)
unfolding time_cmp
time_cmp-nanoseconds a b p q = ground arith
