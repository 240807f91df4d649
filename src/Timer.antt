-- ===== src/Timer.antt =====
-- cpp_utils/timer.cpp, class Timer. A reading of the clock is its count of nanoseconds, and an argument;
-- `unsigned long` has 64 bits.
pub mod Units
mod Tests
use tiny_utils.Base.{ℕ, ◌+◌, ◌-◌, ◌*◌, ◌/◌, ◌%◌, ◌^◌, ltb, if◌then◌else◌}
use tiny_utils.Base.Int.{ℤ, pos, negsuc}

pub record Timer : Type 0 where
  pub clock_begin : ℕ

unfoldable pub start : ℕ → Timer
start now = record { clock_begin = now }

unfoldable pub reset : ℕ → Timer → Timer
reset now t = record { clock_begin = now }

-- `duration_cast` to a unit of `unit` nanoseconds rounds towards 0, and the count becomes an `unsigned long`.
-- The clock may be behind its first reading.
unfoldable pub elapsed : (unit now : ℕ) → Timer → ℕ
elapsed unit now t =
    if ltb now t.clock_begin
    then (2 ^ 64 - (t.clock_begin - now) / unit % 2 ^ 64) % 2 ^ 64
    else (now - t.clock_begin) / unit % 2 ^ 64

unfoldable pub elapsed_hours : ℕ → Timer → ℕ
elapsed_hours now t = elapsed (3600 * 1000000000) now t

unfoldable pub elapsed_minutes : ℕ → Timer → ℕ
elapsed_minutes now t = elapsed (60 * 1000000000) now t

unfoldable pub elapsed_seconds : ℕ → Timer → ℕ
elapsed_seconds now t = elapsed 1000000000 now t

unfoldable pub elapsed_milliseconds : ℕ → Timer → ℕ
elapsed_milliseconds now t = elapsed 1000000 now t

unfoldable pub elapsed_microseconds : ℕ → Timer → ℕ
elapsed_microseconds now t = elapsed 1000 now t

unfoldable pub elapsed_nanoseconds : ℕ → Timer → ℕ
elapsed_nanoseconds now t = elapsed 1 now t
