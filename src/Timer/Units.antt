-- ===== src/Timer/Units.antt =====
-- How the units of cpp_utils/timer.cpp belong together.
use tiny_utils.Base.{ℕ, ◌+◌, ◌-◌, ◌/◌, ◌^◌, ◌≤◌, ◌<◌, ◌≡◌, false, ltb, arith}
use tiny_utils.Timer.{
  Timer, reset, elapsed, elapsed_hours, elapsed_minutes, elapsed_seconds, elapsed_milliseconds,
  elapsed_microseconds, elapsed_nanoseconds,
}

-- With a clock that goes on by less than 2^63 nanoseconds, after a reset at `t₀`: the nanoseconds are the
-- difference of the readings, and each larger unit is the next smaller one divided by their ratio, rounded down.
pub units_agree :
    (t : Timer) (t₀ now : ℕ)
    → t₀ ≤ now
    → now - t₀ < 2 ^ 63
    → (t₀ + elapsed_nanoseconds now (reset t₀ t) ≡ now)
      × (elapsed_microseconds now (reset t₀ t) ≡ elapsed_nanoseconds now (reset t₀ t) / 1000)
      × (elapsed_milliseconds now (reset t₀ t) ≡ elapsed_microseconds now (reset t₀ t) / 1000)
      × (elapsed_seconds now (reset t₀ t) ≡ elapsed_milliseconds now (reset t₀ t) / 1000)
      × (elapsed_minutes now (reset t₀ t) ≡ elapsed_seconds now (reset t₀ t) / 60)
      × (elapsed_hours now (reset t₀ t) ≡ elapsed_minutes now (reset t₀ t) / 60)
unfolding reset elapsed elapsed_hours elapsed_minutes elapsed_seconds elapsed_milliseconds
    elapsed_microseconds elapsed_nanoseconds
units_agree t t₀ now h small =
    rw not_less (omega arith, omega arith, omega arith, omega arith, omega arith, omega arith)
  where
    not_less : ltb now t₀ ≡ false
    not_less = ground arith
