-- ===== src/Timer/Tests.antt =====
-- Readings of cpp_utils/timer.cpp, and the theorem for two of them.
use tiny_utils.Base.{◌+◌, ◌-◌, ◌/◌, ◌^◌, ◌≡◌, refl, arith}
use tiny_utils.Timer.{
  start, reset, elapsed, elapsed_hours, elapsed_minutes, elapsed_seconds, elapsed_milliseconds,
  elapsed_microseconds, elapsed_nanoseconds,
}
use tiny_utils.Timer.Units.{units_agree}

-- 2.5 milliseconds, rounded down.
two_milliseconds : elapsed_milliseconds 3500000 (start 1000000) ≡ 2
unfolding elapsed_milliseconds elapsed start
two_milliseconds = refl

-- A clock that was set back by one microsecond.
clock_set_back : elapsed_microseconds 0 (start 1000) ≡ 2 ^ 64 - 1
unfolding elapsed_microseconds elapsed start
clock_set_back = refl

units_agree_example :
    (1000 + elapsed_nanoseconds 7200000005000 (reset 1000 (start 0)) ≡ 7200000005000)
    × (elapsed_microseconds 7200000005000 (reset 1000 (start 0))
        ≡ elapsed_nanoseconds 7200000005000 (reset 1000 (start 0)) / 1000)
    × (elapsed_milliseconds 7200000005000 (reset 1000 (start 0))
        ≡ elapsed_microseconds 7200000005000 (reset 1000 (start 0)) / 1000)
    × (elapsed_seconds 7200000005000 (reset 1000 (start 0))
        ≡ elapsed_milliseconds 7200000005000 (reset 1000 (start 0)) / 1000)
    × (elapsed_minutes 7200000005000 (reset 1000 (start 0))
        ≡ elapsed_seconds 7200000005000 (reset 1000 (start 0)) / 60)
    × (elapsed_hours 7200000005000 (reset 1000 (start 0))
        ≡ elapsed_minutes 7200000005000 (reset 1000 (start 0)) / 60)
units_agree_example = units_agree (start 0) 1000 7200000005000 (omega arith) (omega arith)
