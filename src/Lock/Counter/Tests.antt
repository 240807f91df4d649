-- ===== src/Lock/Counter/Tests.antt =====
-- Runs of the program of cpp_utils/lock.cpp, and the theorems at concrete states.
use tiny_utils.Base.{◌≡◌, refl, Bool, true, false, some, arith}
use tiny_utils.Lock.{lock, clear}
use tiny_utils.Lock.Api.{ZLock}
use tiny_utils.Lock.Classes.{z_mutex_lock, z_pthread_lock, mutex_lock, pthread_lock, pthread_unlock}
use tiny_utils.Lock.Samples.{lock_number, by_number, lock_coded, by_code}
use tiny_utils.Lock.Counter.{
  entering, reading, writing, leaving, testing, returned, begun, moved_to, goes_on, ends, locks,
  reads, writes, unlocks, System, act, Reach, start, later,
}
use tiny_utils.Lock.Counter.Counts.{Counted, mutex_counts, pthread_counts}

-- Thread 0 is inside, and thread 1 waits.
abbrev one_inside : (s : System (z_mutex_lock by_number)) × Reach (z_mutex_lock by_number) 2 1 3 s
unfolding mutex_lock by_number lock_number
one_inside = (
  _,
  later
      (later (later start (act 0 (omega arith) (goes_on 0 (omega arith))))
        (act 1 (omega arith) (goes_on 0 (omega arith))))
      (act 0 (omega arith) (locks 0 refl)),
)

mutex_counts_example : Counted (z_mutex_lock by_number) 2 1 3 one_inside.0
mutex_counts_example = mutex_counts by_number one_inside.1

-- One thread has come to its end.
abbrev one_round : (s : System (z_pthread_lock by_code)) × Reach (z_pthread_lock by_code) 1 1 6 s
unfolding pthread_lock pthread_unlock by_code lock_coded
one_round = (
  _,
  later
      (later
        (later
          (later
            (later (later start (act 0 (omega arith) (goes_on 0 (omega arith))))
              (act 0 (omega arith) (locks 0 refl)))
            (act 0 (omega arith) (reads 0)))
          (act 0 (omega arith) (writes 0 0)))
        (act 0 (omega arith) (unlocks 0)))
      (act 0 (omega arith) (ends 1 (omega arith))),
)

pthread_counts_example : Counted (z_pthread_lock by_code) 1 1 6 one_round.0
pthread_counts_example = pthread_counts by_code one_round.1

-- The class ZSpinLock of C++11, with an `unlock` that compiles.
abbrev spin_lock : ZLock
spin_lock = record {
  State = Bool;
  unlocked = false;
  lock_call = λ i flag. some (true, (lock flag).0);
  try_lock_call = λ i flag. (false, flag);
  unlock_call = λ i flag. (true, clear flag);
}

abbrev both_entering : System spin_lock
both_entering = moved_to (moved_to (begun spin_lock) 0 false 0 (entering 0)) 1 false 0 (entering 0)

both_entering-Reach : Reach spin_lock 2 1 2 both_entering
unfolding lock clear
both_entering-Reach =
    later (later start (act 0 (omega arith) (goes_on 0 (omega arith))))
      (act 1 (omega arith) (goes_on 0 (omega arith)))

abbrev both_inside : System spin_lock
both_inside = moved_to (moved_to both_entering 0 true 0 (reading 0)) 1 true 0 (reading 0)

both_inside-Reach : Reach spin_lock 2 1 4 both_inside
unfolding lock clear
both_inside-Reach =
    later (later both_entering-Reach (act 0 (omega arith) (locks 0 refl)))
      (act 1 (omega arith) (locks 0 refl))

abbrev both_read : System spin_lock
both_read = moved_to (moved_to both_inside 0 true 0 (writing 0 0)) 1 true 0 (writing 0 0)

both_read-Reach : Reach spin_lock 2 1 6 both_read
unfolding lock clear
both_read-Reach =
    later (later both_inside-Reach (act 0 (omega arith) (reads 0))) (act 1 (omega arith) (reads 0))

abbrev both_written : System spin_lock
both_written = moved_to (moved_to both_read 0 true 1 (leaving 0)) 1 true 1 (leaving 0)

both_written-Reach : Reach spin_lock 2 1 8 both_written
unfolding lock clear
both_written-Reach =
    later (later both_read-Reach (act 0 (omega arith) (writes 0 0)))
      (act 1 (omega arith) (writes 0 0))

abbrev both_unlocked : System spin_lock
both_unlocked = moved_to (moved_to both_written 0 false 1 (testing 1)) 1 false 1 (testing 1)

both_unlocked-Reach : Reach spin_lock 2 1 10 both_unlocked
unfolding lock clear
both_unlocked-Reach =
    later (later both_written-Reach (act 0 (omega arith) (unlocks 0)))
      (act 1 (omega arith) (unlocks 0))

abbrev both_returned : System spin_lock
both_returned = moved_to (moved_to both_unlocked 0 false 1 returned) 1 false 1 returned

both_returned-Reach : Reach spin_lock 2 1 12 both_returned
unfolding lock clear
both_returned-Reach =
    later (later both_unlocked-Reach (act 0 (omega arith) (ends 1 (omega arith))))
      (act 1 (omega arith) (ends 1 (omega arith)))

-- Two threads that run one round each with it are inside together, and one of the two additions is lost.
spin_loses_one :
    Reach spin_lock 2 1 12 both_returned
    × (both_returned.count ≡ 1)
    × (both_returned.threads 0 ≡ returned)
    × (both_returned.threads 1 ≡ returned)
spin_loses_one = (both_returned-Reach, refl, refl, refl)
