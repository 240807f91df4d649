-- ===== src/RwLock/Tests.antt =====
-- Runs of cpp_utils/rwlock.cpp, and the theorems at concrete locks.
use tiny_utils.Base.{ℕ, ◌+◌, ◌≡◌, ◌<◌, refl, true, false, [], ◌∷◌, arith}
use tiny_utils.Base.Int.{pos, negsuc, ◌+ℤ◌}
use tiny_utils.RwLock.{
  ok, lock_using, ReadWriteLock, one_writer, fresh, destroy, read_loop, read_lock, write_loop,
  write_lock, unlock, release, wake_up, write_wake,
}
use tiny_utils.RwLock.Threads.{
  idle, reading, writing, waiting_write, reads, writes, System, act, Reach, start, later,
}
use tiny_utils.RwLock.Exclusion.{Holders, count, waiting_readers, waiting_writers, mutual_exclusion}
use tiny_utils.RwLock.Wakes.{Places, Move, Run, no_lost_wake_up}
use tiny_utils.RwLock.Wakes.Served.{Moves, holding, waiting, waiter_served}
use tiny_utils.RwLock.Unlock.{all_succeed}

-- One writer holds the lock, one writer and one reader wait.
abbrev contended : ReadWriteLock
contended = record {
  ref_count = negsuc 0;
  reader_waiting_num = 1;
  writer_waiting_num = 1;
  valid = true;
}

abbrev alone : ReadWriteLock
alone = record { ref_count = pos 1; reader_waiting_num = 0; writer_waiting_num = 0; valid = true }

-- The first of two threads reads, the second waits to write.
abbrev reader_first : System
reader_first = record {
  lock = record { ref_count = pos 1; reader_waiting_num = 0; writer_waiting_num = 1; valid = true };
  threads = reading ∷ waiting_write ∷ [];
}

reader_first-Reach : Reach 2 reader_first
unfolding fresh read_lock read_loop write_lock write_loop ◌+ℤ◌
reader_first-Reach =
    later (later start (act [] (idle ∷ []) (reads all_succeed)))
      (act (reading ∷ []) [] (writes all_succeed))

unlock_runs :
    unlock all_succeed contended ≡ (record contended { ref_count = pos 0 }, one_writer, ok)
unfolding unlock release wake_up
unlock_runs = refl

destroy_refuses : (destroy alone).1 ≡ lock_using
unfolding destroy
destroy_refuses = refl

mutual_exclusion_example :
    Holders
      (pos 1)
      (count reading (reading ∷ waiting_write ∷ []))
      (count writing (reading ∷ waiting_write ∷ []))
    × (◌≡◌ {A = ℕ} 0 (waiting_readers reader_first))
    × (◌≡◌ {A = ℕ} 1 (waiting_writers reader_first))
mutual_exclusion_example = mutual_exclusion (omega arith) reader_first-Reach

-- A writer in a timed wait that is signalled and times out leaves the lock free and the reader asleep.
signal_is_lost :
    (write_wake false (unlock all_succeed contended).0).0
    ≡ record { ref_count = pos 0; reader_waiting_num = 1; writer_waiting_num = 0; valid = true }
unfolding unlock release wake_up write_wake
signal_is_lost = refl

-- One thread reads, and one sleeps until it may write.
abbrev one_sleeps : Places
one_sleeps = record {
  lock = record { ref_count = pos 1; reader_waiting_num = 0; writer_waiting_num = 1; valid = true };
  readers = 1;
  writers = 0;
  asleep_read = 0;
  woken_read = 0;
  asleep_write = 1;
  woken_write = 0;
}

one_sleeps-Run : Run 2 one_sleeps
unfolding fresh read_lock read_loop write_lock write_loop ◌+ℤ◌
one_sleeps-Run =
    Run.later (Run.later Run.start (Move.reads all_succeed (omega arith)))
      (Move.writes all_succeed (omega arith))

no_lost_wake_up_example :
    0 < one_sleeps.readers + one_sleeps.writers + (one_sleeps.woken_read + one_sleeps.woken_write)
no_lost_wake_up_example = no_lost_wake_up (omega arith) one_sleeps-Run (omega arith)

waiter_served_example :
    (t : Places) × Moves 2 one_sleeps t × (0 < holding t) × (waiting t < waiting one_sleeps)
waiter_served_example = waiter_served (omega arith) one_sleeps-Run (omega arith)
