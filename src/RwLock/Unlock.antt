-- ===== src/RwLock/Unlock.antt =====
-- What `unlock` releases, whom it wakes and what it returns.
use tiny_utils.Base.{◌≡◌, ◌≢◌, ◌<◌, ◌↔◌, Bool, true, arith}
use tiny_utils.Base.Int.{ℤ, pos, negsuc, ◌-ℤ◌}
use tiny_utils.RwLock.{
  ok, lock_bad_stat, lock_timeout, ReadWriteLock, Returns, returns, nobody, one_writer, all_readers,
  destroy, read_loop, read_lock, timed_read_lock, timed_write_wait, read_wake, try_read_lock,
  write_loop, write_lock, write_wake, try_write_lock, unlock, release, wake_up,
}

-- The count after one holder has left.
abbrev pub one_less : ℤ → ℤ
one_less (pos n) = pos n -ℤ pos 1
one_less (negsuc n) = pos 0

abbrev pub IsHeld : ReadWriteLock → Type 0
IsHeld l = (l.valid ≡ true) × (l.ref_count ≢ pos 0)

abbrev pub all_succeed : Returns
all_succeed = record { mutex_lock = true; cond_signal = true; cond_broadcast = true }

-- On a held lock that is not destroyed, with every pthread call returning 0, `unlock` takes one
-- holder away and keeps the waiting numbers; it signals a writer exactly when the lock is free now
-- and a writer waits, it broadcasts to the readers exactly when it signals no writer and a reader
-- waits, and it returns OK exactly when it woke somebody.
unlock_held :
    (l : ReadWriteLock)
    → IsHeld l
    → let (l', wake, code) = unlock all_succeed l in
      (l' ≡ record l { ref_count = one_less l.ref_count })
      × ((wake ≡ one_writer) ↔ ((0 < l.writer_waiting_num) × (one_less l.ref_count ≡ pos 0)))
      × ((wake ≡ all_readers) ↔ ((wake ≢ one_writer) × (0 < l.reader_waiting_num)))
      × ((code ≡ ok) ↔ (wake ≢ nobody))
unfolding unlock release wake_up ◌-ℤ◌
unlock_held l h = ground arith

-- On a held lock that is not destroyed, with nobody waiting, `unlock` releases one holder and
-- returns EC_LOCK_BAD_STAT, whatever the pthread calls return.
unlock_without_waiters :
    (r : Returns) (l : ReadWriteLock)
    → IsHeld l
    → l.reader_waiting_num ≡ 0
    → l.writer_waiting_num ≡ 0
    → unlock r l ≡ (record l { ref_count = one_less l.ref_count }, nobody, lock_bad_stat)
unfolding unlock release wake_up ◌-ℤ◌
unlock_without_waiters r l h nr nw = ground arith

-- `unlock` changes the lock and wakes threads in the same way whether or not it got the mutex.
unlock_ignores_mutex :
    (r : Returns) (l : ReadWriteLock)
    → let (l', wake, code) = unlock r l in
      let (l'', wake', code') = unlock (record r { mutex_lock = true }) l in
      (l' ≡ l'') × (wake ≡ wake')
unfolding unlock release wake_up
unlock_ignores_mutex r l = ground arith

-- No call of the lock ever returns EC_LOCK_TIMEOUT, also after a timed wait that failed.
never_times_out :
    (r : Returns) (b : Bool) (l : ReadWriteLock)
    → ((timed_read_lock r l).1 ≢ returns lock_timeout)
      × ((timed_write_wait r l).1 ≢ returns lock_timeout)
      × ((read_lock r l).1 ≢ returns lock_timeout)
      × ((read_wake b l).1 ≢ returns lock_timeout)
      × ((try_read_lock r l).1 ≢ returns lock_timeout)
      × ((write_lock r l).1 ≢ returns lock_timeout)
      × ((write_wake b l).1 ≢ returns lock_timeout)
      × ((try_write_lock r l).1 ≢ returns lock_timeout)
      × ((unlock r l).2 ≢ lock_timeout)
      × ((destroy l).1 ≢ lock_timeout)
unfolding timed_read_lock timed_write_wait read_lock read_wake try_read_lock write_lock write_wake
    try_write_lock unlock destroy read_loop write_loop release wake_up
never_times_out r b l = (
  ground arith,
  ground arith,
  ground arith,
  ground arith,
  ground arith,
  ground arith,
  ground arith,
  ground arith,
  ground arith,
  ground arith,
)
