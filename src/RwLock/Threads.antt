-- ===== src/RwLock/Threads.antt =====
-- Threads that call the lock, in any order.
use tiny_utils.Base.{ℕ, ◌≡◌, Bool, true, List, ◌∷◌, ◌++◌, replicate}
use tiny_utils.RwLock.{
  ok, ReadWriteLock, Returns, Reply, returns, waits, fresh, read_lock, timed_read_lock,
  timed_write_wait, read_wake, try_read_lock, write_lock, write_wake, try_write_lock, unlock,
  cancel_read_lock_wait, cancel_write_lock_wait,
}

-- Where a thread stands: outside the lock, holding it, waiting on a condition in `read_lock` or
-- `write_lock`, or waiting in one of the timed calls.
pub data Pc : Type 0 where
  idle reading writing waiting_read waiting_write timed_read timed_write : Pc

abbrev pub after_read : Reply → Pc
after_read (returns ok) = reading
after_read (returns _) = idle
after_read waits = waiting_read

abbrev pub after_write : Reply → Pc
after_write (returns ok) = writing
after_write (returns _) = idle
after_write waits = waiting_write

-- The same for the timed calls.
abbrev pub after_timed_read : Reply → Pc
after_timed_read (returns ok) = reading
after_timed_read (returns _) = idle
after_timed_read waits = timed_read

abbrev pub after_timed_write : Reply → Pc
after_timed_write (returns ok) = writing
after_timed_write (returns _) = idle
after_timed_write waits = timed_write

-- What one thread may do next. A wait may end at any time, with or without an error, which covers
-- signals, broadcasts, time-outs and spurious wake-ups. Only a thread that holds the lock
-- unlocks, and it gets the mutex. A cancelled thread runs the clean-up handler that `read_lock` and
-- `write_lock` push; the timed calls push none, and nobody is cancelled in them. No step is `destroy`, which
-- takes no mutex, nor a call that finds the lock destroyed.
pub data Act (l : ReadWriteLock) : Pc → ReadWriteLock → Pc → Type 0 where
  reads : (r : Returns) → Act l idle (read_lock r l).0 (after_read (read_lock r l).1)
  reads_timed :
      (r : Returns) → Act l idle (timed_read_lock r l).0 (after_timed_read (timed_read_lock r l).1)
  tries_read : (r : Returns) → Act l idle (try_read_lock r l).0 (after_read (try_read_lock r l).1)
  read_wakes : (b : Bool) → Act l waiting_read (read_wake b l).0 (after_read (read_wake b l).1)
  timed_read_wakes :
      (b : Bool) → Act l timed_read (read_wake b l).0 (after_timed_read (read_wake b l).1)
  read_cancelled : Act l waiting_read (cancel_read_lock_wait l) idle
  writes : (r : Returns) → Act l idle (write_lock r l).0 (after_write (write_lock r l).1)
  writes_timed :
      (r : Returns)
      → Act l idle (timed_write_wait r l).0 (after_timed_write (timed_write_wait r l).1)
  tries_write :
      (r : Returns) → Act l idle (try_write_lock r l).0 (after_write (try_write_lock r l).1)
  write_wakes : (b : Bool) → Act l waiting_write (write_wake b l).0 (after_write (write_wake b l).1)
  timed_write_wakes :
      (b : Bool) → Act l timed_write (write_wake b l).0 (after_timed_write (write_wake b l).1)
  write_cancelled : Act l waiting_write (cancel_write_lock_wait l) idle
  unlocks_read : (r : Returns) → r.mutex_lock ≡ true → Act l reading (unlock r l).0 idle
  unlocks_write : (r : Returns) → r.mutex_lock ≡ true → Act l writing (unlock r l).0 idle

pub record System : Type 0 where
  pub lock : ReadWriteLock
  pub threads : List Pc

pub data Step : System → System → Type 0 where
  act :
      (before after : List Pc) {p p' : Pc} {l l' : ReadWriteLock}
      → Act l p l' p'
      → Step
          (record { lock = l; threads = before ++ (p ∷ after) })
          (record { lock = l'; threads = before ++ (p' ∷ after) })

-- `n` threads that have not called the lock yet.
pub data Reach (n : ℕ) : System → Type 0 where
  start : Reach n (record { lock = fresh; threads = replicate n idle })
  later : {s t : System} → Reach n s → Step s t → Reach n t
