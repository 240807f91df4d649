-- ===== src/RwLock/Wakes.antt =====
-- Who is woken: threads that call the lock, counted by where they stand.
pub mod Served
use tiny_utils.Base.{
  ℕ, zero, suc, ◌+◌, ◌-◌, ◌^◌, ◌≡◌, ◌≤◌, ◌<◌, ◌⊎◌, inl, inr, refl, Bool, true, false, arith, ltb,
  if◌then◌else◌,
}
use tiny_utils.Base.Int.{ℤ, pos, negsuc, ◌+ℤ◌, ◌-ℤ◌}
use tiny_utils.RwLock.{
  ok, ReadWriteLock, Returns, Reply, returns, waits, Wake, nobody, one_writer, all_readers, fresh,
  read_lock, read_loop, read_wake, try_read_lock, write_lock, write_loop, write_wake,
  try_write_lock, unlock, release, wake_up, is_zero,
}
use tiny_utils.RwLock.Exclusion.{Holders, Counts}

-- The threads that hold the lock, that wait on a condition, and that a signal, a broadcast or nothing at
-- all has woken and that have not run since.
pub record Places : Type 0 where
  pub lock : ReadWriteLock
  pub readers : ℕ
  pub writers : ℕ
  pub asleep_read : ℕ
  pub woken_read : ℕ
  pub asleep_write : ℕ
  pub woken_write : ℕ

abbrev pub total : Places → ℕ
total s = s.readers + s.writers + (s.asleep_read + s.woken_read) + (s.asleep_write + s.woken_write)

-- Where a thread goes on a reply to `read_lock` and to `write_lock`.
abbrev pub after_read : ReadWriteLock × Reply → Places → Places
after_read (l, returns ok) s = record s { lock = l; readers = s.readers + 1 }
after_read (l, returns _) s = record s { lock = l }
after_read (l, waits) s = record s { lock = l; asleep_read = s.asleep_read + 1 }

abbrev pub after_write : ReadWriteLock × Reply → Places → Places
after_write (l, returns ok) s = record s { lock = l; writers = s.writers + 1 }
after_write (l, returns _) s = record s { lock = l }
after_write (l, waits) s = record s { lock = l; asleep_write = s.asleep_write + 1 }

-- `pthread_cond_signal` wakes one thread that waits, if there is one, and `pthread_cond_broadcast` all.
abbrev pub woken : Wake → Places → Places
woken nobody s = s
woken one_writer s =
    if ltb 0 s.asleep_write
    then record s { asleep_write = s.asleep_write - 1; woken_write = s.woken_write + 1 }
    else s
woken all_readers s = record s { asleep_read = 0; woken_read = s.woken_read + s.asleep_read }

-- All pthread calls that `unlock` makes return 0.
abbrev pub AllSucceed : Returns → Type 0
AllSucceed r = (r.mutex_lock ≡ true) × (r.cond_signal ≡ true) × (r.cond_broadcast ≡ true)

-- What `n` threads may do that use no timed call, are not cancelled and do not destroy the lock, where the
-- pthread calls of `unlock` and the waits succeed. A thread may wake up for no reason.
pub data Move (n : ℕ) (s : Places) : Places → Type 0 where
  reads : (r : Returns) → total s < n → Move n s (after_read (read_lock r s.lock) s)
  tries_read : (r : Returns) → total s < n → Move n s (after_read (try_read_lock r s.lock) s)
  writes : (r : Returns) → total s < n → Move n s (after_write (write_lock r s.lock) s)
  tries_write : (r : Returns) → total s < n → Move n s (after_write (try_write_lock r s.lock) s)
  read_wakes :
      (k : ℕ)
      → s.woken_read ≡ suc k
      → Move n s (after_read (read_wake true s.lock) (record s { woken_read = k }))
  write_wakes :
      (k : ℕ)
      → s.woken_write ≡ suc k
      → Move n s (after_write (write_wake true s.lock) (record s { woken_write = k }))
  stirs_read :
      (k : ℕ)
      → s.asleep_read ≡ suc k
      → Move n s (record s { asleep_read = k; woken_read = s.woken_read + 1 })
  stirs_write :
      (k : ℕ)
      → s.asleep_write ≡ suc k
      → Move n s (record s { asleep_write = k; woken_write = s.woken_write + 1 })
  unlocks_read :
      (r : Returns) (k : ℕ)
      → AllSucceed r
      → s.readers ≡ suc k
      → Move n s (woken (unlock r s.lock).1 (record s { lock = (unlock r s.lock).0; readers = k }))
  unlocks_write :
      (r : Returns) (k : ℕ)
      → AllSucceed r
      → s.writers ≡ suc k
      → Move n s (woken (unlock r s.lock).1 (record s { lock = (unlock r s.lock).0; writers = k }))

abbrev pub nobody_yet : Places
nobody_yet = record {
  lock = fresh;
  readers = 0;
  writers = 0;
  asleep_read = 0;
  woken_read = 0;
  asleep_write = 0;
  woken_write = 0;
}

pub data Run (n : ℕ) : Places → Type 0 where
  start : Run n nobody_yet
  later : {s t : Places} → Run n s → Move n s t → Run n t

-- The lock counts who stands where, and where somebody sleeps, somebody holds the lock or is awake.
pub record Inv (n : ℕ) (s : Places) : Type 0 where
  pub counts :
      Counts s.lock s.readers s.writers
        (s.asleep_read + s.woken_read)
        (s.asleep_write + s.woken_write)
  pub few : total s ≤ n
  pub cared :
      0 < s.asleep_read + s.asleep_write
      → 0 < s.readers + s.writers + (s.woken_read + s.woken_write)

Move-Inv : (n : ℕ) {s t : Places} → n < 2 ^ 31 → Inv n s → Move n s t → Inv n t
unfolding read_lock read_loop read_wake try_read_lock write_lock write_loop write_wake
    try_write_lock unlock release wake_up ◌+ℤ◌ ◌-ℤ◌
Move-Inv n small i (reads r room) = ground (arith, i.counts)
Move-Inv n small i (tries_read r room) = ground (arith, i.counts)
Move-Inv n small i (writes r room) = ground (arith, i.counts)
Move-Inv n small i (tries_write r room) = ground (arith, i.counts)
Move-Inv n small i (read_wakes k e) = ground (arith, i.counts)
Move-Inv n small i (write_wakes k e) = ground (arith, i.counts)
Move-Inv n small i (stirs_read k e) = ground (arith, i.counts)
Move-Inv n small i (stirs_write k e) = ground (arith, i.counts)
Move-Inv n small i (unlocks_read r k m e) = ground (arith, i.counts)
Move-Inv n small i (unlocks_write r k m e) = ground (arith, i.counts)

nobody_yet-Inv : (n : ℕ) → Inv n nobody_yet
unfolding fresh
nobody_yet-Inv n = ground arith

pub Run-Inv : {n : ℕ} {s : Places} → n < 2 ^ 31 → Run n s → Inv n s
Run-Inv {n} small start = nobody_yet-Inv n
Run-Inv {n} small (later r m) = Move-Inv n small (Run-Inv small r) m

-- Fewer than 2^31 threads use no timed call, are not cancelled and do not destroy the lock, and the pthread
-- calls of `unlock` and the waits succeed. Then no wake-up is lost: in every state
-- that they reach where a thread sleeps on a condition, some thread holds the lock, or has been woken and is
-- still to run.
pub no_lost_wake_up :
    {n : ℕ} {s : Places}
    → n < 2 ^ 31
    → Run n s
    → 0 < s.asleep_read + s.asleep_write
    → 0 < s.readers + s.writers + (s.woken_read + s.woken_write)
no_lost_wake_up small r some_asleep = (Run-Inv small r).cared some_asleep
