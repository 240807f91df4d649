-- ===== src/RwLock/Grants.antt =====
-- When a call of cpp_utils/rwlock.cpp gets the lock, and when `destroy` succeeds.
use tiny_utils.Base.{ℕ, ◌+◌, ◌^◌, ◌≡◌, ◌<◌, ◌↔◌, true, false, arith}
use tiny_utils.RwLock.{ok, Returns, destroy, read_lock, read_loop, write_lock, write_loop}
use tiny_utils.RwLock.Threads.{
  reading, writing, waiting_read, waiting_write, after_read, after_write, System, Reach,
}
use tiny_utils.RwLock.Exclusion.{count, waiting_readers, waiting_writers, mutual_exclusion}

read_lock_grants :
    {n : ℕ} {s : System} (e : Returns)
    → n < 2 ^ 31
    → Reach n s
    → s.lock.valid ≡ true
    → e.mutex_lock ≡ true
    → let p = after_read (read_lock e s.lock).1 in
      ((p ≡ reading) ↔ (count writing s.threads ≡ 0))
      × ((p ≡ waiting_read) ↔ (count writing s.threads ≡ 1))
unfolding read_lock read_loop
read_lock_grants {n} {s} e small r v m = let h = (mutual_exclusion small r).0 in ground arith

write_lock_grants :
    {n : ℕ} {s : System} (e : Returns)
    → n < 2 ^ 31
    → Reach n s
    → s.lock.valid ≡ true
    → e.mutex_lock ≡ true
    → let p = after_write (write_lock e s.lock).1 in
      ((p ≡ writing) ↔ (count reading s.threads + count writing s.threads ≡ 0))
      × ((p ≡ waiting_write) ↔ (0 < count reading s.threads + count writing s.threads))
unfolding write_lock write_loop
write_lock_grants {n} {s} e small r v m = let h = (mutual_exclusion small r).0 in ground arith

-- With fewer than 2^31 threads, in every reachable state, a thread
-- that takes the mutex gets the lock in `read_lock` exactly when nobody writes, and in `write_lock` exactly
-- when nobody reads or writes; otherwise it waits.
locks_grant :
    {n : ℕ} {s : System} (e : Returns)
    → n < 2 ^ 31
    → Reach n s
    → s.lock.valid ≡ true
    → e.mutex_lock ≡ true
    → let r = after_read (read_lock e s.lock).1 in
      let w = after_write (write_lock e s.lock).1 in
      ((r ≡ reading) ↔ (count writing s.threads ≡ 0))
      × ((r ≡ waiting_read) ↔ (count writing s.threads ≡ 1))
      × ((w ≡ writing) ↔ (count reading s.threads + count writing s.threads ≡ 0))
      × ((w ≡ waiting_write) ↔ (0 < count reading s.threads + count writing s.threads))
locks_grant {n} {s} e small r v m =
    let (gets, waits) = read_lock_grants {s = s} e small r v m in
    let (gets_write, waits_write) = write_lock_grants {s = s} e small r v m in
    (gets, waits, gets_write, waits_write)

-- With fewer than 2^31 threads, in every reachable state `destroy` marks the lock as destroyed and
-- returns OK exactly when the lock is not destroyed yet and no thread reads, writes or waits.
destroy_lem :
    {n : ℕ} {s : System}
    → n < 2 ^ 31
    → Reach n s
    → (destroy s.lock ≡ (record s.lock { valid = false }, ok)) ↔ (
        (s.lock.valid ≡ true)
        × (count reading s.threads ≡ 0)
        × (count writing s.threads ≡ 0)
        × (waiting_readers s ≡ 0)
        × (waiting_writers s ≡ 0))
unfolding destroy
destroy_lem {n} {s} small r = let h = mutual_exclusion small r in ground arith
