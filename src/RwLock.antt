-- ===== src/RwLock.antt =====
-- cpp_utils/rwlock.cpp, class ReadWriteLock: a reader-writer lock over a mutex and two conditions.
-- Each function is what one thread does between taking the mutex and giving it up, by `unlock` or
-- by waiting; what the pthread calls return is an argument.
pub mod Unlock
pub mod Threads
pub mod Exclusion
pub mod Grants
pub mod Wakes
mod Tests
use tiny_utils.Base.{
  ℕ, ◌≡◌, ◌↔◌, arith, ◌+◌, ◌-◌, ◌%◌, ◌^◌, Bool, true, false, not, ◌&&◌, ◌||◌, List, [], ◌∷◌, ltb,
  ◌==◌, if◌then◌else◌,
}
use tiny_utils.Base.Int.{ℤ, pos, negsuc, ◌+ℤ◌, ◌-ℤ◌, ltb_ℤ}

-- RWLock_ErrCode
pub data ErrCode : Type 0 where
  ok lock_invalid lock_using lock_timeout lock_bad_stat lock_busy : ErrCode

-- `ref_count` is below 0 while one writes, and counts who read otherwise.
pub record ReadWriteLock : Type 0 where
  pub ref_count : ℤ
  pub reader_waiting_num : ℕ
  pub writer_waiting_num : ℕ
  pub valid : Bool

-- Which of the pthread calls return 0.
pub record Returns : Type 0 where
  pub mutex_lock : Bool
  pub cond_signal : Bool
  pub cond_broadcast : Bool

-- A call returns, or it waits on the condition of the readers or of the writers.
pub data Reply : Type 0 where
  returns : ErrCode → Reply
  waits : Reply

-- What `unlock` does to the conditions.
pub data Wake : Type 0 where
  nobody one_writer all_readers : Wake

abbrev pub u32 : ℕ → ℕ
u32 n = n % 2 ^ 32

abbrev pub is_zero : ℤ → Bool
is_zero (pos n) = n == 0
is_zero (negsuc n) = false

-- The constructor.
pub fresh : ReadWriteLock
fresh = record { ref_count = pos 0; reader_waiting_num = 0; writer_waiting_num = 0; valid = true }

-- Which of the mutex and the two conditions have been initialised.
pub record Objects : Type 0 where
  pub mutex : Bool
  pub reader_cond : Bool
  pub writer_cond : Bool

-- `init`, where the arguments say which of the three calls return 0. A condition or a mutex whose
-- initialisation failed is destroyed, the ones before it stay.
init : Bool → Bool → Bool → Objects × ℤ
init mutex_init reader_init writer_init =
    if not mutex_init
    then (record { mutex = false; reader_cond = false; writer_cond = false }, negsuc 0)
    else if not reader_init
    then (record { mutex = true; reader_cond = false; writer_cond = false }, negsuc 0)
    else if not writer_init
    then (record { mutex = true; reader_cond = true; writer_cond = false }, negsuc 0)
    else (record { mutex = true; reader_cond = true; writer_cond = true }, pos 0)

pub destroy : ReadWriteLock → ReadWriteLock × ErrCode
destroy l =
    if not l.valid
    then (l, lock_invalid)
    else if not (is_zero l.ref_count)
        || not (l.reader_waiting_num == 0)
        || not (l.writer_waiting_num == 0)
    then (l, lock_using)
    else (record l { valid = false }, ok)

-- The test of the `while` of `read_lock` and `timed_read_lock`, and what follows on both sides.
pub read_loop : ReadWriteLock → ReadWriteLock × Reply
read_loop l =
    if ltb_ℤ l.ref_count (pos 0)
    then (record l { reader_waiting_num = u32 (l.reader_waiting_num + 1) }, waits)
    else (record l { ref_count = l.ref_count +ℤ pos 1 }, returns ok)

-- `read_lock` up to the first wait.
pub read_lock : Returns → ReadWriteLock → ReadWriteLock × Reply
read_lock r l =
    if not l.valid
    then (l, returns lock_invalid)
    else if not r.mutex_lock
    then (l, returns lock_busy)
    else read_loop l

-- `timed_read_lock` up to the first wait; it waits without a clean-up handler.
pub timed_read_lock : Returns → ReadWriteLock → ReadWriteLock × Reply
timed_read_lock r l =
    if not l.valid
    then (l, returns lock_invalid)
    else if not r.mutex_lock
    then (l, returns lock_busy)
    else read_loop l

-- From the end of a wait on: its result is OK or not.
pub read_wake : Bool → ReadWriteLock → ReadWriteLock × Reply
read_wake ret l =
    let l' = record l { reader_waiting_num = u32 (l.reader_waiting_num + 2 ^ 32 - 1) } in
    if ret then read_loop l' else (l', returns lock_busy)

pub try_read_lock : Returns → ReadWriteLock → ReadWriteLock × Reply
try_read_lock r l =
    if not l.valid
    then (l, returns lock_invalid)
    else if not r.mutex_lock
    then (l, returns lock_busy)
    else if ltb_ℤ l.ref_count (pos 0)
    then (l, returns lock_busy)
    else (record l { ref_count = l.ref_count +ℤ pos 1 }, returns ok)

-- The test of the `while` of `write_lock` and `timed_write_wait`, and what follows on both sides.
pub write_loop : ReadWriteLock → ReadWriteLock × Reply
write_loop l =
    if not (is_zero l.ref_count)
    then (record l { writer_waiting_num = u32 (l.writer_waiting_num + 1) }, waits)
    else (record l { ref_count = l.ref_count -ℤ pos 1 }, returns ok)

-- `write_lock` up to the first wait.
pub write_lock : Returns → ReadWriteLock → ReadWriteLock × Reply
write_lock r l =
    if not l.valid
    then (l, returns lock_invalid)
    else if not r.mutex_lock
    then (l, returns lock_busy)
    else write_loop l

-- `timed_write_wait` up to the first wait; it waits without a clean-up handler.
pub timed_write_wait : Returns → ReadWriteLock → ReadWriteLock × Reply
timed_write_wait r l =
    if not l.valid
    then (l, returns lock_invalid)
    else if not r.mutex_lock
    then (l, returns lock_busy)
    else write_loop l

-- From the end of a wait of a writer on.
pub write_wake : Bool → ReadWriteLock → ReadWriteLock × Reply
write_wake ret l =
    let l' = record l { writer_waiting_num = u32 (l.writer_waiting_num + 2 ^ 32 - 1) } in
    if ret then write_loop l' else (l', returns lock_busy)

pub try_write_lock : Returns → ReadWriteLock → ReadWriteLock × Reply
try_write_lock r l =
    if not l.valid
    then (l, returns lock_invalid)
    else if not r.mutex_lock
    then (l, returns lock_busy)
    else if not (is_zero l.ref_count)
    then (l, returns lock_busy)
    else (record l { ref_count = negsuc 0 }, returns ok)

-- The count that `unlock` leaves, and its result so far.
pub release : ℤ → ErrCode → ℤ × ErrCode
release ref_count ret =
    if ltb_ℤ (pos 0) ref_count
    then (ref_count -ℤ pos 1, ret)
    else if ltb_ℤ ref_count (pos 0)
    then (pos 0, ret)
    else (ref_count, lock_bad_stat)

-- The waking up that ends `unlock`.
pub wake_up : Returns → ReadWriteLock → ErrCode → Wake × ErrCode
wake_up r l ret =
    if ltb 0 l.writer_waiting_num && is_zero l.ref_count
    then (one_writer, if r.cond_signal then ret else lock_invalid)
    else if ltb 0 l.reader_waiting_num
    then (all_readers, if r.cond_broadcast then ret else lock_invalid)
    else (nobody, lock_bad_stat)

-- A mutex that cannot be taken is noted in the result, and the function goes on.
pub unlock : Returns → ReadWriteLock → ReadWriteLock × Wake × ErrCode
unlock r l =
    if not l.valid
    then (l, nobody, lock_invalid)
    else (let (ref_count, ret) = release l.ref_count (if r.mutex_lock then ok else lock_busy) in
        let l' = record l { ref_count = ref_count } in
        let (wake, ret') = wake_up r l' ret in (l', wake, ret'))

pub cancel_read_lock_wait : ReadWriteLock → ReadWriteLock
cancel_read_lock_wait l = record l { reader_waiting_num = u32 (l.reader_waiting_num + 2 ^ 32 - 1) }

pub cancel_write_lock_wait : ReadWriteLock → ReadWriteLock
cancel_write_lock_wait l = record l { writer_waiting_num = u32 (l.writer_waiting_num + 2 ^ 32 - 1) }

-- `init` returns 0 exactly when all three objects are initialised.
init_lem :
    (m r w : Bool)
    → let (objects, code) = init m r w in
      (code ≡ pos 0)
      ↔ ((objects.mutex ≡ true) × (objects.reader_cond ≡ true) × (objects.writer_cond ≡ true))
unfolding init
init_lem m r w = ground arith
