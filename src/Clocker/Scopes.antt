-- ===== src/Clocker/Scopes.antt =====
-- Threads that enter and leave scopes of c_utils/clocker.h, in any order.
use tiny_utils.Base.{ℕ, ◌≡◌, Bool, true, false, some, if◌then◌else◌, moved_at}
use tiny_utils.Clocker.{PthreadRwlock, read_lock, write_lock, unlock}

-- A thread is outside, or in a ReadWriteLockerRL, or in a ReadWriteLockerWL.
pub data Place : Type 0 where
  outside in_read in_write : Place

-- A constructor or a destructor in thread `me`, with the result of the constructor's lock call, which is not
-- looked at.
pub data Act (l : PthreadRwlock) (me : ℕ) (s : l.Rwlock)
    : Place → Bool → l.Rwlock → Place → Type 0 where
  enters_read :
      {locked : Bool} {s' : l.Rwlock}
      → read_lock l me s ≡ some (locked, s')
      → Act l me s outside locked s' in_read
  enters_write :
      {locked : Bool} {s' : l.Rwlock}
      → write_lock l me s ≡ some (locked, s')
      → Act l me s outside locked s' in_write
  leaves_read : Act l me s in_read true (unlock l me s).1 outside
  leaves_write : Act l me s in_write true (unlock l me s).1 outside

-- The lock, the threads, and whether every lock call so far has succeeded.
pub record System (l : PthreadRwlock) : Type 0 where
  pub shared : l.Rwlock
  pub threads : ℕ → Place
  pub all_locked : Bool

pub data Step (l : PthreadRwlock) (s : System l) : System l → Type 0 where
  act :
      (i : ℕ) {locked : Bool} {shared : l.Rwlock} {p : Place}
      → Act l i s.shared (s.threads i) locked shared p
      → Step l s (record {
        shared = shared;
        threads = moved_at s.threads i p;
        all_locked = if locked then s.all_locked else false;
      })

pub data Reach (l : PthreadRwlock) : System l → Type 0 where
  start : Reach l (record { shared = l.initialised; threads = λ i. outside; all_locked = true })
  later : {s t : System l} → Reach l s → Step l s t → Reach l t
