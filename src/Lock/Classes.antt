-- ===== src/Lock/Classes.antt =====
-- cpp_utils/lock.cpp: ZMutexLock on `std::mutex`, and ZMutexLock and ZSpinLock on the locks of pthread.
use mathlib.Core.Option
use tiny_utils.Base.{ℕ, ◌≡◌, ◌≢◌, Bool, true, false, Option, none, some, ◌==◌}
use tiny_utils.Lock.Api.{ZLock}

-- `std::mutex`, as it is documented. `try_lock` may fail although the mutex is free.
pub record StdMutex : Type 1 where
  pub Mutex : Type 0
  pub constructed : Mutex
  pub holder : Mutex → Option ℕ
  pub lock_it : ℕ → Mutex → Option Mutex
  pub try_lock_it : ℕ → Mutex → Bool × Mutex
  pub unlock_it : ℕ → Mutex → Mutex
  pub constructed_free : holder constructed ≡ none
  pub locks_free :
      (i : ℕ) (m : Mutex)
      → holder m ≡ none
      → (m' : Mutex) × (lock_it i m ≡ some m') × (holder m' ≡ some i)
  pub blocks : (i j : ℕ) (m : Mutex) → holder m ≡ some j → j ≢ i → lock_it i m ≡ none
  pub unlocks : (i : ℕ) (m : Mutex) → holder m ≡ some i → holder (unlock_it i m) ≡ none
  pub tried :
      (i : ℕ) (m : Mutex)
      → holder m ≢ some i
      → (try_lock_it i m).0 ≡ true
      → (holder m ≡ none) × (holder (try_lock_it i m).1 ≡ some i)
  pub not_tried :
      (i : ℕ) (m : Mutex) → (try_lock_it i m).0 ≡ false → holder (try_lock_it i m).1 ≡ holder m

-- `pthread_mutex_t` and `pthread_spinlock_t`: the calls return 0, or the number of an error.
pub record PthreadLock : Type 1 where
  pub Block : Type 0
  pub initialised : Block
  pub holder : Block → Option ℕ
  pub lock_it : ℕ → Block → Option (ℕ × Block)
  pub try_lock_it : ℕ → Block → ℕ × Block
  pub unlock_it : ℕ → Block → ℕ × Block
  pub initialised_free : holder initialised ≡ none
  pub locks_free :
      (i : ℕ) (b : Block)
      → holder b ≡ none
      → (b' : Block) × (lock_it i b ≡ some (0, b')) × (holder b' ≡ some i)
  pub blocks : (i j : ℕ) (b : Block) → holder b ≡ some j → j ≢ i → lock_it i b ≡ none
  pub unlocks :
      (i : ℕ) (b : Block)
      → holder b ≡ some i
      → ((unlock_it i b).0 ≡ 0) × (holder (unlock_it i b).1 ≡ none)
  pub tried :
      (i : ℕ) (b : Block)
      → (try_lock_it i b).0 ≡ 0
      → (holder b ≡ none) × (holder (try_lock_it i b).1 ≡ some i)
  pub not_tried :
      (i : ℕ) (b : Block) → (try_lock_it i b).0 ≢ 0 → holder (try_lock_it i b).1 ≡ holder b

module _ (m : StdMutex) where
  unfoldable pub mutex_lock : ℕ → m.Mutex → Option (Bool × m.Mutex)
  mutex_lock i s = Option.map (λ s'. (true, s')) (m.lock_it i s)

  unfoldable pub mutex_try_lock : ℕ → m.Mutex → Bool × m.Mutex
  mutex_try_lock i s = m.try_lock_it i s

  unfoldable pub mutex_unlock : ℕ → m.Mutex → Bool × m.Mutex
  mutex_unlock i s = (true, m.unlock_it i s)

  -- The class ZMutexLock of C++11.
  abbrev pub z_mutex_lock : ZLock
  z_mutex_lock = record {
    State = m.Mutex;
    unlocked = m.constructed;
    lock_call = mutex_lock;
    try_lock_call = mutex_try_lock;
    unlock_call = mutex_unlock;
  }

module _ (p : PthreadLock) where
  unfoldable pub pthread_lock : ℕ → p.Block → Option (Bool × p.Block)
  pthread_lock i b = Option.map (λ r. (r.0 == 0, r.1)) (p.lock_it i b)

  unfoldable pub pthread_try_lock : ℕ → p.Block → Bool × p.Block
  pthread_try_lock i b = let (code, b') = p.try_lock_it i b in (code == 0, b')

  unfoldable pub pthread_unlock : ℕ → p.Block → Bool × p.Block
  pthread_unlock i b = let (code, b') = p.unlock_it i b in (code == 0, b')

  -- The classes ZMutexLock and ZSpinLock before C++11: the constructor has initialised the block.
  abbrev pub z_pthread_lock : ZLock
  z_pthread_lock = record {
    State = p.Block;
    unlocked = p.initialised;
    lock_call = pthread_lock;
    try_lock_call = pthread_try_lock;
    unlock_call = pthread_unlock;
  }
