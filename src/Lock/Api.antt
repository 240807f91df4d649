-- ===== src/Lock/Api.antt =====
-- cpp_utils/lock.cpp: what the classes ZSpinLock and ZMutexLock offer to their users, and what a lock is.
use tiny_utils.Base.{ℕ, ◌≡◌, ◌≢◌, Bool, true, false, Option, none, some}

-- The operations. The first argument is the thread that calls; `none` is a call that waits.
pub record ZLock : Type 1 where
  pub State : Type 0
  pub unlocked : State
  pub lock_call : ℕ → State → Option (Bool × State)
  pub try_lock_call : ℕ → State → Bool × State
  pub unlock_call : ℕ → State → Bool × State

-- At most one thread has the lock; `lock` waits for it, and `try_lock` does not.
pub record IsLock (z : ZLock) : Type 0 where
  pub owner : z.State → Option ℕ
  pub begins : owner z.unlocked ≡ none
  pub takes :
      (i : ℕ) (s : z.State)
      → owner s ≡ none
      → (s' : z.State) × (z.lock_call i s ≡ some (true, s')) × (owner s' ≡ some i)
  pub waits : (i j : ℕ) (s : z.State) → owner s ≡ some j → j ≢ i → z.lock_call i s ≡ none
  pub gives_back :
      (i : ℕ) (s : z.State)
      → owner s ≡ some i
      → ((z.unlock_call i s).0 ≡ true) × (owner (z.unlock_call i s).1 ≡ none)
  pub gets :
      (i : ℕ) (s : z.State)
      → owner s ≢ some i
      → (z.try_lock_call i s).0 ≡ true
      → (owner s ≡ none) × (owner (z.try_lock_call i s).1 ≡ some i)
  pub gives_up :
      (i : ℕ) (s : z.State)
      → (z.try_lock_call i s).0 ≡ false
      → owner (z.try_lock_call i s).1 ≡ owner s
