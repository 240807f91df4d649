-- ===== src/Clocker.antt =====
-- c_utils/clocker.h: the class CReadWriteLocker on a read-write lock of pthread, and the scopes
-- ReadWriteLockerRL and ReadWriteLockerWL, which lock in the constructor and unlock in the destructor.
pub mod Scopes
pub mod Exclusion
mod Tests
use mathlib.Core.Option
use tiny_utils.Base.{
  ℕ, ◌≡◌, ◌≢◌, ◌⊎◌, Bool, true, false, not, ◌||◌, Option, none, some, ◌==◌, if◌then◌else◌, moved_at,
}

-- `pthread_rwlock_t`, as it is documented: the calls return 0 or the number of an error, or wait (`none`).
-- `writer` and `reads` say which threads have it.
pub record PthreadRwlock : Type 1 where
  pub Rwlock : Type 0
  pub initialised : Rwlock
  pub writer : Rwlock → Option ℕ
  pub reads : Rwlock → ℕ → Bool
  pub rdlock : ℕ → Rwlock → Option (ℕ × Rwlock)
  pub wrlock : ℕ → Rwlock → Option (ℕ × Rwlock)
  pub tryrdlock : ℕ → Rwlock → ℕ × Rwlock
  pub trywrlock : ℕ → Rwlock → ℕ × Rwlock
  pub unlock_it : ℕ → Rwlock → ℕ × Rwlock
  pub nobody : (writer initialised ≡ none) × ((i : ℕ) → reads initialised i ≡ false)
  pub rdlock_gets :
      (i : ℕ) (s s' : Rwlock)
      → rdlock i s ≡ some (0, s')
      → (writer s ≡ none)
        × (writer s' ≡ none)
        × ((k : ℕ) → reads s' k ≡ (if i == k then true else reads s k))
  pub wrlock_gets :
      (i : ℕ) (s s' : Rwlock)
      → wrlock i s ≡ some (0, s')
      → (writer s ≡ none)
        × ((k : ℕ) → reads s k ≡ false)
        × (writer s' ≡ some i)
        × ((k : ℕ) → reads s' k ≡ false)
  pub tryrdlock_gets :
      (i : ℕ) (s s' : Rwlock)
      → tryrdlock i s ≡ (0, s')
      → (writer s ≡ none)
        × (writer s' ≡ none)
        × ((k : ℕ) → reads s' k ≡ (if i == k then true else reads s k))
  pub trywrlock_gets :
      (i : ℕ) (s s' : Rwlock)
      → trywrlock i s ≡ (0, s')
      → (writer s ≡ none)
        × ((k : ℕ) → reads s k ≡ false)
        × (writer s' ≡ some i)
        × ((k : ℕ) → reads s' k ≡ false)
  pub tries :
      (i code : ℕ) (s s' : Rwlock)
      → code ≢ 0
      → (tryrdlock i s ≡ (code, s')) ⊎ (trywrlock i s ≡ (code, s'))
      → (writer s' ≡ writer s) × ((k : ℕ) → reads s' k ≡ reads s k)
  pub unlock_read :
      (i : ℕ) (s : Rwlock)
      → reads s i ≡ true
      → (writer (unlock_it i s).1 ≡ writer s)
        × ((k : ℕ) → reads (unlock_it i s).1 k ≡ (if i == k then false else reads s k))
  pub unlock_write :
      (i : ℕ) (s : Rwlock)
      → writer s ≡ some i
      → (writer (unlock_it i s).1 ≡ none) × ((k : ℕ) → reads (unlock_it i s).1 k ≡ reads s k)

module _ (l : PthreadRwlock) where
  unfoldable pub read_lock : ℕ → l.Rwlock → Option (Bool × l.Rwlock)
  read_lock i s = Option.map (λ r. (0 == r.0, r.1)) (l.rdlock i s)

  unfoldable pub write_lock : ℕ → l.Rwlock → Option (Bool × l.Rwlock)
  write_lock i s = Option.map (λ r. (0 == r.0, r.1)) (l.wrlock i s)

  unfoldable pub try_read_lock : ℕ → l.Rwlock → Bool × l.Rwlock
  try_read_lock i s = let (code, s') = l.tryrdlock i s in (0 == code, s')

  unfoldable pub try_write_lock : ℕ → l.Rwlock → Bool × l.Rwlock
  try_write_lock i s = let (code, s') = l.trywrlock i s in (0 == code, s')

  unfoldable pub unlock : ℕ → l.Rwlock → Bool × l.Rwlock
  unlock i s = let (code, s') = l.unlock_it i s in (0 == code, s')
