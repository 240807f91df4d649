-- ===== src/Lock/Samples.antt =====
-- Concrete locks that behave as cpp_utils/lock.cpp expects of `std::mutex` and of pthread.
use tiny_utils.Base.{ℕ, ◌≡◌, ◌≢◌, refl, Bool, true, false, Option, none, some, arith}
use tiny_utils.Lock.Classes.{StdMutex, PthreadLock}

-- A mutex that is the number of its owner.
unfoldable pub lock_number : ℕ → Option ℕ → Option (Option ℕ)
lock_number i none = some (some i)
lock_number i (some j) = none

pub try_number : ℕ → Option ℕ → Bool × Option ℕ
try_number i none = (true, some i)
try_number i (some j) = (false, some j)

pub number_takes :
    (i : ℕ) (m : Option ℕ)
    → m ≡ none
    → (m' : Option ℕ) × (lock_number i m ≡ some m') × (m' ≡ some i)
unfolding lock_number
number_takes i none e = (some i, refl, refl)
number_takes i (some j) e = cc

pub number_blocks : (i j : ℕ) (m : Option ℕ) → m ≡ some j → j ≢ i → lock_number i m ≡ none
unfolding lock_number
number_blocks i j none e ne = cc
number_blocks i j (some k) e ne = refl

pub number_tried :
    (i : ℕ) (m : Option ℕ) → (try_number i m).0 ≡ true → (m ≡ none) × ((try_number i m).1 ≡ some i)
unfolding try_number
number_tried i none e = (refl, refl)
number_tried i (some j) e = cc

pub number_not_tried : (i : ℕ) (m : Option ℕ) → (try_number i m).0 ≡ false → (try_number i m).1 ≡ m
unfolding try_number
number_not_tried i none e = cc
number_not_tried i (some j) e = refl

unfoldable pub by_number : StdMutex
by_number = record {
  Mutex = Option ℕ;
  constructed = none;
  holder = λ m. m;
  lock_it = lock_number;
  try_lock_it = try_number;
  unlock_it = λ i m. none;
  constructed_free = refl;
  locks_free = number_takes;
  blocks = number_blocks;
  unlocks = λ i m e. refl;
  tried = λ i m ne. number_tried i m;
  not_tried = number_not_tried;
}

-- The same with the numbers of errors that pthread gives: 16 is EBUSY.
unfoldable pub lock_coded : ℕ → Option ℕ → Option (ℕ × Option ℕ)
lock_coded i none = some (0, some i)
lock_coded i (some j) = none

pub try_coded : ℕ → Option ℕ → ℕ × Option ℕ
try_coded i none = (0, some i)
try_coded i (some j) = (16, some j)

pub coded_takes :
    (i : ℕ) (m : Option ℕ)
    → m ≡ none
    → (m' : Option ℕ) × (lock_coded i m ≡ some (0, m')) × (m' ≡ some i)
unfolding lock_coded
coded_takes i none e = (some i, refl, refl)
coded_takes i (some j) e = cc

pub coded_blocks : (i j : ℕ) (m : Option ℕ) → m ≡ some j → j ≢ i → lock_coded i m ≡ none
unfolding lock_coded
coded_blocks i j none e ne = cc
coded_blocks i j (some k) e ne = refl

pub coded_tried :
    (i : ℕ) (m : Option ℕ) → (try_coded i m).0 ≡ 0 → (m ≡ none) × ((try_coded i m).1 ≡ some i)
unfolding try_coded
coded_tried i none e = (refl, refl)
coded_tried i (some j) e = absurd (omega arith)

pub coded_not_tried : (i : ℕ) (m : Option ℕ) → (try_coded i m).0 ≢ 0 → (try_coded i m).1 ≡ m
unfolding try_coded
coded_not_tried i none e = absurd (e refl)
coded_not_tried i (some j) e = refl

unfoldable pub by_code : PthreadLock
by_code = record {
  Block = Option ℕ;
  initialised = none;
  holder = λ m. m;
  lock_it = lock_coded;
  try_lock_it = try_coded;
  unlock_it = λ i m. (0, none);
  initialised_free = refl;
  locks_free = coded_takes;
  blocks = coded_blocks;
  unlocks = λ i m e. (refl, refl);
  tried = coded_tried;
  not_tried = coded_not_tried;
}
