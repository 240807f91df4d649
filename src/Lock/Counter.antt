-- ===== src/Lock/Counter.antt =====
-- cpp_utils/lock.cpp, the program: threads that share a lock and a counter, an access at a time.
pub mod Fits
pub mod Invariant
pub mod Counts
mod Tests
use tiny_utils.Base.{ℕ, zero, suc, ◌+◌, ◌≤◌, ◌<◌, ◌≡◌, Bool, some, moved_at}
use tiny_utils.Lock.Api.{ZLock}

-- Where a thread stands in round `i` of its loop: before the test, `lock`, the read of `count`, the
-- write, which adds 1 to what was read, and `unlock`; and behind the loop.
pub data Pc : Type 0 where
  testing entering reading : ℕ → Pc
  writing : ℕ → ℕ → Pc
  leaving : ℕ → Pc
  returned : Pc

-- The next access of thread `me` of `test_mutex` or `test_spin`, with `rounds` for the 1000000. The results
-- of `lock` and `unlock` are not looked at.
pub data Act (z : ZLock) (rounds me : ℕ) (s : z.State) (count : ℕ)
    : Pc → z.State → ℕ → Pc → Type 0 where
  goes_on : (i : ℕ) → i < rounds → Act z rounds me s count (testing i) s count (entering i)
  ends : (i : ℕ) → rounds ≤ i → Act z rounds me s count (testing i) s count returned
  locks :
      (i : ℕ) {r : Bool} {s' : z.State}
      → z.lock_call me s ≡ some (r, s')
      → Act z rounds me s count (entering i) s' count (reading i)
  reads : (i : ℕ) → Act z rounds me s count (reading i) s count (writing i count)
  writes : (i v : ℕ) → Act z rounds me s count (writing i v) s (v + 1) (leaving i)
  unlocks :
      (i : ℕ) → Act z rounds me s count (leaving i) (z.unlock_call me s).1 count (testing (suc i))

-- The lock, `count`, and where each thread stands.
pub record System (z : ZLock) : Type 0 where
  pub shared : z.State
  pub count : ℕ
  pub threads : ℕ → Pc

abbrev pub moved_to : {z : ZLock} → System z → ℕ → z.State → ℕ → Pc → System z
moved_to s i shared count p = record {
  shared = shared;
  count = count;
  threads = moved_at s.threads i p;
}

-- One of the `n` threads makes an access.
pub data Step (z : ZLock) (n rounds : ℕ) (s : System z) : System z → Type 0 where
  act :
      (i : ℕ) {shared : z.State} {count : ℕ} {p : Pc}
      → i < n
      → Act z rounds i s.shared s.count (s.threads i) shared count p
      → Step z n rounds s (moved_to s i shared count p)

abbrev pub begun : (z : ZLock) → System z
begun z = record { shared = z.unlocked; count = 0; threads = λ i. testing 0 }

-- The states after a number of accesses.
pub data Reach (z : ZLock) (n rounds : ℕ) : ℕ → System z → Type 0 where
  start : Reach z n rounds 0 (begun z)
  later :
      {j : ℕ} {s t : System z}
      → Reach z n rounds j s
      → Step z n rounds s t
      → Reach z n rounds (suc j) t
