-- ===== src/ObjectPool/Program.antt =====
-- cpp_utils/object_pool.cpp, the program: threads that take two objects each, print them, and give them
-- back. A call of the pool is under the mutex and is one step. A deleter takes no mutex: its push has a
-- beginning and an end, and what another access to the queue in between would do is undefined.
pub mod Balanced
pub mod Returned
mod Tests
use tiny_utils.Base.{
  ℕ, suc, ◌<◌, ◌≡◌, ◌≢◌, Bool, true, false, Option, none, some, List, [], ◌∷◌, length, moved_at,
}
use tiny_utils.ObjectPool.{ObjectPool, create, init, take_one, give_back}

-- Where a thread stands in `func`: before the first `take_one`; before the second, and before the
-- printing, with the pointers; before and in the deleter of `pt2`, and before and in that of `pt1`; behind the
-- end, and where a null pointer was used.
pub data Pc : Type 0 where
  entered : Pc
  has_one : Option ℕ → Pc
  has_two : Option ℕ → Option ℕ → Pc
  printed : ℕ → ℕ → Pc
  pushing_second : ℕ → ℕ → Pc
  gave_second : ℕ → Pc
  pushing_first : ℕ → Pc
  returned : Pc
  crashed : Pc

pub data Act (p : ObjectPool) : Pc → ObjectPool → Pc → Type 0 where
  takes_first : Act p entered (take_one p).1 (has_one (take_one p).0)
  takes_second : (a : Option ℕ) → Act p (has_one a) (take_one p).1 (has_two a (take_one p).0)
  prints : (a b : ℕ) → Act p (has_two (some a) (some b)) p (printed a b)
  prints_null : (b : Option ℕ) → Act p (has_two none b) p crashed
  prints_null_second : (a : ℕ) → Act p (has_two (some a) none) p crashed
  starts_second : (a b : ℕ) → Act p (printed a b) p (pushing_second a b)
  gives_second : (a b : ℕ) → Act p (pushing_second a b) (give_back b p) (gave_second a)
  starts_first : (a : ℕ) → Act p (gave_second a) p (pushing_first a)
  gives_first : (a : ℕ) → Act p (pushing_first a) (give_back a p) returned

-- Inside a push, and before a step that takes from the queue or begins a push.
abbrev pub pushing : Pc → Bool
pushing (pushing_second a b) = true
pushing (pushing_first a) = true
pushing _ = false

abbrev pub uses_queue : Pc → Bool
uses_queue entered = true
uses_queue (has_one a) = true
uses_queue (printed a b) = true
uses_queue (gave_second a) = true
uses_queue _ = false

pub record System : Type 0 where
  pub pool : ObjectPool
  pub threads : ℕ → Pc

-- One of the `n` threads makes a step. No thread uses the queue while another one is inside a push: the
-- schedules without a data race, which are not all that the program has.
pub data Step (n : ℕ) (s : System) : System → Type 0 where
  act :
      (i : ℕ) {pool : ObjectPool} {p : Pc}
      → i < n
      → (uses_queue (s.threads i) ≡ true → (k : ℕ) → k < n → pushing (s.threads k) ≡ false)
      → Act s.pool (s.threads i) pool p
      → Step n s (record { pool = pool; threads = moved_at s.threads i p })

-- `main` fills the pool before it starts the threads.
abbrev pub begun : List ℕ → ℕ → System
begun objects max_pool_size = record {
  pool = (init objects max_pool_size create).1;
  threads = λ i. entered;
}

-- The states after a number of steps.
pub data Reach (n : ℕ) (objects : List ℕ) (max_pool_size : ℕ) : ℕ → System → Type 0 where
  start : Reach n objects max_pool_size 0 (begun objects max_pool_size)
  later :
      {j : ℕ} {s t : System}
      → Reach n objects max_pool_size j s
      → Step n s t
      → Reach n objects max_pool_size (suc j) t
