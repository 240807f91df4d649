-- ===== src/Singleton/Threads.antt =====
-- Any number of threads that call `Singleton::Instance`, an access at a time, in any order.
use tiny_utils.Base.{ℕ, ◌==◌, ◌≡◌, Bool, true, false, Option, List, [], ◌∷◌, ◌++◌, if◌then◌else◌}
use tiny_utils.Singleton.{Singleton, fresh, is_made, test_and_set, make, clear}

-- Where a thread stands: outside the call; before `test_and_set`; with the lock, before the second
-- test, before `new`, before `clear`; before the final `return`.
pub data Pc : Type 0 where
  idle spinning locked making leaving returning : Pc

-- What an access does beside: it makes an object, its constructor throws, or the call returns.
pub data Effect : Type 0 where
  quiet : Effect
  new : ℕ → Effect
  throws : Effect
  answer : Option ℕ → Effect

-- The next access of a thread. An idle thread may call, and call again.
pub data Act (s : Singleton) : Pc → Effect → Singleton → Pc → Type 0 where
  sees_made : is_made s ≡ true → Act s idle quiet s returning
  sees_null : is_made s ≡ false → Act s idle quiet s spinning
  spins : (test_and_set s).1 ≡ true → Act s spinning quiet (test_and_set s).0 spinning
  locks : (test_and_set s).1 ≡ false → Act s spinning quiet (test_and_set s).0 locked
  finds_made : is_made s ≡ true → Act s locked quiet s leaving
  finds_null : is_made s ≡ false → Act s locked quiet s making
  makes : (p : ℕ) → Act s making (new p) (make p s) leaving
  fails : Act s making throws s idle
  clears : Act s leaving quiet (clear s) returning
  returns : Act s returning (answer s.instance_) s idle

-- What the threads share, where each thread stands, which objects have been made, what the calls have
-- returned, and whether a constructor has thrown.
pub record System : Type 0 where
  pub shared : Singleton
  pub threads : ℕ → Pc
  pub made : List ℕ
  pub returned : List (Option ℕ)
  pub thrown : Bool

abbrev pub at_pc : (ℕ → Pc) → ℕ → Pc → ℕ → Pc
at_pc threads i p j = if i == j then p else threads j

abbrev pub news : Effect → List ℕ
news (new p) = p ∷ []
news _ = []

abbrev pub answers : Effect → List (Option ℕ)
answers (answer r) = r ∷ []
answers _ = []

abbrev pub fails_now : Effect → Bool → Bool
fails_now throws thrown = true
fails_now _ thrown = thrown

abbrev pub moved_to : System → ℕ → Effect → Singleton → Pc → System
moved_to s i e shared p = record {
  shared = shared;
  threads = at_pc s.threads i p;
  made = s.made ++ news e;
  returned = s.returned ++ answers e;
  thrown = fails_now e s.thrown;
}

pub data Step (s : System) : System → Type 0 where
  act :
      (i : ℕ) {e : Effect} {shared : Singleton} {p : Pc}
      → Act s.shared (s.threads i) e shared p
      → Step s (moved_to s i e shared p)

pub data Steps : System → System → Type 0 where
  none_left : {s : System} → Steps s s
  next : {s t u : System} → Step s t → Steps t u → Steps s u

abbrev pub begun : System
begun = record { shared = fresh; threads = λ i. idle; made = []; returned = []; thrown = false }

pub data Reach : System → Type 0 where
  start : Reach begun
  later : {s t : System} → Reach s → Step s t → Reach t
