-- ===== src/ObjectPool/Program/Tests.antt =====
-- Runs of the program of cpp_utils/object_pool.cpp, and the theorem at a state of one.
use tiny_utils.Base.{ℕ, ◌*◌, ◌≤◌, ◌≡◌, ◌≢◌, ◌⊎◌, refl, some, [], ◌∷◌, arith}
use tiny_utils.ObjectPool.{init, take_one}
use tiny_utils.ObjectPool.Program.{
  crashed, takes_first, takes_second, prints_null_second, System, Step, act, Reach, start, later,
}
use tiny_utils.ObjectPool.Program.Returned.{AllBack, borrowers_return}

-- Of two threads one has taken both its objects, and the other its first.
abbrev three_taken : (s : System) × Reach 2 (5 ∷ 6 ∷ 7 ∷ 8 ∷ []) 20 3 s
unfolding init take_one
three_taken = (
  _,
  later
      (later (later start (act 0 (omega arith) (λ u k h. ground arith) takes_first))
        (act 1 (omega arith) (λ u k h. ground arith) takes_first))
      (act 0 (omega arith) (λ u k h. ground arith) (takes_second (some 5))),
)

borrowers_return_example :
    ((i : ℕ) → three_taken.0.threads i ≢ crashed)
    × (3 ≤ 7 * 2)
    × (AllBack 2 (5 ∷ 6 ∷ 7 ∷ 8 ∷ []) three_taken.0 ⊎ ((t : System) × Step 2 three_taken.0 t))
borrowers_return_example = borrowers_return (omega arith) (omega arith) three_taken.1

-- With one object a single thread prints through a null pointer.
too_few : (s : System) × Reach 1 (5 ∷ []) 20 3 s × (s.threads 0 ≡ crashed)
unfolding init take_one
too_few = (
  _,
  later
      (later (later start (act 0 (omega arith) (λ u k h. ground arith) takes_first))
        (act 0 (omega arith) (λ u k h. ground arith) (takes_second (some 5))))
      (act 0 (omega arith) (λ u k h. ground arith) (prints_null_second 5)),
  refl,
)
