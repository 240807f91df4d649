-- ===== src/TokenFrequencyCtrl/Tests.antt =====
-- Runs of cpp_utils/token_frequency_control.cpp, and the theorem at a concrete run.
use tiny_utils.Base.{ℕ, ◌+◌, ◌*◌, ◌≤◌, ◌≡◌, refl, [], ◌∷◌, length, arith}
use tiny_utils.Base.Int.{negsuc, to_int, pos, ◌+ℤ◌, ◌-ℤ◌, ◌*ℤ◌}
use tiny_utils.TokenFrequencyCtrl.{
  Timeval, TokenFrequencyCtrl, create, time_elapse, refilled, grant,
}
use tiny_utils.TokenFrequencyCtrl.Bounded.{passed, run, run_bounds}

-- Two tokens for a millisecond, three at most.
abbrev fresh_bucket : TokenFrequencyCtrl
fresh_bucket = create (pos 3) (pos 2) (record { tv_sec = 1; tv_usec = 0 })

abbrev second : ℕ → Timeval
second us = record { tv_sec = 1; tv_usec = us }

grants_two : (run (second 1000 ∷ second 1001 ∷ second 1002 ∷ []) fresh_bucket).0 ≡ 2
unfolding grant refilled time_elapse to_int ◌+ℤ◌ ◌-ℤ◌ ◌*ℤ◌
grants_two = refl

-- Calls every 900 microseconds never see a full millisecond.
starves : (run (second 900 ∷ second 1800 ∷ second 2700 ∷ []) fresh_bucket).0 ≡ 0
unfolding grant refilled time_elapse to_int ◌+ℤ◌ ◌-ℤ◌ ◌*ℤ◌
starves = refl

-- After 2^31 milliseconds without a call the bucket has fewer than no tokens.
forgets :
    (grant
      (record { tv_sec = 2147485; tv_usec = 0 })
      (create (pos 3) (pos 1) (second 0))).1.token_num
    ≡ negsuc 2147483295
unfolding grant refilled time_elapse to_int ◌+ℤ◌ ◌-ℤ◌ ◌*ℤ◌
forgets = refl

run_bounds_example :
    let (granted, s') = run (second 1000 ∷ second 1001 ∷ []) fresh_bucket in
    (k : ℕ) × (s'.token_num ≡ pos k)
    × (k ≤ 3)
    × (1000 * (granted + k)
        ≤ 1000 * 0
          + 2
            * (passed (second 0) (second 1000 ∷ second 1001 ∷ [])
                + 999 * length (second 1000 ∷ second 1001 ∷ [])))
run_bounds_example =
    run_bounds (second 1000 ∷ second 1001 ∷ []) fresh_bucket 0 2 3 refl refl refl (omega arith)
      (omega arith) (omega arith) (omega arith) (omega arith)
