-- ===== src/TokenFrequencyCtrl/Bounded.antt =====
-- How many calls of `Grant` succeed in a run.
use tiny_utils.Base.{
  ℕ, suc, ◌+◌, ◌-◌, ◌*◌, ◌≤◌, ◌<◌, ◌^◌, ◌≡◌, inl, inr, min, refl, ap, ◌∙◌, subst, List, [], ◌∷◌,
  length, if◌then◌else◌, arith, Bool-cases,
}
use native.Mathlib.Nat.{mul-add, mul-le-mul_left}
use tiny_utils.Base.Int.{to_int-pos, pos, ltb_ℤ}
use tiny_utils.TokenFrequencyCtrl.{Timeval, TokenFrequencyCtrl, time_elapse, refilled, grant}
use tiny_utils.TokenFrequencyCtrl.Elapsed.{
  micros, Follows, pos_sub, pos_mul, pos_add, time_elapse_lem,
}

-- The number of calls at the given times that succeed, and the state after them.
abbrev pub run : List Timeval → TokenFrequencyCtrl → ℕ × TokenFrequencyCtrl
run [] s = (0, s)
run (t ∷ rest) s =
    let (granted, s') = grant t s in
    let (n, s'') = run rest s' in ((if granted then 1 else 0) + n, s'')

-- Each reading follows the one before it.
abbrev pub AllFollow : Timeval → List Timeval → Type 0
AllFollow last [] = Unit
AllFollow last (t ∷ rest) = Follows t last × AllFollow t rest

-- The time of the last call, or `last` if there is none.
abbrev pub end_of : Timeval → List Timeval → Timeval
end_of last [] = last
end_of last (t ∷ rest) = end_of t rest

-- The microseconds up to the last call.
abbrev pub passed : Timeval → List Timeval → ℕ
passed last ts = micros (end_of last ts) - micros last

refilled_lem :
    (t : Timeval) (s : TokenFrequencyCtrl) (n r c e : ℕ)
    → s.token_num ≡ pos n
    → s.token_rate ≡ pos r
    → s.capacity ≡ pos c
    → time_elapse t s.last_access_time ≡ pos e
    → n + r * e < 2 ^ 31
    → refilled t s ≡ pos (min (n + r * e) c)
unfolding refilled
refilled_lem t s n r c e p q o d few =
    rw
      (
        p,
        q,
        o,
        d,
        pos_mul r e,
        to_int-pos (r * e) (omega (arith, few)),
        pos_add n (r * e),
        to_int-pos (n + r * e) few,
      )
      (least (n + r * e) c)
  where
    least : (a b : ℕ) → (if ltb_ℤ (pos a) (pos b) then pos a else pos b) ≡ pos (min a b)
    least a b = ground arith

grant_lem :
    (t : Timeval) (s : TokenFrequencyCtrl) (n r c e : ℕ)
    → s.token_num ≡ pos n
    → s.token_rate ≡ pos r
    → s.capacity ≡ pos c
    → time_elapse t s.last_access_time ≡ pos e
    → n + r * e < 2 ^ 31
    → (k : ℕ) × ((grant t s).1.token_num ≡ pos k)
      × ((if (grant t s).0 then 1 else 0) + k ≤ n + r * e)
      × (k ≤ c)
unfolding grant
grant_lem t s n r c e p q o d few =
    let m = min (n + r * e) c in
    rw (refilled_lem t s n r c e p q o d few) (elim (Bool-cases (ltb_ℤ (pos m) (pos 1))) [
      | inl none_left ↦ rw none_left (m, refl, omega arith, omega arith)
      | inr more ↦
          let one : 1 ≤ m = ground arith in
          rw (more, pos_sub m 1 one) (m - 1, refl, omega arith, omega arith)
    ])

grant_keeps :
    (t : Timeval) (s : TokenFrequencyCtrl)
    → ((grant t s).1.token_rate ≡ s.token_rate)
      × ((grant t s).1.capacity ≡ s.capacity)
      × ((grant t s).1.last_access_time ≡ t)
unfolding grant
grant_keeps t s = ground arith

end_of_later :
    (last : Timeval) (ts : List Timeval) → AllFollow last ts → micros last ≤ micros (end_of last ts)
end_of_later last [] f = omega arith
end_of_later last (t ∷ rest) f = let k = end_of_later t rest f.1 in omega (arith, k, f.0.1)

-- The sums of one call and of the rest of a run.
add_up :
    (g g' k k' n r e d d' l : ℕ)
    → g + k ≤ n + r * e
    → 1000 * e ≤ d + 999
    → 1000 * (g' + k') ≤ 1000 * k + r * (d' + 999 * l)
    → 1000 * (g + g' + k') ≤ 1000 * n + r * (d + d' + 999 * suc l)
add_up g g' k k' n r e d d' l h i j =
    let more : r * (1000 * e) ≤ r * (d + 999) = mul-le-mul_left r i in
    let split : d + d' + 999 * suc l ≡ d + 999 + (d' + 999 * l) = omega arith in
    let parts : r * (d + d' + 999 * suc l) ≡ r * (d + 999) + r * (d' + 999 * l) =
      ap (λ (w : ℕ). r * w) split ∙ mul-add r (d + 999) (d' + 999 * l) in
    omega (arith, more, parts)

-- A run of `d` microseconds at most, in which no `int` overflows.
record Fits (r c d : ℕ) : Type 0 where
  short : d + 999 < 1000 * 2 ^ 31
  few : 1000 * c + r * (d + 999) < 1000 * 2 ^ 31

refill-Fits : (n r c d e : ℕ) → Fits r c d → n ≤ c → 1000 * e ≤ d + 999 → n + r * e < 2 ^ 31
refill-Fits n r c d e fits low bound =
    let more : r * (1000 * e) ≤ r * (d + 999) = mul-le-mul_left r bound in
    omega (arith, more, fits.few)

run_lem :
    (ts : List Timeval) (s : TokenFrequencyCtrl) (last : Timeval) (n r c d : ℕ)
    → s.last_access_time ≡ last
    → s.token_num ≡ pos n
    → s.token_rate ≡ pos r
    → s.capacity ≡ pos c
    → n ≤ c
    → last.tv_usec < 1000000
    → AllFollow last ts
    → micros (end_of last ts) - micros last ≤ d
    → Fits r c d
    → let (granted, s') = run ts s in
      (k : ℕ) × (s'.token_num ≡ pos k)
      × (k ≤ c)
      × (1000 * (granted + k)
          ≤ 1000 * n + r * (micros (end_of last ts) - micros last + 999 * length ts))
run_lem [] s last n r c d a p q o low h f within fits = (n, p, low, omega arith)
run_lem (t ∷ rest) s last n r c d a p q o low h f within fits =
    let later = end_of_later t rest f.1 in
    let (e, te, bound) =
      time_elapse_lem t last h f.0 (omega (arith, within, fits.short, later, f.0.1)) in
    let fine = refill-Fits n r c d e fits low (omega (arith, bound, within, later, f.0.1)) in
    let (k, tk, sum, cap') = grant_lem t s n r c e p q o (ap (time_elapse t) a ∙ te) fine in
    let (rate, room, now) = grant_keeps t s in
    let (k', tk', low', left) =
      run_lem rest (grant t s).1 t k r c d now tk (rate ∙ q) (room ∙ o) cap' f.0.0 f.1
        (omega (arith, within, later, f.0.1)) fits in
    let span : micros t - micros last + (micros (end_of t rest) - micros t)
        ≡ micros (end_of t rest) - micros last =
      omega (arith, later, f.0.1) in
    let total =
      add_up (if (grant t s).0 then 1 else 0) (run rest (grant t s).1).0 k k' n r e
        (micros t - micros last) (micros (end_of t rest) - micros t) (length rest) sum bound left in
    (
      k',
      tk',
      low',
      subst
          (λ (w : ℕ).
            1000 * ((if (grant t s).0 then 1 else 0) + (run rest (grant t s).1).0 + k')
            ≤ 1000 * n + r * (w + 999 * suc (length rest)))
          span total,
    )

-- A bucket of capacity `c` with `n` tokens, at most `c`, gets `r` tokens for a millisecond; the clock's readings
-- are proper and never go back, and the run is so short that no `int` overflows: it lasts at most 2^31 - 1
-- milliseconds, and `c` tokens and those for its time and 999 microseconds more are fewer than 2^31. After the
-- calls the bucket holds at most `c` tokens. They grant at most the `n` tokens and, in thousandths, `r` for each
-- microsecond that passes, with 999 more for each call; what is left in the bucket counts as granted.
pub run_bounds :
    (ts : List Timeval) (s : TokenFrequencyCtrl) (n r c : ℕ)
    → s.token_num ≡ pos n
    → s.token_rate ≡ pos r
    → s.capacity ≡ pos c
    → n ≤ c
    → s.last_access_time.tv_usec < 1000000
    → AllFollow s.last_access_time ts
    → passed s.last_access_time ts + 999 < 1000 * 2 ^ 31
    → 1000 * c + r * (passed s.last_access_time ts + 999) < 1000 * 2 ^ 31
    → let (granted, s') = run ts s in
      (k : ℕ) × (s'.token_num ≡ pos k)
      × (k ≤ c)
      × (1000 * (granted + k) ≤ 1000 * n + r * (passed s.last_access_time ts + 999 * length ts))
run_bounds ts s n r c p q o low h f short few =
    run_lem ts s s.last_access_time n r c (passed s.last_access_time ts) refl p q o low h f
      (omega arith) (record { short = short; few = few })
