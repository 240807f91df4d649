-- ===== src/TokenFrequencyCtrl/Elapsed.antt =====
-- The milliseconds between two calls of `Grant`, in cpp_utils/token_frequency_control.cpp.
use tiny_utils.Base.{
  ℕ, ◌+◌, ◌-◌, ◌*◌, ◌/◌, ◌≤◌, ◌<◌, ◌^◌, ◌≡◌, inl, inr, refl, ap, ◌∙◌, leb, arith, Bool-cases,
  leb→le,
}
use tiny_utils.Base.Int.{to_int, to_int-pos, pos, negsuc, sub_ℕ, ◌+ℤ◌, ◌-ℤ◌, ◌*ℤ◌}
use tiny_utils.TokenFrequencyCtrl.{Timeval, milliseconds, time_elapse}

-- Microseconds.
abbrev pub micros : Timeval → ℕ
micros t = t.tv_sec * 1000000 + t.tv_usec

-- A proper reading of the clock, not before another one.
abbrev pub Follows : Timeval → Timeval → Type 0
Follows t last = (t.tv_usec < 1000000) × (micros last ≤ micros t)

pub pos_sub : (a b : ℕ) → b ≤ a → pos a -ℤ pos b ≡ pos (a - b)
unfolding ◌-ℤ◌
pos_sub a b h = ground arith

neg_sub : (a b : ℕ) → a < b → pos a -ℤ pos b ≡ negsuc (b - a - 1)
unfolding ◌-ℤ◌
neg_sub a b h = ground arith

pub pos_mul : (a b : ℕ) → pos a *ℤ pos b ≡ pos (a * b)
unfolding ◌*ℤ◌
pos_mul a b = ground arith

pub pos_add : (a b : ℕ) → pos a +ℤ pos b ≡ pos (a + b)
unfolding ◌+ℤ◌
pos_add a b = ground arith

take_off : (a k : ℕ) → k ≤ a → pos a +ℤ sub_ℕ 0 k ≡ pos (a - k)
unfolding ◌+ℤ◌
take_off a k h = ground arith

milliseconds_lem :
    (t last : Timeval)
    → last.tv_usec < 1000000
    → Follows t last
    → (e : ℕ) × (milliseconds t last ≡ pos e) × (1000 * e ≤ micros t - micros last + 999)
milliseconds_lem t last h f =
    let order : last.tv_sec ≤ t.tv_sec = omega (arith, f.1) in
    let d = t.tv_sec - last.tv_sec in
    elim (Bool-cases (leb last.tv_usec t.tv_usec)) [
      | inl up ↦
          let low : last.tv_usec ≤ t.tv_usec = leb→le last.tv_usec t.tv_usec up in
          rw
            (
              pos_sub t.tv_sec last.tv_sec order,
              pos_sub t.tv_usec last.tv_usec low,
              pos_mul 1000 d,
              pos_add (1000 * d) ((t.tv_usec - last.tv_usec) / 1000),
            )
            (1000 * d + (t.tv_usec - last.tv_usec) / 1000, refl, omega (arith, f.1))
      | inr down ↦
          let high : t.tv_usec < last.tv_usec = ground arith in
          let back = last.tv_usec - t.tv_usec - 1 + 1 in
          let small : back / 1000 ≤ 1000 * d = omega (arith, f.0, f.1) in
          rw
            (
              pos_sub t.tv_sec last.tv_sec order,
              neg_sub t.tv_usec last.tv_usec high,
              pos_mul 1000 d,
              take_off (1000 * d) (back / 1000) small,
            )
            (1000 * d - back / 1000, refl, omega (arith, f.1))
    ]

pub time_elapse_lem :
    (t last : Timeval)
    → last.tv_usec < 1000000
    → Follows t last
    → micros t - micros last + 999 < 1000 * 2 ^ 31
    → (e : ℕ) × (time_elapse t last ≡ pos e) × (1000 * e ≤ micros t - micros last + 999)
unfolding time_elapse
time_elapse_lem t last h f short =
    let (e, te, bound) = milliseconds_lem t last h f in
    (e, ap to_int te ∙ to_int-pos e (omega (arith, bound, short)), bound)
