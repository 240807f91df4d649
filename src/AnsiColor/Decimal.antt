-- ===== src/AnsiColor/Decimal.antt =====
-- The decimal digits of c_utils/ansi_color.cpp, read back.
use tiny_utils.Base.{
  ℕ, zero, suc, ◌+◌, ◌*◌, ◌-◌, ◌/◌, ◌%◌, ◌≤◌, ◌<◌, ◌≡◌, inl, inr, ap, ◌∙◌, false, List, [], ◌∷◌,
  ltb, Bool-cases, ltb→lt, arith,
}
use tiny_utils.AnsiColor.{digits, stringify}

-- The value of digits behind a number.
abbrev pub value_from : ℕ → List ℕ → ℕ
value_from v [] = v
value_from v (c ∷ cs) = value_from (v * 10 + (c - 48)) cs

-- All bytes are digits.
abbrev pub AllDigits : List ℕ → Type 0
AllDigits [] = Unit
AllDigits (c ∷ cs) = (48 ≤ c) × (c < 58) × AllDigits cs

digits-AllDigits : (fuel n : ℕ) (rest : List ℕ) → AllDigits rest → AllDigits (digits fuel n rest)
unfolding digits
digits-AllDigits zero n rest a = a
digits-AllDigits (suc fuel) n rest a = elim (Bool-cases (ltb n 10)) [
  | inl small ↦ rw small (omega arith, omega arith, a)
  | inr large ↦ rw large (digits-AllDigits fuel (n / 10) _ (omega arith, omega arith, a))
]

value_from-digits :
    (fuel n : ℕ) (rest : List ℕ) → n < fuel → value_from 0 (digits fuel n rest) ≡ value_from n rest
unfolding digits
value_from-digits zero n rest h = absurd (omega arith)
value_from-digits (suc fuel) n rest h = elim (Bool-cases (ltb n 10)) [
  | inl small ↦
      let low = ltb→lt n 10 small in rw small (ap (λ (v : ℕ). value_from v rest) (omega arith))
  | inr large ↦ rw large (
      value_from-digits fuel (n / 10) ((48 + n % 10) ∷ rest) (omega (arith, not_small n large))
      ∙ ap (λ (v : ℕ). value_from v rest) (omega arith))
]
  where
    not_small : (n : ℕ) → ltb n 10 ≡ false → 10 ≤ n
    not_small n e = ground arith

pub stringify-AllDigits : (n : ℕ) → AllDigits (stringify n)
unfolding stringify
stringify-AllDigits n = digits-AllDigits (suc n) n [] tt

pub value_from-stringify : (n : ℕ) → value_from 0 (stringify n) ≡ n
unfolding stringify
value_from-stringify n = value_from-digits (suc n) n [] (omega arith)
