-- ===== src/NumBase/Digits.antt =====
-- The two tables of cpp_utils/num_base_x.cpp, after their initialisation.
use tiny_utils.Base.{
  ℕ, zero, suc, ◌+◌, ◌-◌, ◌%◌, ◌≡◌, ◌<◌, ◌≤◌, subst, refl, ap, ◌∙◌, List, [], ok, load, Bool, true,
  false, ltb, ◌==◌, if◌then◌else◌, arith, ==_iff, get_or, length, load_lem, Bool-cases, inl, inr,
}
use tiny_utils.NumBase.{init_num_convert_vec, init_num_convert_map, at, digit, ConvertMap}

-- The tables as `main` sets them up.
abbrev pub vec : List ℕ
vec = init_num_convert_vec []

abbrev pub table : ConvertMap
table = init_num_convert_map []

-- The character of a digit.
abbrev pub char_of : ℕ → ℕ
char_of d = if ltb d 10 then b'0' + d else b'a' + d - 10

-- Whether a test succeeds on the `count` numbers from `d` on.
each_from : ℕ → ℕ → (ℕ → Bool) → Bool
each_from d zero test = true
each_from d (suc count) test = if test d then each_from (d + 1) count test else false

each_from_lem :
    (test : ℕ → Bool) (d count x : ℕ)
    → d ≤ x
    → x < d + count
    → each_from d count test ≡ true
    → test x ≡ true
unfolding each_from
each_from_lem test d zero x low high all = absurd (omega arith)
each_from_lem test d (suc count) x low high all = elim (Bool-cases (d == x)) [
  | inl here ↦ subst (λ y. test y ≡ true) ((==_iff d x).0 here) (ground arith)
  | inr later ↦ each_from_lem test (d + 1) count x (ground arith) (omega arith) (ground arith)
]

pub at-char_of : (d : ℕ) → d < 36 → at table (char_of d) ≡ d
at-char_of d h =
    (==_iff _ d).0
      (each_from_lem (λ x. at table (char_of x) == x) 0 36 d (omega arith) (omega arith) checked)
  where
    checked : each_from 0 36 (λ x. at table (char_of x) == x) ≡ true
    checked = unfold each_from at init_num_convert_map in refl

load-vec : (d : ℕ) → d < 36 → load vec d ≡ ok (char_of d)
load-vec d h =
    load_lem vec d 0 (rw sized h)
    ∙ ap ok (
        (==_iff _ d').0 (
          each_from_lem (λ x. get_or vec x 0 == char_of x) 0 36 d (omega arith) (omega arith)
            checked))
  where
    d' : ℕ
    d' = char_of d

    sized : length vec ≡ 36
    sized = unfold init_num_convert_vec in refl

    checked : each_from 0 36 (λ x. get_or vec x 0 == char_of x) ≡ true
    checked = unfold each_from init_num_convert_vec in refl

-- The character of a sum of two digits and a carry.
pub digit-vec : (s : ℕ) → s < 72 → digit vec table s ≡ ok (char_of (s % 36))
unfolding digit
digit-vec s h = elim (Bool-cases (ltb 35 s)) [
  | inl over ↦ rw over (load-vec (s % 36) (omega arith))
  | inr under ↦ rw under (load-vec s (ground arith) ∙ ap (λ (t : ℕ). ok (char_of t)) (same under))
]
  where
    same : ltb 35 s ≡ false → s ≡ s % 36
    same under = ground arith
