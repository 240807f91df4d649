-- ===== src/NumBase/Tests.antt =====
-- Runs of cpp_utils/num_base_x.cpp, and the theorems at concrete numbers.
use tiny_utils.Base.{ℕ, suc, ◌+◌, ◌≡◌, refl, List, [], ◌∷◌, length, take, ok, arith}
use tiny_utils.NumBase.{
  init_num_convert_vec, init_num_convert_map, add, add_loop, add_end, add_last, digit, at,
}
use tiny_utils.NumBase.Digits.{vec, table}
use tiny_utils.NumBase.Sum.{value, AreDigits, numeral, add-value}

-- "z" + "1z" = "2y"
adds : add vec table (b'z' ∷ []) (b'1' ∷ b'z' ∷ []) ≡ ok (b'2' ∷ b'y' ∷ [])
unfolding add add_loop add_end add_last digit at init_num_convert_vec init_num_convert_map
adds = refl

-- "1" + "123" loses the leading digit: "24".
loses_digits : add vec table (b'1' ∷ []) (b'1' ∷ b'2' ∷ b'3' ∷ []) ≡ ok (b'2' ∷ b'4' ∷ [])
unfolding add add_loop add_end add_last digit at init_num_convert_vec init_num_convert_map
loses_digits = refl

add-value_example :
    (zs : List ℕ) × (add vec table (numeral (35 ∷ [])) (numeral (35 ∷ 1 ∷ [])) ≡ ok (numeral zs))
    × AreDigits zs
    × (value zs ≡ value (35 ∷ []) + value (take (suc (length {A = ℕ} (35 ∷ []))) (35 ∷ 1 ∷ [])))
add-value_example =
    add-value (35 ∷ []) (35 ∷ 1 ∷ []) (omega arith) (omega arith) (omega arith) (omega arith)
