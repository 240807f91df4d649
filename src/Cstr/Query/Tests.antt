-- ===== src/Cstr/Query/Tests.antt =====
-- Runs of the queries of c_utils/cstr.c, and the theorems at concrete strings.
use tiny_utils.Base.{◌≡◌, refl, false, some, [], ◌∷◌, ok, arith}
use tiny_utils.Base.Int.{ℤ, negsuc, ◌-ℤ◌}
use tiny_utils.Cstr.Memory.{Cstr, IsValid, text}
use tiny_utils.Cstr.Query.{compare_loop, cstr_compare, digit_loop, cstr_is_digit}
use tiny_utils.Cstr.Query.Compared.{Orders, cstr_compare-Orders}

-- "0xa" and "0xb".
abbrev hex_a : Cstr
hex_a = record { cap = 4; used = 3; bytes = b'0' ∷ b'x' ∷ b'a' ∷ 0 ∷ 7 ∷ [] }

abbrev hex_b : Cstr
hex_b = record { cap = 3; used = 3; bytes = b'0' ∷ b'x' ∷ b'b' ∷ 0 ∷ [] }

hex_a-IsValid : IsValid hex_a
hex_a-IsValid = omega arith

hex_b-IsValid : IsValid hex_b
hex_b-IsValid = omega arith

compares : cstr_compare (some hex_a) (some hex_b) ≡ ok (negsuc 0)
unfolding cstr_compare compare_loop ◌-ℤ◌
compares = refl

-- A number with two dots is none; "." alone neither.
abbrev dot : Cstr
dot = record { cap = 2; used = 1; bytes = b'.' ∷ 0 ∷ 0 ∷ [] }

rejects_dot : cstr_is_digit (some dot) ≡ ok false
unfolding cstr_is_digit digit_loop
rejects_dot = refl

cstr_compare-Orders_example :
    (r : ℤ) × (cstr_compare (some hex_a) (some hex_b) ≡ ok r) × Orders r (text hex_a) (text hex_b)
cstr_compare-Orders_example =
    cstr_compare-Orders hex_a hex_b hex_a-IsValid hex_b-IsValid (omega arith) (omega arith)
