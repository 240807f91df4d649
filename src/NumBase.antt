-- ===== src/NumBase.antt =====
-- cpp_utils/num_base_x.cpp: addition of numbers written in base 36.
-- A string is the list of its characters. `operator[]` of the map gives 0 for a character that is not
-- a key; the entry that it then makes holds that 0, so no later look-up differs. `uint32_t` sums stay
-- below 2^32: two digits and a carry are at most 71. The `int` and `uint32_t` positions do not wrap as
-- long as the strings are shorter than 2^31.
pub mod Digits
pub mod Sum
mod Tests
use mathlib.Core.List.{reverse}
use tiny_utils.Base.{
  ℕ, zero, suc, ◌+◌, ◌-◌, ◌%◌, ◌^◌, Option, none, some, List, [], ◌∷◌, ◌++◌, length, Outcome, ok,
  ◌>>=◌, load, Bool, true, false, ltb, ◌==◌, ◌&&◌, if◌then◌else◌,
}

-- The characters from `c` on, `n` of them, as the two loops push them.
pub push_range : ℕ → ℕ → List ℕ
push_range zero c = []
push_range (suc n) c = c ∷ push_range n (c + 1)

unfoldable pub init_num_convert_vec : List ℕ → List ℕ
unfolding push_range
init_num_convert_vec vec = (vec ++ push_range 10 b'0') ++ push_range 26 b'a'

-- `map<char,uint32_t>` as its entries.
abbrev pub ConvertMap : Type 0
ConvertMap = List (ℕ × ℕ)

pub find : ConvertMap → ℕ → Option ℕ
find [] c = none
find ((k, v) ∷ m) c = if k == c then some v else find m c

-- `insert` keeps the old entry of a key that is there.
pub insert : ConvertMap → ℕ → ℕ → ConvertMap
unfolding find
insert m k v = elim (find m k) [ none ↦ m ++ ((k, v) ∷ []) | some w ↦ m ]

-- `n` entries from the character `c` and the value `v` on.
pub insert_range : ℕ → ℕ → ℕ → ConvertMap → ConvertMap
insert_range zero c v m = m
insert_range (suc n) c v m = insert_range n (c + 1) (v + 1) (insert m c v)

unfoldable pub init_num_convert_map : ConvertMap → ConvertMap
unfolding insert insert_range
init_num_convert_map m = insert_range 26 b'a' 10 (insert_range 10 b'0' 0 m)

-- `num_convert_map[c]`
unfoldable pub at : ConvertMap → ℕ → ℕ
unfolding find
at m c = elim (find m c) [ none ↦ 0 | some v ↦ v ]

-- `tmp_num > 35 ? 1 : 0`
abbrev pub carry : ℕ → ℕ
carry tmp_num = if ltb 35 tmp_num then 1 else 0

module _ (vec : List ℕ) (m : ConvertMap) where
  -- The character of a sum of digits.
  unfoldable pub digit : ℕ → Outcome ℕ
  digit tmp_num = if ltb 35 tmp_num then load vec (tmp_num % 36) else load vec tmp_num

  -- The main loop from `i` on, over the rest of `vec_num1`: what it pushes, `tmp_sum` and `i`.
  unfoldable pub add_loop : List ℕ → List ℕ → ℕ → ℕ → Outcome (List ℕ × ℕ × ℕ)
  add_loop [] vec_num2 i tmp_sum = ok ([], tmp_sum, i)
  add_loop (c₁ ∷ rest) vec_num2 i tmp_sum =
      let round = (do
        c₂ ← load vec_num2 i
        let tmp_num = at m c₁ + at m c₂ + tmp_sum
        c ← digit tmp_num
        (out, last, j) ← add_loop rest vec_num2 (i + 1) (carry tmp_num)
        ok (c ∷ out, last, j)) in
      if length vec_num2 == 0 then ok ([], tmp_sum, i) else round

  -- One more digit, at position `i` of one of the numbers.
  unfoldable pub add_last : List ℕ → ℕ → ℕ → Outcome (List ℕ)
  add_last vec_num i tmp_sum = do
    c' ← load vec_num i
    let tmp_num = at m c' + tmp_sum
    c ← digit tmp_num
    ok (c ∷ (if carry tmp_num == 1 then b'1' ∷ [] else []))

  -- The part after the loop; `size_t` differences wrap.
  unfoldable pub add_end : List ℕ → List ℕ → ℕ → ℕ → Outcome (List ℕ)
  add_end vec_num1 vec_num2 i tmp_sum =
      if i == (length vec_num2 + 2 ^ 64 - 1) % 2 ^ 64
        && i == (length vec_num1 + 2 ^ 64 - 1) % 2 ^ 64
      then ok (if tmp_sum == 1 then b'1' ∷ [] else [])
      else if i == length vec_num1
      then add_last vec_num2 i tmp_sum
      else add_last vec_num1 i tmp_sum

  unfoldable pub add : List ℕ → List ℕ → Outcome (List ℕ)
  add num1 num2 = do
    let vec_num1 = reverse num1
    let vec_num2 = reverse num2
    (out, tmp_sum, i) ← add_loop vec_num1 vec_num2 0 0
    last ← add_end vec_num1 vec_num2 i tmp_sum
    ok (reverse (out ++ last))
