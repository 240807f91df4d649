-- ===== src/Cstr/Query/CompareStr.antt =====
-- `cstr_compare_str` of c_utils/cstr.c, on `strcmp` of the standard library.
use tiny_utils.Base.{
  ℕ, zero, suc, ◌≡◌, ◌≢◌, inl, inr, refl, ap, ◌∙◌, false, Option, some, List, [], ◌∷◌, ◌++◌, take,
  get_or, get_elem?, Outcome, ok, fault, Fault, ◌>>=◌, from_option, ltb, ◌==◌, if◌then◌else◌, arith,
  Bool-cases, get_elem?-eq-get_or,
}
use tiny_utils.Base.Int.{ℤ, pos, negsuc}
use tiny_utils.Cstr.Memory.{Cstr, IsValid, text, assert_valid}

-- `strcmp` goes on until the bytes differ or both are zero; of its result only the sign is known.
unfoldable pub strcmp : List ℕ → List ℕ → Outcome ℤ
strcmp [] ys = fault Fault.out_of_bounds
strcmp (x ∷ xs) [] = fault Fault.out_of_bounds
strcmp (x ∷ xs) (y ∷ ys) =
    let rest = strcmp xs ys in
    if x == y
    then (if x == 0 then ok (pos 0) else rest)
    else ok (if ltb x y then negsuc 0 else pos 1)

unfoldable pub cstr_compare_str : Option Cstr → Option (List ℕ) → Outcome ℤ
cstr_compare_str p q = do
  cstr ← assert_valid p
  str ← from_option q Fault.assertion
  strcmp cstr.bytes (str ++ (0 ∷ []))

-- The order of two texts: by the first byte that differs, and a text after its beginnings.
abbrev pub lexical : List ℕ → List ℕ → ℤ
lexical [] [] = pos 0
lexical [] (y ∷ ys) = negsuc 0
lexical (x ∷ xs) [] = pos 1
lexical (x ∷ xs) (y ∷ ys) = if x == y then lexical xs ys else if ltb x y then negsuc 0 else pos 1

abbrev pub NoZero : List ℕ → Type 0
NoZero [] = Unit
NoZero (x ∷ xs) = (x ≢ 0) × NoZero xs

strcmp_lem :
    (n : ℕ) (xs ys : List ℕ)
    → get_elem? xs n ≡ some 0
    → NoZero (take n xs)
    → NoZero ys
    → strcmp xs (ys ++ (0 ∷ [])) ≡ ok (lexical (take n xs) ys)
unfolding strcmp
strcmp_lem n [] ys e z w = cc
strcmp_lem zero (x ∷ xs) [] e z w = ground arith
strcmp_lem zero (x ∷ xs) (y ∷ ys) e z w = ground arith
strcmp_lem (suc n) (x ∷ xs) [] e z w = ground (arith, z.0)
strcmp_lem (suc n) (x ∷ xs) (y ∷ ys) e z w =
    let not_end : (x == 0) ≡ false = ground (arith, z.0) in
    elim (Bool-cases (x == y)) [
      | inl same ↦ rw (same, not_end) (strcmp_lem n xs ys e z.1 w.1)
      | inr other ↦ rw other refl
    ]

-- On a valid string with its final zero byte, and where neither text holds a zero byte, `cstr_compare_str` gives
-- the sign of the order of the two texts.
cstr_compare_str-lexical :
    (c : Cstr) (str : List ℕ)
    → IsValid c
    → get_or c.bytes c.used 1 ≡ 0
    → NoZero (text c)
    → NoZero str
    → cstr_compare_str (some c) (some str) ≡ ok (lexical (text c) str)
unfolding cstr_compare_str
cstr_compare_str-lexical c str v ends z w =
    strcmp_lem c.used c.bytes str
      (get_elem?-eq-get_or c.bytes c.used 1 (omega (arith, v.fits, v.backed)) ∙ ap some ends) z w
