-- ===== src/NumBase/Sum.antt =====
-- What `Add` of cpp_utils/num_base_x.cpp computes, in terms of the digits, the least one first.
use mathlib.Core.List.{reverse, reverse-reverse}
use tiny_utils.Base.{
  ℕ, zero, suc, ◌+◌, ◌%◌, ◌*◌, ◌^◌, ◌≡◌, ◌<◌, ◌≤◌, refl, ap, ◌∙◌, none, some, List, [], ◌∷◌, ◌++◌,
  Outcome, ok, fault, Fault, ◌>>=◌, load, load-fault, false, ◌==◌, if◌then◌else◌, arith, map,
  length, length-map, take, get_elem?, from_option,
}
use tiny_utils.NumBase.{carry, add_loop, add_last, add_end, add}
use tiny_utils.NumBase.Digits.{vec, table, char_of, at-char_of, digit-vec}

abbrev pub value : List ℕ → ℕ
value [] = 0
value (d ∷ ds) = d + 36 * value ds

abbrev pub AreDigits : List ℕ → Type 0
AreDigits [] = Unit
AreDigits (d ∷ ds) = (d < 36) × AreDigits ds

-- The string of a number, the greatest digit first.
abbrev pub numeral : List ℕ → List ℕ
numeral ds = reverse (map char_of ds)

finish : List ℕ → List ℕ → List ℕ × ℕ × ℕ → Outcome (List ℕ)
finish v1 v2 (out, tmp_sum, i) = do last ← add_end vec table v1 v2 i tmp_sum; ok (out ++ last)

last_digits : ℕ → List ℕ
last_digits s = (s % 36) ∷ (if carry s == 1 then 1 ∷ [] else [])

last_digits_lem :
    (y k : ℕ) (v2 : List ℕ) (i : ℕ)
    → y < 36
    → k ≤ 1
    → load v2 i ≡ ok (char_of y)
    → (add_last vec table v2 i k ≡ ok (map char_of (last_digits (y + k))))
      × AreDigits (last_digits (y + k))
      × (value (last_digits (y + k)) ≡ y + k)
unfolding add_last last_digits
last_digits_lem y k v2 i h c e = (
  rw (e, at-char_of y h, digit-vec (y + k) (omega arith)) (ground arith),
  ground arith,
  ground arith,
)

get_elem?-map :
    (f : ℕ → ℕ) (xs : List ℕ) (i : ℕ)
    → get_elem? (map f xs) i ≡ elim (get_elem? xs i) [ none ↦ none | some x ↦ some (f x) ]
get_elem?-map f [] i = refl
get_elem?-map f (x ∷ xs) zero = refl
get_elem?-map f (x ∷ xs) (suc i) = get_elem?-map f xs i

-- `rest` is what the characters `v` hold from position `i` on.
abbrev From : List ℕ → ℕ → List ℕ → Type 0
From v i rest = (k : ℕ) → get_elem? v (i + k) ≡ get_elem? (map char_of rest) k

From-load : (v : List ℕ) (i y : ℕ) (rest : List ℕ) → From v i (y ∷ rest) → load v i ≡ ok (char_of y)
From-load v i y rest h =
    ap (λ o. from_option o Fault.out_of_bounds) (ap (get_elem? v) (omega arith) ∙ h 0)

From-suc : (v : List ℕ) (i y : ℕ) (rest : List ℕ) → From v i (y ∷ rest) → From v (i + 1) rest
From-suc v i y rest h k = ap (get_elem? v) (omega arith) ∙ h (suc k)

at_end :
    (v1 v2 : List ℕ) (i k : ℕ)
    → i ≡ length v1
    → length v1 < 2 ^ 64
    → add_end vec table v1 v2 i k ≡ add_last vec table v2 i k
unfolding add_end
at_end v1 v2 i k e small = ground arith

abbrev push : ℕ → List ℕ × ℕ × ℕ → Outcome (List ℕ × ℕ × ℕ)
push c r = ok (c ∷ r.0, r.1, r.2)

push_result :
    (c : ℕ) (out zs : List ℕ) (r : Outcome (List ℕ))
    → (r >>= λ last. ok (out ++ last)) ≡ ok zs
    → (r >>= λ last. ok (c ∷ (out ++ last))) ≡ ok (c ∷ zs)
push_result c out zs (Outcome.ok last) e = cc
push_result c out zs (Outcome.fault f) e = cc

finish-push :
    (v1 v2 : List ℕ) (c : ℕ) (zs : List ℕ) (m : Outcome (List ℕ × ℕ × ℕ))
    → (m >>= finish v1 v2) ≡ ok zs
    → ((m >>= push c) >>= finish v1 v2) ≡ ok (c ∷ zs)
unfolding finish
finish-push v1 v2 c zs (Outcome.ok (out, l, j)) e =
    push_result c out zs (add_end vec table v1 v2 j l) e
finish-push v1 v2 c zs (Outcome.fault f) e = cc

-- One round of the loop on two digits.
round_lem :
    (xs v2 : List ℕ) (i k x y : ℕ)
    → x < 36
    → y < 36
    → k ≤ 1
    → load v2 i ≡ ok (char_of y)
    → (length v2 == 0) ≡ false
    → add_loop vec table (map char_of (x ∷ xs)) v2 i k ≡ (
        add_loop vec table (map char_of xs) v2 (i + 1) (carry (x + y + k))
        >>= push (char_of ((x + y + k) % 36)))
unfolding add_loop
round_lem xs v2 i k x y hx hy c e ne =
    rw (e, ne, at-char_of x hx, at-char_of y hy, digit-vec (x + y + k) (omega arith))

-- From position `i` on, with a carry, the rest of both numbers.
sum_lem :
    (v1 v2 xs : List ℕ) (i k : ℕ) (rest : List ℕ)
    → i + length xs ≡ length v1
    → length v1 < 2 ^ 64
    → i + length rest ≡ length v2
    → length xs < length rest
    → From v2 i rest
    → AreDigits xs
    → AreDigits rest
    → k ≤ 1
    → (zs : List ℕ) × ((add_loop vec table (map char_of xs) v2 i k >>= finish v1 v2)
        ≡ ok (map char_of zs))
      × AreDigits zs
      × (value zs ≡ value xs + value (take (suc (length xs)) rest) + k)
unfolding finish
sum_lem v1 v2 [] i k [] e1 small e2 lt view dx dr c = absurd (omega arith)
sum_lem v1 v2 [] i k (y ∷ rest) e1 small e2 lt view dx dr c =
    let (e, d, v) = last_digits_lem y k v2 i dr.0 c (From-load v2 i y rest view) in
    (
      last_digits (y + k),
      unfold add_loop in rw (at_end v1 v2 i k (omega arith) small, e),
      d,
      omega (arith, v),
    )
sum_lem v1 v2 (x ∷ xs) i k [] e1 small e2 lt view dx dr c = absurd (omega arith)
sum_lem v1 v2 (x ∷ xs) i k (y ∷ rest) e1 small e2 lt view dx dr c =
    let s = x + y + k in
    let (zs, e, d, v) =
      sum_lem v1 v2 xs (i + 1) (carry s) rest (omega arith) small (omega arith) (omega arith)
        (From-suc v2 i y rest view) dx.1 dr.1 (ground arith) in
    (
      (s % 36) ∷ zs,
      rw (round_lem xs v2 i k x y dx.0 dr.0 c (From-load v2 i y rest view) (ground arith))
          (finish-push v1 v2 _ _ _ e),
      (omega arith, d),
      ground (arith, v),
    )

finish-push_fault :
    (v1 v2 : List ℕ) (c : ℕ) (f : Fault) (m : Outcome (List ℕ × ℕ × ℕ))
    → (m >>= finish v1 v2) ≡ fault f
    → ((m >>= push c) >>= finish v1 v2) ≡ fault f
unfolding finish
finish-push_fault v1 v2 c f (Outcome.ok (out, l, j)) e = ground arith
finish-push_fault v1 v2 c f (Outcome.fault g) e = e

-- The second number runs out first.
sum-fault :
    (v1 v2 xs : List ℕ) (i k : ℕ) (rest : List ℕ)
    → i + length xs ≡ length v1
    → length v1 < 2 ^ 64
    → i + length rest ≡ length v2
    → 0 < length v2
    → length rest ≤ length xs
    → From v2 i rest
    → AreDigits xs
    → AreDigits rest
    → k ≤ 1
    → (add_loop vec table (map char_of xs) v2 i k >>= finish v1 v2) ≡ fault Fault.out_of_bounds
unfolding finish add_last
sum-fault v1 v2 [] i k rest e1 small e2 ne le view dx dr c =
    unfold add_loop in rw (at_end v1 v2 i k (omega arith) small, load-fault v2 i (omega arith))
sum-fault v1 v2 (x ∷ xs) i k [] e1 small e2 ne le view dx dr c =
    unfold add_loop in rw (not_empty, load-fault v2 i (omega arith))
  where
    not_empty : (length v2 == 0) ≡ false
    not_empty = ground arith
sum-fault v1 v2 (x ∷ xs) i k (y ∷ rest) e1 small e2 ne le view dx dr c =
    rw (round_lem xs v2 i k x y dx.0 dr.0 c (From-load v2 i y rest view) (ground arith)) (
      finish-push_fault v1 v2 _ _ _ (
        sum-fault v1 v2 xs (i + 1) (carry (x + y + k)) rest (omega arith) small (omega arith) ne
          (omega arith) (From-suc v2 i y rest view) dx.1 dr.1 (ground arith)))

-- The whole of `Add` on vectors, from the part before the reversal.
add_ok :
    (v1 v2 ws : List ℕ)
    → (add_loop vec table v1 v2 0 0 >>= finish v1 v2) ≡ ok ws
    → add vec table (reverse v1) (reverse v2) ≡ ok (reverse ws)
unfolding add finish
add_ok v1 v2 ws e = rw (reverse-reverse v1, reverse-reverse v2) (ground arith)

add_fault :
    (v1 v2 : List ℕ) (f : Fault)
    → (add_loop vec table v1 v2 0 0 >>= finish v1 v2) ≡ fault f
    → add vec table (reverse v1) (reverse v2) ≡ fault f
unfolding add finish
add_fault v1 v2 f e = rw (reverse-reverse v1, reverse-reverse v2) (ground arith)

numeral-From : (ys : List ℕ) → From (map char_of ys) 0 ys
numeral-From ys k = ap (get_elem? (map char_of ys)) (omega arith)

-- For two numbers of fewer than 2^31 base-36 digits, the second one longer, `Add` returns the numeral of the sum of
-- the first number and the lowest digits of the second, one more than the first one has.
pub add-value :
    (xs ys : List ℕ)
    → AreDigits xs
    → AreDigits ys
    → length xs < length ys
    → length ys < 2 ^ 31
    → (zs : List ℕ) × (add vec table (numeral xs) (numeral ys) ≡ ok (numeral zs))
      × AreDigits zs
      × (value zs ≡ value xs + value (take (suc (length xs)) ys))
add-value xs ys dx dy lt small =
    let (zs, e, d, v) =
      sum_lem (map char_of xs) (map char_of ys) xs 0 0 ys (omega (arith, length-map xs char_of))
        (omega (arith, length-map xs char_of)) (omega (arith, length-map ys char_of)) lt
        (numeral-From ys) dx dy (omega arith) in
    (zs, add_ok (map char_of xs) (map char_of ys) (map char_of zs) e, d, omega (arith, v))

-- For two numbers of base-36 digits, the second one not empty and not longer than the first, `Add`
-- reads past the end of the second number's vector.
add-fault :
    (xs ys : List ℕ)
    → AreDigits xs
    → AreDigits ys
    → 0 < length ys
    → length ys ≤ length xs
    → length xs < 2 ^ 64
    → add vec table (numeral xs) (numeral ys) ≡ fault Fault.out_of_bounds
add-fault xs ys dx dy ne le small =
    add_fault (map char_of xs) (map char_of ys) Fault.out_of_bounds (
      sum-fault (map char_of xs) (map char_of ys) xs 0 0 ys (omega (arith, length-map xs char_of))
        (omega (arith, length-map xs char_of)) (omega (arith, length-map ys char_of))
        (omega (arith, length-map ys char_of)) le (numeral-From ys) dx dy (omega arith))
