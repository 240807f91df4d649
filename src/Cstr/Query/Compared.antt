-- ===== src/Cstr/Query/Compared.antt =====
-- What `cstr_compare` of c_utils/cstr.c returns: the order of the texts by signed characters.
use tiny_utils.Base.{
  ℕ, zero, suc, ◌+◌, ◌-◌, ◌≤◌, ◌<◌, ◌≡◌, ◌≢◌, ◌⊎◌, inl, inr, refl, sym, ap, subst, false, some,
  List, [], ◌∷◌, length, take, ok, ltb, ◌==◌, ◌&&◌, if◌then◌else◌, arith, take_of_pos, Bool-cases,
  ==_iff,
}
use tiny_utils.Base.Int.{ℤ, pos, negsuc, ◌-ℤ◌, sub_ℕ}
use tiny_utils.Cstr.Memory.{Cstr, IsValid, text}
use tiny_utils.Cstr.Query.{as_char, compared_to_end, compare_loop, cstr_compare}

-- The place of a byte in the order of signed characters: those from 128 on come first.
abbrev pub rank : ℕ → ℕ
rank b = if ltb b 128 then b + 128 else b - 128

-- Lexicographic order.
pub data Below : List ℕ → List ℕ → Type 0 where
  ends : {y : ℕ} {ys : List ℕ} → Below [] (y ∷ ys)
  differs : {x y : ℕ} {xs ys : List ℕ} → rank x < rank y → Below (x ∷ xs) (y ∷ ys)
  same : {x y : ℕ} {xs ys : List ℕ} → x ≡ y → Below xs ys → Below (x ∷ xs) (y ∷ ys)

abbrev pub AreBytes : List ℕ → Type 0
AreBytes [] = Unit
AreBytes (b ∷ bs) = (b < 256) × AreBytes bs

-- The sign of a result says how two texts stand to each other.
abbrev pub Orders : ℤ → List ℕ → List ℕ → Type 0
Orders r xs ys =
    ((r ≡ pos 0) × (xs ≡ ys))
    ⊎ (((n : ℕ) × (r ≡ negsuc n)) × Below xs ys)
    ⊎ (((n : ℕ) × (r ≡ pos (suc n))) × Below ys xs)

sub_ℕ_neg : (a b : ℕ) → a < b → (n : ℕ) × (sub_ℕ a b ≡ negsuc n)
sub_ℕ_neg a b h = (b - a - 1, ground arith)

sub_ℕ_pos : (a b : ℕ) → b < a → (n : ℕ) × (sub_ℕ a b ≡ pos (suc n))
sub_ℕ_pos a b h = (a - b - 1, ground arith)

sign_lem :
    (x y : ℕ)
    → x < 256
    → y < 256
    → x ≢ y
    → (((n : ℕ) × (as_char x -ℤ as_char y ≡ negsuc n)) × (rank x < rank y))
      ⊎ (((n : ℕ) × (as_char x -ℤ as_char y ≡ pos (suc n))) × (rank y < rank x))
unfolding ◌-ℤ◌
sign_lem x y h k ne = elim (Bool-cases (ltb (rank x) (rank y))) [
  | inl below ↦ inl (sub_ℕ_neg _ _ (ground arith), ground arith)
  | inr above ↦ inr (sub_ℕ_pos _ _ (ground arith), ground arith)
]

nil-Below : (n : ℕ) (ys : List ℕ) → 0 < n → n ≤ length ys → Below [] (take n ys)
nil-Below zero ys h k = absurd (omega arith)
nil-Below (suc n) [] h k = absurd (omega arith)
nil-Below (suc n) (y ∷ ys) h k = ends

none_left : (n : ℕ) (xs : List ℕ) → n ≡ 0 → take n xs ≡ []
none_left n xs e = ap (λ (j : ℕ). take j xs) e

ended_lem :
    (xs ys : List ℕ) (i used1 used2 : ℕ)
    → (ltb i used1 && ltb i used2) ≡ false
    → i ≤ used1
    → i ≤ used2
    → used1 ≤ i + length xs
    → used2 ≤ i + length ys
    → Orders (compared_to_end i used1 used2) (take (used1 - i) xs) (take (used2 - i) ys)
ended_lem xs ys i used1 used2 done h1 h2 k1 k2 = elim (Bool-cases (i == used1)) [
  | inl end1 ↦
      rw (end1, none_left (used1 - i) xs (ground arith))
        (elim (Bool-cases (i == used2)) [
          | inl end2 ↦ rw (end2, none_left (used2 - i) ys (ground arith)) (inl (refl, refl))
          | inr more ↦
              rw more (inr (inl ((0, refl), nil-Below (used2 - i) ys (ground arith) (omega arith))))
        ])
  | inr more ↦
      rw (more, none_left (used2 - i) ys (ground arith))
        (inr (inr ((0, refl), nil-Below (used1 - i) xs (ground arith) (omega arith))))
]

Orders-cons :
    {r : ℤ} {xs ys : List ℕ} (x y : ℕ) → x ≡ y → Orders r xs ys → Orders r (x ∷ xs) (y ∷ ys)
Orders-cons x y e (inl (z, q)) = inl (z, cc)
Orders-cons x y e (inr (inl (s, b))) = inr (inl (s, same e b))
Orders-cons x y e (inr (inr (s, b))) = inr (inr (s, same (sym e) b))

compare_loop-Orders :
    (xs ys : List ℕ) (i used1 used2 : ℕ)
    → i ≤ used1
    → i ≤ used2
    → used1 ≤ i + length xs
    → used2 ≤ i + length ys
    → AreBytes xs
    → AreBytes ys
    → (r : ℤ) × (compare_loop xs ys i used1 used2 ≡ ok r)
      × Orders r (take (used1 - i) xs) (take (used2 - i) ys)
unfolding compare_loop
compare_loop-Orders [] ys i used1 used2 h1 h2 k1 k2 bx by =
    let done : (ltb i used1 && ltb i used2) ≡ false = ground arith in
    rw done (compared_to_end i used1 used2, refl, ended_lem [] ys i used1 used2 done h1 h2 k1 k2)
compare_loop-Orders (x ∷ xs) [] i used1 used2 h1 h2 k1 k2 bx by =
    let done : (ltb i used1 && ltb i used2) ≡ false = ground arith in
    rw done
      (compared_to_end i used1 used2, refl, ended_lem (x ∷ xs) [] i used1 used2 done h1 h2 k1 k2)
compare_loop-Orders (x ∷ xs) (y ∷ ys) i used1 used2 h1 h2 k1 k2 bx by =
    elim (Bool-cases (ltb i used1 && ltb i used2)) [
      | inr done ↦ rw done (
        compared_to_end i used1 used2,
        refl,
        ended_lem (x ∷ xs) (y ∷ ys) i used1 used2 done h1 h2 k1 k2,
      )
      | inl more ↦
          rw
            (
              take_of_pos (used1 - i) x xs (ground arith),
              take_of_pos (used2 - i) y ys (ground arith),
              later1,
              later2,
            )
            (elim (Bool-cases (x == y)) [
              | inl equal ↦
                  let (r, e, o) =
                    compare_loop-Orders xs ys (i + 1) used1 used2 (ground arith) (ground arith)
                      (omega arith) (omega arith) bx.1 by.1 in
                  rw (more, equal) (r, e, Orders-cons x y ((==_iff x y).0 equal) o)
              | inr different ↦
                  rw (more, different)
                    (
                      as_char x -ℤ as_char y,
                      refl,
                      elim (sign_lem x y bx.0 by.0 (ground arith)) [
                        | inl (s, l) ↦ inr (inl (s, differs l))
                        | inr (s, l) ↦ inr (inr (s, differs l))
                      ],
                    )
            ])
    ]
  where
    later1 : used1 - i - 1 ≡ used1 - (i + 1)
    later1 = omega arith

    later2 : used2 - i - 1 ≡ used2 - (i + 1)
    later2 = omega arith

-- On valid strings of bytes, `cstr_compare` returns 0 only if the texts are equal, a negative number
-- only if the first text is the lesser one in the lexicographic order by signed characters, and a
-- positive number only if the second one is.
pub cstr_compare-Orders :
    (c1 c2 : Cstr)
    → IsValid c1
    → IsValid c2
    → AreBytes c1.bytes
    → AreBytes c2.bytes
    → (r : ℤ) × (cstr_compare (some c1) (some c2) ≡ ok r) × Orders r (text c1) (text c2)
unfolding cstr_compare
cstr_compare-Orders c1 c2 v1 v2 b1 b2 =
    let all1 : c1.used - 0 ≡ c1.used = omega arith in
    let all2 : c2.used - 0 ≡ c2.used = omega arith in
    let (r, e, o) =
      compare_loop-Orders c1.bytes c2.bytes 0 c1.used c2.used (omega arith) (omega arith)
        (omega (arith, v1.fits, v1.backed)) (omega (arith, v2.fits, v2.backed)) b1 b2 in
    (
      r,
      e,
      subst (λ (n : ℕ). Orders r (take n c1.bytes) (text c2)) all1
          (subst (λ (n : ℕ). Orders r (take (c1.used - 0) c1.bytes) (take n c2.bytes)) all2 o),
    )
