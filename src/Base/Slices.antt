-- ===== src/Base/Slices.antt =====
-- Prefixes of lists that are put together or written to.
use Prim.Native.Nat.{ℕ, zero, suc, ◌-◌, ◌≤◌, ◌<◌, min}
use mathlib.Core.Path.{◌≡◌, refl, ap, sym, ◌∙◌}
use mathlib.Core.List.{List, [], ◌∷◌, ◌++◌}
use native.Mathlib.Omega.{arith}
use tiny_utils.Base.Lists.{length, take, drop, set, get_or, take-nil, drop-nil}

module _ {ℓ} {A : Type ℓ} where
  pub take-append_le : (k : ℕ) (xs ys : List A) → k ≤ length xs → take k (xs ++ ys) ≡ take k xs
  take-append_le zero xs ys h = refl
  take-append_le (suc k) [] ys h = absurd (omega arith)
  take-append_le (suc k) (x ∷ xs) ys h = ap (λ t. x ∷ t) (take-append_le k xs ys (omega arith))

  pub take-append_ge :
      (k : ℕ) (xs ys : List A) → length xs ≤ k → take k (xs ++ ys) ≡ xs ++ take (k - length xs) ys
  take-append_ge k [] ys h = ap (λ j. take j ys) (omega arith)
  take-append_ge zero (x ∷ xs) ys h = absurd (omega arith)
  take-append_ge (suc k) (x ∷ xs) ys h =
      ap (λ t. x ∷ t)
        (take-append_ge k xs ys (omega arith) ∙ ap (λ j. xs ++ take j ys) (omega arith))

  pub take-take : (k n : ℕ) (xs : List A) → k ≤ n → take k (take n xs) ≡ take k xs
  take-take zero n xs h = refl
  take-take (suc k) zero xs h = absurd (omega arith)
  take-take (suc k) (suc n) [] h = refl
  take-take (suc k) (suc n) (x ∷ xs) h = ap (λ t. x ∷ t) (take-take k n xs (omega arith))

  pub take-set_le : (k i : ℕ) (xs : List A) (v : A) → k ≤ i → take k (set xs i v) ≡ take k xs
  take-set_le zero i xs v h = refl
  take-set_le (suc k) i [] v h = refl
  take-set_le (suc k) zero (x ∷ xs) v h = absurd (omega arith)
  take-set_le (suc k) (suc i) (x ∷ xs) v h = ap (λ t. x ∷ t) (take-set_le k i xs v (omega arith))

  pub take_whole : (xs : List A) → take (length xs) xs ≡ xs
  take_whole [] = refl
  take_whole (x ∷ xs) = ap (λ t. x ∷ t) (take_whole xs)

  take-take-min : (k n : ℕ) (xs : List A) → take (min k (n - 0)) xs ≡ take k (take n xs)
  take-take-min zero n xs =
      let none_left : min 0 (n - 0) ≡ 0 = omega arith in ap (λ (j : ℕ). take j xs) none_left
  take-take-min (suc k) zero xs =
      let none_left : min (suc k) (0 - 0) ≡ 0 = omega arith in ap (λ (j : ℕ). take j xs) none_left
  take-take-min (suc k) (suc n) [] = take-nil _
  take-take-min (suc k) (suc n) (x ∷ xs) =
      let one_more : min (suc k) (suc n - 0) ≡ suc (min k (n - 0)) = omega arith in
      ap (λ (j : ℕ). take j (x ∷ xs)) one_more ∙ ap (λ t. x ∷ t) (take-take-min k n xs)

  -- A part of a prefix.
  pub take-drop_of_take :
      (k i n : ℕ) (xs : List A) → take (min k (n - i)) (drop i xs) ≡ take k (drop i (take n xs))
  take-drop_of_take k i zero xs =
      let none_left : min k (0 - i) ≡ 0 = omega arith in
      ap (λ (j : ℕ). take j (drop i xs)) none_left
      ∙ sym (ap (λ (t : List A). take k t) (drop-nil i) ∙ take-nil k)
  take-drop_of_take k zero (suc n) xs = take-take-min k (suc n) xs
  take-drop_of_take k (suc i) (suc n) [] = take-nil _ ∙ sym (take-nil k)
  take-drop_of_take k (suc i) (suc n) (x ∷ xs) =
      (let less : suc n - suc i ≡ n - i = omega arith in
        ap (λ (j : ℕ). take (min k j) (drop i xs)) less)
      ∙ take-drop_of_take k i n xs

  pub drop-take : (i n : ℕ) (xs : List A) → take (n - i) (drop i xs) ≡ drop i (take n xs)
  drop-take zero n xs = let all : n - 0 ≡ n = omega arith in ap (λ (j : ℕ). take j xs) all
  drop-take (suc i) zero xs =
      let none_left : 0 - suc i ≡ 0 = omega arith in
      ap (λ (j : ℕ). take j (drop (suc i) xs)) none_left
  drop-take (suc i) (suc n) [] = take-nil _
  drop-take (suc i) (suc n) (x ∷ xs) =
      let less : suc n - suc i ≡ n - i = omega arith in
      ap (λ (j : ℕ). take j (drop i xs)) less ∙ drop-take i n xs

module _ {ℓ} {A : Type ℓ} where
  pub get_or-take :
      (n : ℕ) (xs : List A) (k : ℕ) (d : A) → k < n → get_or (take n xs) k d ≡ get_or xs k d
  get_or-take zero xs k d h = absurd (omega arith)
  get_or-take (suc n) [] k d h = refl
  get_or-take (suc n) (x ∷ xs) zero d h = refl
  get_or-take (suc n) (x ∷ xs) (suc k) d h = get_or-take n xs k d (omega arith)

  -- Two lists with the same values in the same places are the same.
  pub get_or_ext :
      (xs ys : List A) (d : A)
      → length xs ≡ length ys
      → ((k : ℕ) → k < length xs → get_or xs k d ≡ get_or ys k d)
      → xs ≡ ys
  get_or_ext [] [] d e all = refl
  get_or_ext [] (y ∷ ys) d e all = absurd (omega arith)
  get_or_ext (x ∷ xs) [] d e all = absurd (omega arith)
  get_or_ext (x ∷ xs) (y ∷ ys) d e all =
      cc (all 0 (omega arith), get_or_ext xs ys d (omega arith) (λ k h. all (suc k) (omega arith)))
