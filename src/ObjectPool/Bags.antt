-- ===== src/ObjectPool/Bags.antt =====
-- The objects of a list without their order.
use mathlib.Core.List.{Perm, perm_middle}
use mathlib.Core.List.Perm
use mathlib.Core.Quot.{sound}
use mathlib.Mathlib.Data.Multiset.Defs.{of_list}
use tiny_utils.Base.{
  ℕ, ◌+◌, ◌<◌, ◌≡◌, refl, sym, ap, subst, List, [], ◌∷◌, ◌++◌, ◌==◌, ==_iff, Bool-cases, inl, inr,
  if◌then◌else◌, arith,
}

-- How often an object stands in a list.
abbrev pub count : ℕ → List ℕ → ℕ
count x [] = 0
count x (y ∷ ys) = (if x == y then 1 else 0) + count x ys

pub count-append : (x : ℕ) (xs ys : List ℕ) → count x (xs ++ ys) ≡ count x xs + count x ys
count-append x [] ys = omega arith
count-append x (y ∷ xs) ys = omega (arith, count-append x xs ys)

-- Where an object stands that a list has.
found :
    (x : ℕ) (ys : List ℕ)
    → 0 < count x ys
    → (before : List ℕ) × (after : List ℕ) × (ys ≡ before ++ (x ∷ after))
found x [] h = absurd (omega arith)
found x (y ∷ ys) h = elim (Bool-cases (x == y)) [
  | inl same ↦ ([], ys, ap (λ (z : ℕ). z ∷ ys) (sym ((==_iff x y).0 same)))
  | inr other ↦
      let (before, after, e) = found x ys (ground arith) in
      (y ∷ before, after, ap (λ (zs : List ℕ). y ∷ zs) e)
]

count-head : (x : ℕ) (xs : List ℕ) → 0 < count x (x ∷ xs)
count-head x xs = ground (arith, (==_iff x x).1 refl)

same_counts : (xs ys : List ℕ) → ((x : ℕ) → count x xs ≡ count x ys) → Perm xs ys
same_counts [] [] h = Perm.refl []
same_counts [] (y ∷ ys) h = absurd (omega (arith, h y, count-head y ys))
same_counts (x ∷ xs) ys h =
    let (before, after, e) = found x ys (omega (arith, h x, count-head x xs)) in
    let rest : (z : ℕ) → count z xs ≡ count z (before ++ after) = λ z. omega (
      arith,
      h z,
      ap (count z) e,
      count-append z before (x ∷ after),
      count-append z before after,
    ) in
    subst (λ (zs : List ℕ). Perm (x ∷ xs) zs) (sym e)
      (Perm.trans (Perm.cons x (same_counts xs (before ++ after) rest))
        (Perm.symm (perm_middle before after)))

-- Lists with the same counts are the same bag.
pub of_list-count : (xs ys : List ℕ) → ((x : ℕ) → count x xs ≡ count x ys) → of_list xs ≡ of_list ys
of_list-count xs ys h = sound (same_counts xs ys h)
