-- ===== src/Observer/Registered.antt =====
-- Which observers a subject has after its calls.
use tiny_utils.Base.{
  ℕ, ◌+◌, ◌≤◌, ◌<◌, ◌≡◌, ◌↔◌, inl, inr, refl, sym, ap, ◌∙◌, true, List, [], ◌∷◌, length, ltb, ◌==◌,
  if◌then◌else◌, arith, Bool-cases, ==_iff,
}
use tiny_utils.Observer.{
  BaseSubject, contains, remove, remove_observer, remove_observer_if_exists, notify_one,
}

-- How often an observer is registered.
abbrev pub count : ℕ → List ℕ → ℕ
count x [] = 0
count x (y ∷ ys) = (if x == y then 1 else 0) + count x ys

abbrev pub registered : ℕ → BaseSubject → ℕ
registered x s = count x s.observers

contains_iff : (p : ℕ) (xs : List ℕ) → (contains p xs ≡ true) ↔ (0 < count p xs)
unfolding contains
contains_iff p [] = (λ e. absurd (ground arith), λ h. absurd (omega arith))
contains_iff p (q ∷ rest) = let (f, g) = contains_iff p rest in ground arith

count-remove : (p x : ℕ) (xs : List ℕ) → count x (remove p xs) ≡ (if p == x then 0 else count x xs)
unfolding remove
count-remove p x [] = ground arith
count-remove p x (q ∷ rest) = let h = count-remove p x rest in ground arith

count-length : (x : ℕ) (xs : List ℕ) → count x xs ≤ length xs
count-length x [] = omega arith
count-length x (y ∷ ys) = let k = count-length x ys in ground arith

absent_lem :
    (p x : ℕ) (xs : List ℕ) → count p xs ≡ 0 → count x xs ≡ (if p == x then 0 else count x xs)
absent_lem p x xs e = elim (Bool-cases (p == x)) [
  | inl same ↦ rw same (ap (λ (y : ℕ). count y xs) (sym ((==_iff p x).0 same)) ∙ e)
  | inr other ↦ rw other refl
]

-- `RemoveObserverIfExists` returns true exactly when the observer is registered, and so does
-- `NotifyOne`, which calls `Update` then and only then; after `RemoveObserverIfExists` the observer is not
-- registered, and every other one as often as before.
remove_and_notify_lem :
    {W : Type 0} (update : ℕ → W → W) (w : W) (p : ℕ) (s : BaseSubject)
    → ((remove_observer_if_exists p s).0 ≡ true ↔ (0 < registered p s))
      × ((notify_one update p s w).0 ≡ true ↔ (0 < registered p s))
      × ((notify_one update p s w).1 ≡ (if ltb 0 (registered p s) then update p w else w))
      × ((x : ℕ)
          → registered x (remove_observer_if_exists p s).1 ≡ (if p == x then 0 else registered x s))
unfolding remove_observer_if_exists remove_observer notify_one
remove_and_notify_lem update w p s = elim (Bool-cases (length s.observers == 0)) [
  | inl none_there ↦
      let absent : registered p s ≡ 0 = ground (arith, count-length p s.observers) in
      rw (none_there, absent)
        (
          (λ e. cc, λ h. absurd (omega arith)),
          (λ e. cc, λ h. absurd (omega arith)),
          refl,
          λ x. absent_lem p x s.observers absent,
        )
  | inr more ↦ elim (Bool-cases (contains p s.observers)) [
    | inl found ↦
        let present : 0 < registered p s = (contains_iff p s.observers).0 found in
        let test : ltb 0 (registered p s) ≡ true = ground arith in
        rw (more, found, test)
          (
            (λ e. present, λ h. refl),
            (λ e. present, λ h. refl),
            refl,
            λ x. count-remove p x s.observers,
          )
    | inr missing ↦
        let absent : registered p s ≡ 0 = ground (arith, (contains_iff p s.observers).1) in
        rw (more, missing, absent)
          (
            (λ e. cc, λ h. absurd (omega arith)),
            (λ e. cc, λ h. absurd (omega arith)),
            refl,
            λ x. absent_lem p x s.observers absent,
          )
  ]
]
