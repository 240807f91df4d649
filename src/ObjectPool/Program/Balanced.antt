-- ===== src/ObjectPool/Program/Balanced.antt =====
-- Where the objects of the program of cpp_utils/object_pool.cpp are, and which steps are left.
use tiny_utils.Base.{
  ℕ, suc, ◌+◌, ◌<◌, ◌≡◌, refl, ap, Bool, true, false, Option, none, some, List, [], ◌∷◌, length,
  length-append, arith, ◌==◌, if◌then◌else◌,
}
use tiny_utils.ObjectPool.{ObjectPool, take_one, give_back}
use tiny_utils.ObjectPool.Bags.{count, count-append}
use tiny_utils.ObjectPool.Program.{
  Pc, entered, has_one, has_two, printed, pushing_second, gave_second, pushing_first, starts_second,
  starts_first, returned, crashed, Act, takes_first, takes_second, prints, prints_null,
  prints_null_second, gives_second, gives_first,
}

-- How many objects a thread has, and how often it has the object `x`.
abbrev pub one : Option ℕ → ℕ
one none = 0
one (some a) = 1

abbrev pub holds : Pc → ℕ
holds (has_one a) = one a
holds (has_two a b) = one a + one b
holds (printed a b) = 2
holds (pushing_second a b) = 2
holds (gave_second a) = 1
holds (pushing_first a) = 1
holds _ = 0

abbrev pub same : ℕ → Option ℕ → ℕ
same x none = 0
same x (some a) = if x == a then 1 else 0

abbrev pub holds_it : ℕ → Pc → ℕ
holds_it x (has_one a) = same x a
holds_it x (has_two a b) = same x a + same x b
holds_it x (printed a b) = same x (some a) + same x (some b)
holds_it x (pushing_second a b) = same x (some a) + same x (some b)
holds_it x (gave_second a) = same x (some a)
holds_it x (pushing_first a) = same x (some a)
holds_it x _ = 0

-- The steps that are left.
abbrev pub todo : Pc → ℕ
todo entered = 7
todo (has_one a) = 6
todo (has_two a b) = 5
todo (printed a b) = 4
todo (pushing_second a b) = 3
todo (gave_second a) = 2
todo (pushing_first a) = 1
todo returned = 0
todo crashed = 0

-- No pointer is null.
abbrev pub Sound : Pc → Type 0
Sound (has_one a) = one a ≡ 1
Sound (has_two a b) = (one a ≡ 1) × (one b ≡ 1)
Sound crashed = ⊥
Sound _ = Unit

abbrev pub takes_now : Pc → Bool
takes_now entered = true
takes_now (has_one a) = true
takes_now _ = false

take_one-some :
    (p : ObjectPool)
    → 0 < length p.pool
    → (a : ℕ) × (take_one p ≡ (some a, (take_one p).1)) × (p.pool ≡ a ∷ (take_one p).1.pool)
unfolding take_one
take_one-some p more = pool_cases p.pool refl
  where
    pool_cases :
        (xs : List ℕ)
        → p.pool ≡ xs
        → (a : ℕ) × (take_one p ≡ (some a, (take_one p).1)) × (p.pool ≡ a ∷ (take_one p).1.pool)
    pool_cases [] e = absurd (omega (arith, more, ap length e))
    pool_cases (a ∷ rest) e = rw e (a, refl, refl)

module _ {p : ObjectPool} where
  pub Act-Sound :
      {q : Pc} {p' : ObjectPool} {q' : Pc}
      → Act p q p' q'
      → (takes_now q ≡ true → 0 < length p.pool)
      → Sound q
      → Sound q'
  Act-Sound takes_first f s = let (a, e, e') = take_one-some p (f refl) in ap one (ap (λ r. r.0) e)
  Act-Sound (takes_second a) f s =
      let (b, e, e') = take_one-some p (f refl) in (s, ap one (ap (λ r. r.0) e))
  Act-Sound (prints a b) f s = tt
  Act-Sound (prints_null b) f s = absurd (omega (arith, s.0))
  Act-Sound (prints_null_second a) f s = absurd (omega (arith, s.1))
  Act-Sound (starts_second a b) f s = tt
  Act-Sound (starts_first a) f s = tt
  Act-Sound (gives_second a b) f s = tt
  Act-Sound (gives_first a) f s = tt

  pub Act-holds :
      {q : Pc} {p' : ObjectPool} {q' : Pc}
      → Act p q p' q'
      → (takes_now q ≡ true → 0 < length p.pool)
      → Sound q
      → length p'.pool + holds q' ≡ length p.pool + holds q
  unfolding take_one give_back
  Act-holds takes_first f s = ground arith
  Act-holds (takes_second a) f s = ground arith
  Act-holds (prints a b) f s = refl
  Act-holds (prints_null b) f s = absurd (omega (arith, s.0))
  Act-holds (prints_null_second a) f s = absurd (omega (arith, s.1))
  Act-holds (starts_second a b) f s = refl
  Act-holds (starts_first a) f s = refl
  Act-holds (gives_second a b) f s = omega (arith, length-append p.pool (b ∷ []))
  Act-holds (gives_first a) f s = omega (arith, length-append p.pool (a ∷ []))

  pub Act-holds_it :
      (x : ℕ) {q : Pc} {p' : ObjectPool} {q' : Pc}
      → Act p q p' q'
      → (takes_now q ≡ true → 0 < length p.pool)
      → Sound q
      → count x p'.pool + holds_it x q' ≡ count x p.pool + holds_it x q
  unfolding take_one give_back
  Act-holds_it x takes_first f s = ground arith
  Act-holds_it x (takes_second a) f s = ground arith
  Act-holds_it x (prints a b) f s = refl
  Act-holds_it x (prints_null b) f s = absurd (omega (arith, s.0))
  Act-holds_it x (prints_null_second a) f s = absurd (omega (arith, s.1))
  Act-holds_it x (starts_second a b) f s = refl
  Act-holds_it x (starts_first a) f s = refl
  Act-holds_it x (gives_second a b) f s = omega (arith, count-append x p.pool (b ∷ []))
  Act-holds_it x (gives_first a) f s = omega (arith, count-append x p.pool (a ∷ []))

  pub Act-todo :
      {q : Pc} {p' : ObjectPool} {q' : Pc} → Act p q p' q' → Sound q → todo q ≡ suc (todo q')
  Act-todo takes_first s = refl
  Act-todo (takes_second a) s = refl
  Act-todo (prints a b) s = refl
  Act-todo (prints_null b) s = absurd (omega (arith, s.0))
  Act-todo (prints_null_second a) s = absurd (omega (arith, s.1))
  Act-todo (starts_second a b) s = refl
  Act-todo (starts_first a) s = refl
  Act-todo (gives_second a b) s = refl
  Act-todo (gives_first a) s = refl
