-- ===== src/Base/Totals.antt =====
-- Sums over the threads of a program.
use Prim.Native.Nat.{ℕ, zero, suc, ◌+◌, ◌*◌, ◌≤◌, ◌<◌}
use mathlib.Core.Path.{◌≡◌, refl, sym, ap, ◌∙◌}
use mathlib.Core.Logic.{◌≢◌, ◌⊎◌, inl, inr}
use mathlib.Core.Bool.{false}
use native.Mathlib.Omega.{arith}
use native.Mathlib.Decide.{ℕ_discrete}
use tiny_utils.Base.Tests.{◌==◌, if◌then◌else◌}

abbrev pub total : (ℕ → ℕ) → ℕ → ℕ
total f zero = 0
total f (suc n) = total f n + f n

pub total-same : (f g : ℕ → ℕ) (n : ℕ) → ((j : ℕ) → j < n → f j ≡ g j) → total f n ≡ total g n
total-same f g zero e = refl
total-same f g (suc n) e =
    omega (arith, total-same f g n (λ j h. e j (omega arith)), e n (omega arith))

-- Two sums whose terms differ at `i` alone.
pub total-change :
    (f g : ℕ → ℕ) (n i : ℕ)
    → i < n
    → ((j : ℕ) → j ≢ i → f j ≡ g j)
    → total f n + g i ≡ total g n + f i
total-change f g zero i h e = absurd (omega arith)
total-change f g (suc n) i h e = elim (ℕ_discrete i n) [
  | yes last ↦
      rw last (omega (arith, total-same f g n (λ j small. e j (λ same. omega (arith, same, last)))))
  | no before ↦ omega (arith, total-change f g n i (omega arith) e, e n (λ same. before (sym same)))
]

pub total-const : (c n : ℕ) → total (λ i. c) n ≡ n * c
total-const c zero = omega arith
total-const c (suc n) = omega (arith, total-const c n)

-- A sum is 0, or one of its terms is not.
pub total-cases :
    (f : ℕ → ℕ) (n : ℕ) → ((j : ℕ) → j < n → f j ≡ 0) ⊎ ((j : ℕ) × (j < n) × (0 < f j))
total-cases f zero = inl (λ j h. absurd (omega arith))
total-cases f (suc n) = elim (total-cases f n) [
  | inr (j, h, pos) ↦ inr (j, omega arith, pos)
  | inl all ↦ elim (ℕ_discrete (f n) 0) [
    | no pos ↦ inr (n, omega arith, omega arith)
    | yes none_there ↦ inl (λ j h. elim (ℕ_discrete j n) [
      | yes last ↦ ap f last ∙ none_there
      | no before ↦ all j (omega arith)
    ])
  ]
]

at_most : (f : ℕ → ℕ) (c n : ℕ) → ((j : ℕ) → f j ≤ c) → total f n ≤ n * c
at_most f c zero all = omega arith
at_most f c (suc n) all = omega (arith, at_most f c n all, all n)

-- A sum of terms that are at most `c`, one of them less.
pub total-less : (f : ℕ → ℕ) (c n i : ℕ) → ((j : ℕ) → f j ≤ c) → i < n → f i < c → total f n < n * c
total-less f c zero i all h less = absurd (omega arith)
total-less f c (suc n) i all h less = elim (ℕ_discrete i n) [
  | yes last ↦ omega (arith, at_most f c n all, less, ap f last)
  | no before ↦ omega (arith, total-less f c n i all (omega arith) less, all n)
]

-- Thread `i` moves to the place `p`, the others stay.
abbrev pub moved_at {ℓ} : {A : Type ℓ} → (ℕ → A) → ℕ → A → ℕ → A
moved_at threads i p j = if i == j then p else threads j

pub other_thread : (i k : ℕ) → k ≢ i → (i == k) ≡ false
other_thread i k ne = ground arith

-- A sum over the threads, after one of them has moved.
pub total-moved_at {ℓ} :
    {A : Type ℓ} (f : A → ℕ) (threads : ℕ → A) (i n : ℕ) (p : A)
    → i < n
    → total (λ j. f (moved_at threads i p j)) n + f (threads i) ≡ total (λ j. f (threads j)) n + f p
total-moved_at {A} f threads i n p h =
    total-change (λ j. f (moved_at threads i p j)) (λ j. f (threads j)) n i h
      (λ j ne. rw (other_thread i j ne) refl)
    ∙ ap (λ (q : A). total (λ j. f (threads j)) n + f q) here
  where
    here : moved_at threads i p i ≡ p
    here = ground arith
