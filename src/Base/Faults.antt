-- ===== src/Base/Faults.antt =====
-- The result of C or C++ code that may do what the language leaves undefined.
use Prim.Native.Nat.{ℕ, zero, suc, ◌<◌, ◌≤◌}
use mathlib.Core.Path.{◌≡◌, refl}
use mathlib.Core.Logic.{◌⊎◌, inl, inr}
use mathlib.Core.Bool.{Bool, true, false}
use mathlib.Core.Option.{Option, none, some}
use mathlib.Core.List.{List, [], ◌∷◌}
use native.Mathlib.Omega.{arith}
use tiny_utils.Base.Lists.{length, get_elem?, get_or, set}
use tiny_utils.Base.Tests.{ltb, if◌then◌else◌}

-- A failed `assert`, an access outside an object, a null pointer used, a C++ exception that leaves
-- the function, or a loop that the fuel of the model does not see to its end.
pub data Fault : Type 0 where
  assertion out_of_bounds null_pointer exception no_fuel : Fault

pub data Outcome {ℓ} (A : Type ℓ) : Type ℓ where
  ok : A → Outcome A
  fault : Fault → Outcome A

infixl 5 ◌>>=◌ ◌>>◌
abbrev pub ◌>>=◌ {ℓ κ} : {A : Type ℓ} {B : Type κ} → Outcome A → (A → Outcome B) → Outcome B
ok a >>= f = f a
fault e >>= f = fault e

abbrev pub ◌>>◌ {ℓ} : {B : Type ℓ} → Outcome (Unit {0}) → Outcome B → Outcome B
m >> k = m >>= λ _. k

abbrev pub check : Bool → Fault → Outcome (Unit {0})
check true e = ok tt
check false e = fault e

abbrev pub from_option {ℓ} : {A : Type ℓ} → Option A → Fault → Outcome A
from_option none e = fault e
from_option (some a) e = ok a

module _ {ℓ} {A : Type ℓ} where
  -- `a[i]`
  abbrev pub load : List A → ℕ → Outcome A
  load xs i = from_option (get_elem? xs i) Fault.out_of_bounds

  -- `a[i] = v`
  abbrev pub store : List A → ℕ → A → Outcome (List A)
  store xs i v = if ltb i (length xs) then ok (set xs i v) else fault Fault.out_of_bounds

  pub load_lem : (xs : List A) (i : ℕ) (d : A) → i < length xs → load xs i ≡ ok (get_or xs i d)
  load_lem [] i d h = absurd (omega arith)
  load_lem (x ∷ xs) zero d h = refl
  load_lem (x ∷ xs) (suc i) d h = load_lem xs i d (omega arith)

  pub store_lem : (xs : List A) (i : ℕ) (v : A) → i < length xs → store xs i v ≡ ok (set xs i v)
  store_lem xs i v h = ground arith

  pub load-fault : (xs : List A) (i : ℕ) → length xs ≤ i → load xs i ≡ fault Fault.out_of_bounds
  load-fault [] i h = refl
  load-fault (x ∷ xs) zero h = absurd (omega arith)
  load-fault (x ∷ xs) (suc i) h = load-fault xs i (omega arith)

pub Outcome-cases {ℓ} :
    {A : Type ℓ} (o : Outcome A) → ((a : A) × (o ≡ ok a)) ⊎ ((f : Fault) × (o ≡ fault f))
Outcome-cases (ok a) = inl (a, refl)
Outcome-cases (fault f) = inr (f, refl)
