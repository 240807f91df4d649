-- ===== src/Singleton.antt =====
-- cpp_utils/singleton.cpp, the class template Singleton of C++11: an instance that is made on the first
-- call, under the spin lock `lock_`. An address is a number, and `nullptr` is `none`.
pub mod Threads
pub mod Fits
pub mod Unique
pub mod Finish
pub mod Once
mod Tests
use tiny_utils.Base.{
  ℕ, zero, suc, Bool, true, false, Option, none, some, List, [], ◌∷◌, Outcome, ok, fault, Fault,
  ◌>>=◌, from_option, if◌then◌else◌,
}

-- The file's `lock_` and the class's `instance_`.
pub record Singleton : Type 0 where
  pub lock_ : Bool
  pub instance_ : Option ℕ

abbrev pub fresh : Singleton
fresh = record { lock_ = false; instance_ = none }

-- `instance_ != nullptr`
abbrev pub is_made : Singleton → Bool
is_made s = elim s.instance_ [ none ↦ false | some p ↦ true ]

-- `lock_.test_and_set()`: what the flag was before.
unfoldable pub test_and_set : Singleton → Singleton × Bool
test_and_set s = (record s { lock_ = true }, s.lock_)

-- `instance_ = new T(...)`, where the new object is at `p`.
unfoldable pub make : ℕ → Singleton → Singleton
make p s = record s { instance_ = some p }

-- `lock_.clear()`
unfoldable pub clear : Singleton → Singleton
clear s = record s { lock_ = false }

-- `while(lock_.test_and_set());`, on fuel.
unfoldable pub spin : ℕ → Singleton → Outcome Singleton
spin zero s = fault Fault.no_fuel
spin (suc fuel) s =
    let (s', held) = test_and_set s in let again = spin fuel s' in if held then again else ok s'

-- What one call of `Instance` does while no other thread runs, and what it returns. The object would be
-- made at `p`; its constructor throws where `p` is `none`.
unfoldable pub instance_of : ℕ → Option ℕ → Singleton → Outcome (Singleton × Option ℕ)
instance_of fuel p s =
    let slow = (do
      s' ← spin fuel s
      made ← (if is_made s' then ok s' else from_option p Fault.exception >>= λ q. ok (make q s'))
      let s'' = clear made
      ok (s'', s''.instance_)) in
    if is_made s then ok (s, s.instance_) else slow

-- `~SingletonCleaner`, with the objects that it deletes.
unfoldable pub clean : Singleton → Singleton × List ℕ
clean s = (record s { instance_ = none }, elim s.instance_ [ none ↦ [] | some p ↦ p ∷ [] ])
