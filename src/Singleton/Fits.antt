-- ===== src/Singleton/Fits.antt =====
-- What the place of a thread in `Singleton::Instance` says of what is shared.
use tiny_utils.Base.{◌≡◌, ◌⊎◌, Bool, true, false, arith}
use tiny_utils.Singleton.{Singleton, is_made, test_and_set, make, clear}
use tiny_utils.Singleton.Threads.{
  Pc, locked, making, leaving, returning, Effect, Act, sees_made, sees_null, spins, locks,
  finds_made, finds_null, makes, fails, clears, returns, fails_now,
}

-- A thread that has the lock.
abbrev pub holds : Pc → Bool
holds locked = true
holds making = true
holds leaving = true
holds _ = false

abbrev pub is_making : Pc → Bool
is_making making = true
is_making _ = false

-- A thread that has seen the object.
abbrev pub has_seen : Pc → Bool
has_seen leaving = true
has_seen returning = true
has_seen _ = false

-- What a thread's place says of what is shared.
pub record Fits (s : Singleton) (thrown : Bool) (p : Pc) : Type 0 where
  pub shut : holds p ≡ true → s.lock_ ≡ true
  pub unmade : is_making p ≡ true → is_made s ≡ false
  pub seen : has_seen p ≡ true → is_made s ≡ true
  pub broken : thrown ≡ true → (holds p ≡ false) × (s.lock_ ≡ true) × (is_made s ≡ false)

pub Act-Fits :
    {s s' : Singleton} {p p' : Pc} {e : Effect} (thrown : Bool)
    → Act s p e s' p'
    → Fits s thrown p
    → Fits s' (fails_now e thrown) p'
unfolding test_and_set make clear
Act-Fits thrown (sees_made m) f = ground arith
Act-Fits thrown (sees_null m) f = ground arith
Act-Fits thrown (spins m) f = ground arith
Act-Fits thrown (locks m) f = ground arith
Act-Fits thrown (finds_made m) f = ground arith
Act-Fits thrown (finds_null m) f = ground arith
Act-Fits thrown (makes n) f = ground arith
Act-Fits thrown fails f = ground arith
Act-Fits thrown clears f = ground arith
Act-Fits thrown returns f = ground arith

-- Another thread, which does not have the lock when the first one has it.
pub Act-Fits_other :
    {s s' : Singleton} {p p' : Pc} {e : Effect} (thrown : Bool) (q : Pc)
    → Act s p e s' p'
    → (holds p ≡ true → holds q ≡ false)
    → Fits s thrown p
    → Fits s thrown q
    → Fits s' (fails_now e thrown) q
unfolding test_and_set make clear
Act-Fits_other thrown q (sees_made m) alone f g = ground arith
Act-Fits_other thrown q (sees_null m) alone f g = ground arith
Act-Fits_other thrown q (spins m) alone f g = ground arith
Act-Fits_other thrown q (locks m) alone f g = ground arith
Act-Fits_other thrown q (finds_made m) alone f g = ground arith
Act-Fits_other thrown q (finds_null m) alone f g = ground arith
Act-Fits_other thrown q (makes n) alone f g = ground arith
Act-Fits_other thrown q fails alone f g = ground arith
Act-Fits_other thrown q clears alone f g = ground arith
Act-Fits_other thrown q returns alone f g = ground arith

-- The lock stays with one thread.
pub Act-alone :
    {s s' : Singleton} {p p' : Pc} {e : Effect} (thrown : Bool) (q : Pc)
    → Act s p e s' p'
    → (holds p ≡ true → holds q ≡ false)
    → Fits s thrown q
    → holds p' ≡ true
    → holds q ≡ false
unfolding test_and_set make clear
Act-alone thrown q (sees_made m) alone g h = ground arith
Act-alone thrown q (sees_null m) alone g h = ground arith
Act-alone thrown q (spins m) alone g h = ground arith
Act-alone thrown q (locks m) alone g h = ground arith
Act-alone thrown q (finds_made m) alone g h = ground arith
Act-alone thrown q (finds_null m) alone g h = ground arith
Act-alone thrown q (makes n) alone g h = ground arith
Act-alone thrown q fails alone g h = ground arith
Act-alone thrown q clears alone g h = ground arith
Act-alone thrown q returns alone g h = ground arith

pub Act-owner :
    {s s' : Singleton} {p p' : Pc} {e : Effect} (thrown : Bool)
    → Act s p e s' p'
    → fails_now e thrown ≡ false
    → s'.lock_ ≡ true
    → (holds p' ≡ true) ⊎ ((thrown ≡ false) × (s.lock_ ≡ true) × (holds p ≡ false))
unfolding test_and_set make clear
Act-owner thrown (sees_made m) f l = ground arith
Act-owner thrown (sees_null m) f l = ground arith
Act-owner thrown (spins m) f l = ground arith
Act-owner thrown (locks m) f l = ground arith
Act-owner thrown (finds_made m) f l = ground arith
Act-owner thrown (finds_null m) f l = ground arith
Act-owner thrown (makes n) f l = ground arith
Act-owner thrown fails f l = ground arith
Act-owner thrown clears f l = ground arith
Act-owner thrown returns f l = ground arith
