-- ===== src/Singleton/Tests.antt =====
-- Runs of cpp_utils/singleton.cpp, and the theorems at concrete states.
use tiny_utils.Base.{
  ℕ, ◌≡◌, ◌≢◌, ◌⊎◌, refl, Bool, true, false, none, some, [], ◌∷◌, length, replicate, ok, fault,
  Fault, arith,
}
use tiny_utils.Singleton.{Singleton, fresh, test_and_set, make, clear, spin, instance_of, clean}
use tiny_utils.Singleton.Threads.{
  idle, spinning, locked, making, leaving, returning, quiet, new, throws, answer, sees_null, locks,
  finds_null, makes, fails, clears, returns, System, moved_to, act, Steps, none_left, Reach, start,
  later, begun,
}
use tiny_utils.Singleton.Unique.{one_instance, throw_blocks}
use tiny_utils.Singleton.Finish.{Returned, can_finish}
use tiny_utils.Singleton.Once.{
  PthreadOnce, Instances, no_instance, once_calls, calls, versions_agree,
}

first_call :
    instance_of 1 (some 8) fresh ≡ ok (record { lock_ = false; instance_ = some 8 }, some 8)
unfolding instance_of spin test_and_set make clear
first_call = refl

constructor_throws : instance_of 1 none fresh ≡ fault Fault.exception
unfolding instance_of spin test_and_set make clear
constructor_throws = refl

abbrev shut : Singleton
shut = record { lock_ = true; instance_ = none }

abbrev there : Singleton
there = record { lock_ = true; instance_ = some 8 }

-- Threads 0 and 1 have seen no object, and thread 0 has the lock and is about to make one.
abbrev two_callers : System
two_callers =
    moved_to
      (moved_to (moved_to (moved_to begun 0 quiet fresh spinning) 1 quiet fresh spinning) 0 quiet
        shut locked)
      0 quiet shut making

two_callers-Reach : Reach two_callers
unfolding test_and_set
two_callers-Reach =
    later
      (later (later (later start (act 0 (sees_null refl))) (act 1 (sees_null refl)))
        (act 0 (locks refl)))
      (act 0 (finds_null refl))

-- Thread 0 has made the object at 8 and has returned it.
abbrev one_returned : System
one_returned =
    moved_to
      (moved_to (moved_to two_callers 0 (new 8) there leaving) 0 quiet
        (record { lock_ = false; instance_ = some 8 }) returning)
      0 (answer (some 8)) (record { lock_ = false; instance_ = some 8 }) idle

one_returned-Reach : Reach one_returned
unfolding make clear
one_returned-Reach =
    later (later (later two_callers-Reach (act 0 (makes 8))) (act 0 clears)) (act 0 returns)

-- The constructor has thrown in thread 0.
abbrev has_thrown : System
has_thrown = moved_to two_callers 0 throws shut idle

has_thrown-Reach : Reach has_thrown
has_thrown-Reach = later two_callers-Reach (act 0 fails)

one_instance_example :
    (((one_returned.made ≡ []) × (one_returned.returned ≡ []))
      ⊎ ((p : ℕ) × (one_returned.made ≡ p ∷ [])
          × (one_returned.returned ≡ replicate (length one_returned.returned) (some p))))
    × ((clean one_returned.shared).1 ≡ one_returned.made)
    × ((clean one_returned.shared).0.instance_ ≡ none)
one_instance_example = one_instance one_returned one_returned-Reach

waits : two_callers.threads 1 ≢ idle
waits e = cc

can_finish_example : (t : System) × Steps two_callers t × Returned two_callers 1 t
can_finish_example = can_finish 8 1 two_callers two_callers-Reach refl waits

throw_blocks_example :
    (has_thrown.shared.lock_ ≡ true)
    × (has_thrown.returned ≡ [])
    × (has_thrown.made ≡ [])
    × ((i : ℕ) → (has_thrown.threads i ≡ idle) ⊎ (has_thrown.threads i ≡ spinning))
throw_blocks_example = throw_blocks has_thrown has_thrown has_thrown-Reach refl none_left

-- A control that remembers whether it was called.
once_by_flag : {S : Type 0} → Bool → (S → S) → S → Bool × S
once_by_flag true f s = (true, s)
once_by_flag false f s = (true, f s)

again_by_flag : {S : Type 0} (c : Bool) (f : S → S) (s : S) → c ≡ true → (once_by_flag c f s).1 ≡ s
unfolding once_by_flag
again_by_flag true f s e = refl
again_by_flag false f s e = cc

flag_stays : {S : Type 0} (c : Bool) (f : S → S) (s : S) → c ≡ true → (once_by_flag c f s).0 ≡ true
unfolding once_by_flag
flag_stays true f s e = refl
flag_stays false f s e = cc

flag : PthreadOnce Instances
unfolding once_by_flag
flag = record {
  Control = Bool;
  once_init = false;
  Done = λ c. c ≡ true;
  call = once_by_flag;
  first = λ f s. refl;
  first-Done = λ f s. refl;
  again = again_by_flag;
  again-Done = flag_stays;
}

versions_agree_example :
    calls 1 (8 ∷ 24 ∷ []) fresh
    ≡ ok (
      record {
        lock_ = false;
        instance_ = (once_calls flag (8 ∷ 24 ∷ []) flag.once_init no_instance).0.instance_;
      },
      (once_calls flag (8 ∷ 24 ∷ []) flag.once_init no_instance).1,
    )
versions_agree_example = versions_agree flag 1 (8 ∷ 24 ∷ []) (omega arith)

both_return_the_first :
    calls 1 (8 ∷ 24 ∷ []) fresh
    ≡ ok (record { lock_ = false; instance_ = some 8 }, some 8 ∷ some 8 ∷ [])
unfolding calls instance_of spin test_and_set make clear
both_return_the_first = refl
