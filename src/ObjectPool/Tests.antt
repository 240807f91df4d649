-- ===== src/ObjectPool/Tests.antt =====
-- Runs of cpp_utils/object_pool.cpp, and the theorems at a concrete run.
use mathlib.Mathlib.Data.Multiset.Defs.{of_list}
use mathlib.Mathlib.Data.Multiset.AddSub.{add}
use tiny_utils.Base.{◌≡◌, ◌↔◌, refl, false, none, [], ◌∷◌, length, replicate}
use tiny_utils.ObjectPool.{create, init, take_one, give_back, add_one, size}
use tiny_utils.ObjectPool.Conserved.{System, Reach, start, later, inits, takes, never_lost}

-- Eleven objects are refused, although the call allows twenty.
refuses_eleven : (init (replicate 11 7) 20 create).0 ≡ false
unfolding init
refuses_eleven = refl

-- A full pool, one object borrowed, another added, and the first one given back: eleven objects.
exceeds_limit :
    size (give_back 7 (add_one 8 (take_one (init (replicate 10 7) 10 create).1).1).1) ≡ 11
unfolding init take_one add_one give_back size
exceeds_limit = refl

abbrev one_taken : (s : System) × Reach s
unfolding init take_one
one_taken = (_, later (later start (inits (5 ∷ 6 ∷ []) 10 refl refl)) (takes refl))

never_lost_example :
    (add (of_list one_taken.0.pool.pool) (of_list one_taken.0.held) ≡ of_list one_taken.0.put_in)
    × (((take_one one_taken.0.pool).0 ≡ none)
        ↔ (length one_taken.0.held ≡ length one_taken.0.put_in))
never_lost_example = never_lost one_taken.1
