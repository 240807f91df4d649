-- ===== src/Observer/Tests.antt =====
-- Runs of cpp_utils/observer.cpp, and the theorems at concrete subjects.
use tiny_utils.Base.{ℕ, ◌≡◌, ◌↔◌, refl, Bool, true, [], ◌∷◌, ◌++◌, ok, fault, Fault, ◌==◌, ◌&&◌}
use tiny_utils.Observer.{
  BaseSubject, create, add_observer, notify_all, notify_from, delete, delete_from_back, destroy,
}
use tiny_utils.Observer.Registered.{registered}
use tiny_utils.Observer.Destroyed.{EachOnce, destructor_lem}

-- Observers 5 and 6.
abbrev two : BaseSubject
unfolding add_observer
two = (add_observer 6 (add_observer 5 (create 10)).1).1

notifies_in_order : notify_all (λ p w. w ++ (p ∷ [])) two [] ≡ 5 ∷ 6 ∷ []
unfolding notify_all notify_from add_observer
notifies_in_order = refl

-- An observer that is added twice is deleted twice.
deletes_twice :
    destroy (add_observer 5 (add_observer 5 (create 10)).1).1 (λ q. true)
    ≡ fault Fault.out_of_bounds
unfolding destroy delete_from_back delete add_observer
deletes_twice = refl

destructor_lem_example :
    ((alive' : ℕ → Bool) × (destroy two (λ q. true) ≡ ok alive')
      × ((x : ℕ) → alive' x ≡ (true && registered x two == 0)))
    ↔ EachOnce two.observers (λ q. true)
destructor_lem_example = destructor_lem two (λ q. true)
