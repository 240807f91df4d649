-- ===== src/Observer.antt =====
-- cpp_utils/observer.cpp, class BaseSubject. An observer is the address of the object; which objects are
-- alive is a test of addresses. `Update` is virtual: it is a parameter, a change of some state.
pub mod Registered
pub mod Destroyed
mod Tests
use tiny_utils.Base.{
  ℕ, zero, suc, ◌+◌, ◌-◌, ◌*◌, ◌%◌, ◌^◌, ◌≤◌, ◌<◌, ◌≡◌, ◌≢◌, ◌↔◌, ◌⊎◌, inl, inr, min, refl, sym, ap,
  ◌∙◌, subst, Bool, true, false, not, Option, none, some, List, [], ◌∷◌, ◌++◌, map, length, take,
  drop, set, replicate, get_or, get_elem?, Outcome, ok, fault, Fault, ◌>>=◌, from_option, load,
  store, ltb, leb, ◌==◌, ◌||◌, ◌&&◌, if◌then◌else◌, arith, length-append, length-take, length-drop,
  length-set, length-replicate, take-append-drop, take-append, drop-append, take-append_le,
  take-append_ge, take-take, take-set_le, load_lem, store_lem, Bool-cases, Option-cases, ltb→lt,
  lt→ltb, leb→le, ==_iff,
}

pub record BaseSubject : Type 0 where
  pub observers : List ℕ
  pub max_observer_size : ℕ

abbrev pub create : ℕ → BaseSubject
create max_observer_size = record { observers = []; max_observer_size = max_observer_size }

unfoldable pub add_observer : ℕ → BaseSubject → Bool × BaseSubject
add_observer p s =
    if leb s.max_observer_size (length s.observers)
    then (false, s)
    else (true, record s { observers = s.observers ++ (p ∷ []) })

-- `std::find`, as a test.
unfoldable pub contains : ℕ → List ℕ → Bool
contains p [] = false
contains p (q ∷ rest) = if p == q then true else contains p rest

-- `list::remove` takes every occurrence out.
unfoldable pub remove : ℕ → List ℕ → List ℕ
remove p [] = []
remove p (q ∷ rest) = if p == q then remove p rest else q ∷ remove p rest

unfoldable pub remove_observer : ℕ → BaseSubject → BaseSubject
remove_observer p s = record s { observers = remove p s.observers }

unfoldable pub remove_observer_if_exists : ℕ → BaseSubject → Bool × BaseSubject
remove_observer_if_exists p s =
    if length s.observers == 0
    then (false, s)
    else if not (contains p s.observers)
    then (false, s)
    else (true, remove_observer p s)

module _ {W : Type 0} (update : ℕ → W → W) where
  unfoldable pub notify_one : ℕ → BaseSubject → W → Bool × W
  notify_one p s w =
      if length s.observers == 0
      then (false, w)
      else if not (contains p s.observers)
      then (false, w)
      else (true, update p w)

  unfoldable pub notify_from : List ℕ → W → W
  notify_from [] w = w
  notify_from (p ∷ rest) w = notify_from rest (update p w)

  unfoldable pub notify_all : BaseSubject → W → W
  notify_all s w = notify_from s.observers w

-- `delete p`
unfoldable pub delete : ℕ → (ℕ → Bool) → Outcome (ℕ → Bool)
delete p alive =
    if alive p then ok (λ q. if p == q then false else alive q) else fault Fault.out_of_bounds

-- The loop of the destructor, which goes from the back: what is behind the first observer is deleted
-- before it.
unfoldable pub delete_from_back : List ℕ → (ℕ → Bool) → Outcome (ℕ → Bool)
delete_from_back [] alive = ok alive
delete_from_back (p ∷ rest) alive = do alive' ← delete_from_back rest alive; delete p alive'

unfoldable pub destroy : BaseSubject → (ℕ → Bool) → Outcome (ℕ → Bool)
destroy s alive = delete_from_back s.observers alive
