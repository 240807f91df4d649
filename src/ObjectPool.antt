-- ===== src/ObjectPool.antt =====
-- cpp_utils/object_pool.cpp, class ObjectPool (the C++11 version): a bounded queue of objects that
-- clients borrow. An object is its address. A call is a function on the pool, and so is
-- what the deleter of a borrowed object does; it takes no mutex, and Program says when it may run.
pub mod Bags
pub mod Conserved
pub mod Program
mod Tests
use tiny_utils.Base.{
  ℕ, zero, suc, ◌+◌, ◌-◌, ◌*◌, ◌%◌, ◌^◌, ◌≤◌, ◌<◌, ◌≡◌, ◌≢◌, ◌↔◌, ◌⊎◌, inl, inr, min, refl, sym, ap,
  ◌∙◌, subst, Bool, true, false, not, Option, none, some, List, [], ◌∷◌, ◌++◌, map, length, take,
  drop, set, replicate, get_or, get_elem?, Outcome, ok, fault, Fault, ◌>>=◌, from_option, load,
  store, ltb, leb, ◌==◌, ◌||◌, ◌&&◌, if◌then◌else◌, arith, length-append, length-take, length-drop,
  length-set, length-replicate, take-append-drop, take-append, drop-append, take-append_le,
  take-append_ge, take-take, take-set_le, load_lem, store_lem, Bool-cases, Option-cases, ltb→lt,
  lt→ltb, leb→le, ==_iff,
}

pub record ObjectPool : Type 0 where
  pub pool : List ℕ
  pub max_pool_size : ℕ
  pub inited : Bool

-- The default constructor.
abbrev pub create : ObjectPool
create = record { pool = []; max_pool_size = 10; inited = false }

-- `objects` are the ones that `new` gives for `init_pool_size` calls; the parameter `max_pool_size`
-- is not used.
unfoldable pub init : List ℕ → ℕ → ObjectPool → Bool × ObjectPool
init objects max_pool_size p =
    if p.inited
    then (true, p)
    else if ltb p.max_pool_size (length objects)
    then (false, p)
    else (true, record p { pool = p.pool ++ objects; inited = true })

-- `none` is the null pointer.
unfoldable pub take_one : ObjectPool → Option ℕ × ObjectPool
take_one p = elim p.pool [ [] ↦ (none, p) | t ∷ rest ↦ (some t, record p { pool = rest }) ]

-- The deleter of a borrowed object.
unfoldable pub give_back : ℕ → ObjectPool → ObjectPool
give_back t p = record p { pool = p.pool ++ (t ∷ []) }

unfoldable pub add_one : ℕ → ObjectPool → Bool × ObjectPool
add_one t p =
    if leb p.max_pool_size (length p.pool)
    then (false, p)
    else (true, record p { pool = p.pool ++ (t ∷ []) })

unfoldable pub empty : ObjectPool → Bool
empty p = length p.pool == 0

unfoldable pub size : ObjectPool → ℕ
size p = length p.pool
