-- ===== src/ObjectPool/Program/Returned.antt =====
-- What the program of cpp_utils/object_pool.cpp comes to.
use mathlib.Mathlib.Data.Multiset.Defs.{of_list}
use tiny_utils.Base.{
  ℕ, suc, ◌+◌, ◌*◌, ◌≤◌, ◌<◌, ◌≡◌, ◌≢◌, ◌⊎◌, inl, inr, refl, ap, subst, true, Option, none, some,
  List, length, total, total-same, total-const, total-cases, total-less, total-moved_at, arith,
  ◌==◌, Bool-cases, if◌then◌else◌, false,
}
use tiny_utils.ObjectPool.{ObjectPool, create, init}
use tiny_utils.ObjectPool.Bags.{count, of_list-count}
use tiny_utils.ObjectPool.Program.{
  Pc, entered, has_one, has_two, printed, pushing_second, gave_second, pushing_first, starts_second,
  starts_first, pushing, uses_queue, returned, crashed, Act, takes_first, takes_second, prints,
  gives_second, gives_first, System, Step, act, begun, Reach, start, later,
}
use tiny_utils.ObjectPool.Program.Balanced.{
  one, holds, holds_it, todo, Sound, takes_now, Act-Sound, Act-holds, Act-holds_it, Act-todo,
}

record Inv (n : ℕ) (objects : List ℕ) (j : ℕ) (s : System) : Type 0 where
  sound : (i : ℕ) → Sound (s.threads i)
  sized : length s.pool.pool + total (λ i. holds (s.threads i)) n ≡ length objects
  counted :
      (x : ℕ) → count x s.pool.pool + total (λ i. holds_it x (s.threads i)) n ≡ count x objects
  left : j + total (λ i. todo (s.threads i)) n ≡ n * 7

one-le : (a : Option ℕ) → one a ≤ 1
one-le none = omega arith
one-le (some a) = omega arith

holds-le : (q : Pc) → holds q ≤ 2
holds-le entered = omega arith
holds-le (has_one a) = omega (arith, one-le a)
holds-le (has_two a b) = omega (arith, one-le a, one-le b)
holds-le (printed a b) = omega arith
holds-le (pushing_second a b) = omega arith
holds-le (gave_second a) = omega arith
holds-le (pushing_first a) = omega arith
holds-le returned = omega arith
holds-le crashed = omega arith

holds-less : (q : Pc) → takes_now q ≡ true → holds q < 2
holds-less entered e = omega arith
holds-less (has_one a) e = omega (arith, one-le a)
holds-less (has_two a b) e = cc
holds-less (printed a b) e = cc
holds-less (pushing_second a b) e = cc
holds-less (gave_second a) e = cc
holds-less (pushing_first a) e = cc
holds-less returned e = cc
holds-less crashed e = cc

module _ {n j : ℕ} {objects : List ℕ} (enough : 2 * n ≤ length objects) where
  -- The pool is not empty while a thread is still to take an object.
  not_empty :
      (s : System) (i : ℕ)
      → Inv n objects j s
      → i < n
      → takes_now (s.threads i) ≡ true
      → 0 < length s.pool.pool
  not_empty s i v h e = omega (
    arith,
    v.sized,
    total-less (λ k. holds (s.threads k)) 2 n i (λ k. holds-le (s.threads k)) h
        (holds-less (s.threads i) e),
  )

  Step-Inv : {s t : System} → Step n s t → Inv n objects j s → Inv n objects (suc j) t
  Step-Inv {s} (act i {pool} {p} h alone a) v = record {
    sound = λ k. elim (Bool-cases (i == k)) [
      | inl same ↦ rw same (Act-Sound a more (v.sound i))
      | inr other ↦ rw other (v.sound k)
    ];
    sized =
        omega
          (arith, v.sized, total-moved_at holds s.threads i n p h, Act-holds a more (v.sound i));
    counted = λ x. omega (
      arith,
      v.counted x,
      total-moved_at (holds_it x) s.threads i n p h,
      Act-holds_it x a more (v.sound i),
    );
    left = omega (arith, v.left, total-moved_at todo s.threads i n p h, Act-todo a (v.sound i));
  }
    where
      more : takes_now (s.threads i) ≡ true → 0 < length s.pool.pool
      more = not_empty s i v h

init_all :
    (objects : List ℕ) (m : ℕ) → length objects ≤ 10 → (init objects m create).1.pool ≡ objects
unfolding init
init_all objects m few = ground arith

begun-Inv :
    (n : ℕ) (objects : List ℕ) (m : ℕ) → length objects ≤ 10 → Inv n objects 0 (begun objects m)
begun-Inv n objects m few = record {
  sound = λ i. tt;
  sized = omega (arith, total-const 0 n, ap length (init_all objects m few));
  counted = λ x. omega (arith, total-const 0 n, ap (count x) (init_all objects m few));
  left = omega (arith, total-const 7 n);
}

Reach-Inv :
    {n : ℕ} {objects : List ℕ} {m j : ℕ} {s : System}
    → length objects ≤ 10
    → 2 * n ≤ length objects
    → Reach n objects m j s
    → Inv n objects j s
Reach-Inv {n} {objects} {m} few enough start = begun-Inv n objects m few
Reach-Inv few enough (later r st) = Step-Inv enough st (Reach-Inv few enough r)

can_act :
    (p : ObjectPool) (q : Pc) → Sound q → 0 < todo q → (p' : ObjectPool) × (q' : Pc) × Act p q p' q'
can_act p entered s more = (_, _, takes_first)
can_act p (has_one a) s more = (_, _, takes_second a)
can_act p (has_two (some a) (some b)) s more = (_, _, prints a b)
can_act p (has_two none b) s more = absurd (omega (arith, s.0))
can_act p (has_two (some a) none) s more = absurd (omega (arith, s.1))
can_act p (printed a b) s more = (_, _, starts_second a b)
can_act p (pushing_second a b) s more = (_, _, gives_second a b)
can_act p (gave_second a) s more = (_, _, starts_first a)
can_act p (pushing_first a) s more = (_, _, gives_first a)
can_act p returned s more = absurd (omega arith)
can_act p crashed s more = absurd s

-- 1 inside a push, from where there is an end, and which is no use of the queue by others.
abbrev in_push : Pc → ℕ
in_push q = if pushing q then 1 else 0

in_push-todo : (q : Pc) → 0 < in_push q → 0 < todo q
in_push-todo (pushing_second a b) h = omega arith
in_push-todo (pushing_first a) h = omega arith
in_push-todo entered h = absurd (omega arith)
in_push-todo (has_one a) h = absurd (omega arith)
in_push-todo (has_two a b) h = absurd (omega arith)
in_push-todo (printed a b) h = absurd (omega arith)
in_push-todo (gave_second a) h = absurd (omega arith)
in_push-todo returned h = absurd (omega arith)
in_push-todo crashed h = absurd (omega arith)

in_push-uses_queue : (q : Pc) → 0 < in_push q → uses_queue q ≡ false
in_push-uses_queue (pushing_second a b) h = refl
in_push-uses_queue (pushing_first a) h = refl
in_push-uses_queue entered h = absurd (omega arith)
in_push-uses_queue (has_one a) h = absurd (omega arith)
in_push-uses_queue (has_two a b) h = absurd (omega arith)
in_push-uses_queue (printed a b) h = absurd (omega arith)
in_push-uses_queue (gave_second a) h = absurd (omega arith)
in_push-uses_queue returned h = absurd (omega arith)
in_push-uses_queue crashed h = absurd (omega arith)

-- Where a thread has something to do, one can go on without a race: the one inside a push, if there is one.
can_step :
    {n : ℕ} (s : System) (i : ℕ)
    → ((k : ℕ) → Sound (s.threads k))
    → i < n
    → 0 < todo (s.threads i)
    → (t : System) × Step n s t
can_step {n} s i sound h more = elim (total-cases (λ k. in_push (s.threads k)) n) [
  | inl none_pushes ↦
      let (p', q', a) = can_act s.pool (s.threads i) (sound i) more in
      (_, act i h (λ u k hk. not_pushing (s.threads k) (none_pushes k hk)) a)
  | inr (k, hk, pushes) ↦
      let (p', q', a) =
        can_act s.pool (s.threads k) (sound k) (in_push-todo (s.threads k) pushes) in
      let no_use = in_push-uses_queue (s.threads k) pushes in (_, act k hk (λ u. absurd (cc)) a)
]
  where
    not_pushing : (q : Pc) → in_push q ≡ 0 → pushing q ≡ false
    not_pushing q e = ground arith

-- All threads have returned, and the pool has the objects again, in some order.
abbrev pub AllBack : ℕ → List ℕ → System → Type 0
AllBack n objects s =
    ((i : ℕ) → i < n → s.threads i ≡ returned) × (of_list s.pool.pool ≡ of_list objects)

is_returned : (q : Pc) → Sound q → todo q ≡ 0 → q ≡ returned
is_returned entered s e = absurd (omega arith)
is_returned (has_one a) s e = absurd (omega arith)
is_returned (has_two a b) s e = absurd (omega arith)
is_returned (printed a b) s e = absurd (omega arith)
is_returned (pushing_second a b) s e = absurd (omega arith)
is_returned (gave_second a) s e = absurd (omega arith)
is_returned (pushing_first a) s e = absurd (omega arith)
is_returned returned s e = refl
is_returned crashed s e = absurd s

not_crashed : (q : Pc) → Sound q → q ≢ crashed
not_crashed q s e = subst Sound e s

-- `n` threads run `func` on a pool of at most ten objects, at least `2 * n`, and no thread takes from the
-- queue or begins a push while another one is inside the push of a deleter; the deleter takes no mutex, so the
-- code does not ensure this. Then no thread uses a null pointer, whatever the order of the steps; after at most
-- `7 * n` steps all threads have returned and the pool has its objects again, in some order, and before
-- that some thread can go on in the same way.
pub borrowers_return :
    {n j : ℕ} {objects : List ℕ} {max_pool_size : ℕ} {s : System}
    → length objects ≤ 10
    → 2 * n ≤ length objects
    → Reach n objects max_pool_size j s
    → ((i : ℕ) → s.threads i ≢ crashed)
      × (j ≤ 7 * n)
      × (AllBack n objects s ⊎ ((t : System) × Step n s t))
borrowers_return {n} {j} {objects} {s} few enough r = (
  λ i. not_crashed (s.threads i) (v.sound i),
  omega (arith, v.left),
  elim (total-cases (λ i. todo (s.threads i)) n) [
    | inr (i, h, more) ↦ inr (can_step s i v.sound h more)
    | inl all ↦ inl (all_back (λ i h. is_returned (s.threads i) (v.sound i) (all i h)))
  ],
)
  where
    v : Inv n objects j s
    v = Reach-Inv few enough r

    all_back : ((i : ℕ) → i < n → s.threads i ≡ returned) → AllBack n objects s
    all_back back = (
      back,
      of_list-count s.pool.pool objects (λ x.
          omega (arith, v.counted x, none_left (holds_it x) (λ i h. ap (holds_it x) (back i h)))),
    )
      where
        none_left :
            (f : Pc → ℕ)
            → ((i : ℕ) → i < n → f (s.threads i) ≡ 0)
            → total (λ i. f (s.threads i)) n ≡ 0
        none_left f zero_each =
            omega (arith, total-same (λ i. f (s.threads i)) (λ i. 0) n zero_each, total-const 0 n)
