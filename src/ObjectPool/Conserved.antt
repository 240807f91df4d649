-- ===== src/ObjectPool/Conserved.antt =====
-- No object is lost or handed out twice.
use mathlib.Mathlib.Data.Multiset.Defs.{of_list}
use mathlib.Mathlib.Data.Multiset.AddSub.{add}
use tiny_utils.Base.{
  ℕ, ◌+◌, ◌≡◌, ◌↔◌, refl, ap, true, false, none, some, List, [], ◌∷◌, ◌++◌, length, arith,
  length-append,
}
use tiny_utils.ObjectPool.Bags.{count, count-append, of_list-count}
use tiny_utils.ObjectPool.{ObjectPool, create, init, take_one, give_back, add_one}

-- The pool, what the clients hold, and what was ever put in, from outside or by `init`.
pub record System : Type 0 where
  pub pool : ObjectPool
  pub held : List ℕ
  pub put_in : List ℕ

pub data Step (s : System) : System → Type 0 where
  inits :
      (objects : List ℕ) (max_pool_size : ℕ) {p : ObjectPool}
      → s.pool.inited ≡ false
      → init objects max_pool_size s.pool ≡ (true, p)
      → Step s (record s { pool = p; put_in = s.put_in ++ objects })
  init_fails :
      (objects : List ℕ) (max_pool_size : ℕ) {p : ObjectPool}
      → init objects max_pool_size s.pool ≡ (false, p)
      → Step s (record s { pool = p })
  takes :
      {t : ℕ} {p : ObjectPool}
      → take_one s.pool ≡ (some t, p)
      → Step s (record s { pool = p; held = t ∷ s.held })
  finds_none : {p : ObjectPool} → take_one s.pool ≡ (none, p) → Step s (record s { pool = p })
  gives_back :
      (before : List ℕ) (t : ℕ) (after : List ℕ)
      → s.held ≡ before ++ (t ∷ after)
      → Step s (record s { pool = give_back t s.pool; held = before ++ after })
  adds :
      (t : ℕ) {p : ObjectPool}
      → add_one t s.pool ≡ (true, p)
      → Step s (record s { pool = p; put_in = s.put_in ++ (t ∷ []) })
  add_fails :
      (t : ℕ) {p : ObjectPool} → add_one t s.pool ≡ (false, p) → Step s (record s { pool = p })

pub data Reach : System → Type 0 where
  start : Reach (record { pool = create; held = []; put_in = [] })
  later : {s t : System} → Reach s → Step s t → Reach t

abbrev Conserves : System → Type 0
Conserves s =
    ((x : ℕ) → count x s.pool.pool + count x s.held ≡ count x s.put_in)
    × (length s.pool.pool + length s.held ≡ length s.put_in)

init_pool :
    (objects : List ℕ) (m : ℕ) (p p' : ObjectPool)
    → p.inited ≡ false
    → init objects m p ≡ (true, p')
    → p'.pool ≡ p.pool ++ objects
unfolding init
init_pool objects m p p' i e = ground arith

take_one_pool : (p p' : ObjectPool) (t : ℕ) → take_one p ≡ (some t, p') → p.pool ≡ t ∷ p'.pool
unfolding take_one
take_one_pool p p' t e = ground arith

init_fails_pool :
    (objects : List ℕ) (m : ℕ) (p p' : ObjectPool)
    → init objects m p ≡ (false, p')
    → p'.pool ≡ p.pool
unfolding init
init_fails_pool objects m p p' e = ground arith

finds_none_pool : (p p' : ObjectPool) → take_one p ≡ (none, p') → (p'.pool ≡ p.pool) × (p.pool ≡ [])
unfolding take_one
finds_none_pool p p' e = ground arith

add_one_pool : (t : ℕ) (p p' : ObjectPool) → add_one t p ≡ (true, p') → p'.pool ≡ p.pool ++ (t ∷ [])
unfolding add_one
add_one_pool t p p' e = ground arith

add_fails_pool : (t : ℕ) (p p' : ObjectPool) → add_one t p ≡ (false, p') → p'.pool ≡ p.pool
unfolding add_one
add_fails_pool t p p' e = ground arith

Step-Conserves : {s t : System} → Step s t → Conserves s → Conserves t
unfolding give_back
Step-Conserves {s} (inits objects m {p} i e) (c, l) =
    let q = init_pool objects m s.pool p i e in
    (
      λ x. omega (
        arith,
        c x,
        ap (count x) q,
        count-append x s.pool.pool objects,
        count-append x s.put_in objects,
      ),
      omega (
        arith,
        l,
        ap length q,
        length-append s.pool.pool objects,
        length-append s.put_in objects,
      ),
    )
Step-Conserves {s} (init_fails objects m {p} e) (c, l) =
    let q = init_fails_pool objects m s.pool p e in
    (λ x. omega (arith, c x, ap (count x) q), omega (arith, l, ap length q))
Step-Conserves {s} (takes {t} {p} e) (c, l) =
    let q = take_one_pool s.pool p t e in
    (λ x. omega (arith, c x, ap (count x) q), omega (arith, l, ap length q))
Step-Conserves {s} (finds_none {p} e) (c, l) =
    let q = (finds_none_pool s.pool p e).0 in
    (λ x. omega (arith, c x, ap (count x) q), omega (arith, l, ap length q))
Step-Conserves {s} (gives_back before t after e) (c, l) = (
  λ x. omega (
    arith,
    c x,
    ap (count x) e,
    count-append x s.pool.pool (t ∷ []),
    count-append x before (t ∷ after),
    count-append x before after,
  ),
  omega (
    arith,
    l,
    ap length e,
    length-append s.pool.pool (t ∷ []),
    length-append before (t ∷ after),
    length-append before after,
  ),
)
Step-Conserves {s} (adds t {p} e) (c, l) =
    let q = add_one_pool t s.pool p e in
    (
      λ x. omega (
        arith,
        c x,
        ap (count x) q,
        count-append x s.pool.pool (t ∷ []),
        count-append x s.put_in (t ∷ []),
      ),
      omega (
        arith,
        l,
        ap length q,
        length-append s.pool.pool (t ∷ []),
        length-append s.put_in (t ∷ []),
      ),
    )
Step-Conserves {s} (add_fails t {p} e) (c, l) =
    let q = add_fails_pool t s.pool p e in
    (λ x. omega (arith, c x, ap (count x) q), omega (arith, l, ap length q))

Reach-Conserves : {s : System} → Reach s → Conserves s
Reach-Conserves start = (λ x. refl, refl)
Reach-Conserves (later r st) = Step-Conserves st (Reach-Conserves r)

take_one-none :
    (p : ObjectPool) (h n : ℕ) → length p.pool + h ≡ n → ((take_one p).0 ≡ none) ↔ (h ≡ n)
unfolding take_one
take_one-none p h n l = ground arith

-- In every reachable state the objects of the pool and those of the clients, as bags, add up to what was
-- put in, so none is lost or handed out twice; and `take_one` gives the null pointer exactly when the clients
-- hold as many objects as were put in.
pub never_lost :
    {s : System}
    → Reach s
    → (add (of_list s.pool.pool) (of_list s.held) ≡ of_list s.put_in)
      × (((take_one s.pool).0 ≡ none) ↔ (length s.held ≡ length s.put_in))
never_lost {s} r =
    let (c, l) = Reach-Conserves r in
    (
      of_list-count (s.pool.pool ++ s.held) s.put_in
          (λ x. omega (arith, c x, count-append x s.pool.pool s.held)),
      take_one-none s.pool (length s.held) (length s.put_in) l,
    )
