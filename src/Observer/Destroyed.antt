-- ===== src/Observer/Destroyed.antt =====
-- When the destructor deletes each observer once.
use tiny_utils.Base.{
  ℕ, ◌≤◌, ◌≡◌, ◌↔◌, inl, inr, refl, sym, ap, ◌∙◌, subst, Bool, true, false, List, [], ◌∷◌, ok,
  fault, Fault, ◌>>=◌, ◌==◌, ◌&&◌, if◌then◌else◌, arith, Bool-cases, Outcome-cases, ==_iff,
}
use tiny_utils.Observer.{BaseSubject, delete, delete_from_back, destroy}
use tiny_utils.Observer.Registered.{count, registered}

-- Each observer is registered at most once, and alive.
abbrev pub EachOnce : List ℕ → (ℕ → Bool) → Type 0
EachOnce xs alive = (x : ℕ) → count x xs ≤ (if alive x then 1 else 0)

delete_from_back_lem :
    (xs : List ℕ) (alive : ℕ → Bool)
    → EachOnce xs alive
    → (alive' : ℕ → Bool) × (delete_from_back xs alive ≡ ok alive')
      × ((x : ℕ) → alive' x ≡ (alive x && count x xs == 0))
unfolding delete_from_back delete
delete_from_back_lem [] alive h = (alive, refl, λ x. sym (and_true (alive x)))
  where
    and_true : (b : Bool) → (b && true) ≡ b
    and_true true = refl
    and_true false = refl
delete_from_back_lem (p ∷ xs) alive h =
    let (a, e, q) = delete_from_back_lem xs alive (λ x. let k = h x in omega arith) in
    let here : a p ≡ true = let k = h p in q p ∙ ground arith in
    rw (e, here) (λ x. if p == x then false else a x, refl, λ x. let k = q x in ground arith)

delete_from_back_once :
    (xs : List ℕ) (alive alive' : ℕ → Bool)
    → delete_from_back xs alive ≡ ok alive'
    → EachOnce xs alive
unfolding delete_from_back delete
delete_from_back_once [] alive alive' e = λ x. omega arith
delete_from_back_once (p ∷ xs) alive alive' e = elim (Outcome-cases (delete_from_back xs alive)) [
  | inr (f, q) ↦ cc
  | inl (a, q) ↦
      let once = delete_from_back_once xs alive a q in
      let (b, r, all) = delete_from_back_lem xs alive once in
      let same : a ≡ b = ok_inj (sym q ∙ r) in
      let here : a p ≡ true = tested _ (a p) (sym (ap (λ o. o >>= λ t. delete p t) q) ∙ e) in
      let left : (alive p && count p xs == 0) ≡ true =
        sym (all p) ∙ sym (ap (λ t. t p) same) ∙ here in
      λ x. elim (Bool-cases (x == p)) [
        | inl first ↦
            subst (λ y. count y (p ∷ xs) ≤ (if alive y then 1 else 0)) (sym ((==_iff x p).0 first))
              (ground arith)
        | inr other ↦ let k = once x in ground arith
      ]
]
  where
    ok_inj : {a b : ℕ → Bool} → ok a ≡ ok b → a ≡ b
    ok_inj e = cc

    tested :
        (c : ℕ → Bool) {d : ℕ → Bool} (b : Bool)
        → (if b then ok c else fault Fault.out_of_bounds) ≡ ok d
        → b ≡ true
    tested c true e = refl
    tested c false e = cc

-- The destructor ends without deleting an object that is not alive, and leaves exactly the observers
-- dead and all other objects as they were, if and only if each observer is registered at most once,
-- and alive.
pub destructor_lem :
    (s : BaseSubject) (alive : ℕ → Bool)
    → ((alive' : ℕ → Bool) × (destroy s alive ≡ ok alive')
        × ((x : ℕ) → alive' x ≡ (alive x && registered x s == 0)))
      ↔ EachOnce s.observers alive
unfolding destroy
destructor_lem s alive =
    (λ r. delete_from_back_once s.observers alive r.0 r.1, delete_from_back_lem s.observers alive)
