-- ===== src/Singleton/Unique.antt =====
-- The objects that the threads of `Singleton::Instance` make, and what their calls return.
use mathlib.Core.List.{append-nil}
use tiny_utils.Base.{
  ℕ, zero, suc, ◌≡◌, ◌≢◌, ◌⊎◌, inl, inr, refl, sym, ap, ◌∙◌, subst, Bool, true, false, Option, none,
  some, List, [], ◌∷◌, ◌++◌, length, length-append, replicate, arith, Option-cases, Bool-cases,
  ==_iff, ◌==◌,
}
use tiny_utils.Singleton.{Singleton, is_made, test_and_set, make, clear, clean}
use tiny_utils.Singleton.Fits.{Fits, holds, Act-Fits, Act-Fits_other, Act-alone, Act-owner}
use tiny_utils.Singleton.Threads.{
  Pc, idle, spinning, locked, making, leaving, returning, Effect, Act, sees_made, sees_null, spins,
  locks, finds_made, finds_null, makes, fails, clears, returns, System, at_pc, moved_to, Steps,
  none_left, next, news, answers, fails_now, Step, act, Reach, start, later, begun,
}

-- The object that there is.
abbrev pub objects : Option ℕ → List ℕ
objects none = []
objects (some p) = p ∷ []

-- What holds in every state that the threads reach.
pub record Inv (s : System) : Type 0 where
  pub fits : (i : ℕ) → Fits s.shared s.thrown (s.threads i)
  pub alone : (i j : ℕ) → i ≢ j → holds (s.threads i) ≡ true → holds (s.threads j) ≡ false
  pub owner : s.thrown ≡ false → s.shared.lock_ ≡ true → (i : ℕ) × (holds (s.threads i) ≡ true)
  pub all_made : s.made ≡ objects s.shared.instance_
  pub same_answers : s.returned ≡ replicate (length s.returned) s.shared.instance_
  pub no_answers : is_made s.shared ≡ false → s.returned ≡ []

replicate-snoc : (n : ℕ) (r : Option ℕ) → replicate n r ++ (r ∷ []) ≡ r ∷ replicate n r
replicate-snoc zero r = refl
replicate-snoc (suc n) r = ap (λ (xs : List (Option ℕ)). r ∷ xs) (replicate-snoc n r)

Act-objects :
    {s s' : Singleton} {p p' : Pc} {e : Effect} (thrown : Bool)
    → Act s p e s' p'
    → Fits s thrown p
    → objects s.instance_ ++ news e ≡ objects s'.instance_
unfolding test_and_set make clear
Act-objects thrown (sees_made m) f = append-nil _
Act-objects thrown (sees_null m) f = append-nil _
Act-objects thrown (spins m) f = append-nil _
Act-objects thrown (locks m) f = append-nil _
Act-objects thrown (finds_made m) f = append-nil _
Act-objects thrown (finds_null m) f = append-nil _
Act-objects {s} thrown (makes p) f = elim (Option-cases s.instance_) [
  | inl empty ↦ rw empty refl
  | inr (q, full) ↦ ground (arith, f.unmade refl)
]
Act-objects thrown fails f = append-nil _
Act-objects thrown clears f = append-nil _
Act-objects thrown returns f = append-nil _

-- What the calls have returned, with the next one.
Answered : List (Option ℕ) → Singleton → Type 0
Answered rs s = (rs ≡ replicate (length rs) s.instance_) × (is_made s ≡ false → rs ≡ [])

Act-Answered :
    {s s' : Singleton} {p p' : Pc} {e : Effect} (thrown : Bool) (rs : List (Option ℕ))
    → Act s p e s' p'
    → Fits s thrown p
    → Answered rs s
    → Answered (rs ++ answers e) s'
unfolding test_and_set make clear Answered
Act-Answered thrown rs (sees_made m) f a = rw (append-nil rs) a
Act-Answered thrown rs (sees_null m) f a = rw (append-nil rs) a
Act-Answered thrown rs (spins m) f a = rw (append-nil rs) a
Act-Answered thrown rs (locks m) f a = rw (append-nil rs) a
Act-Answered thrown rs (finds_made m) f a = rw (append-nil rs) a
Act-Answered thrown rs (finds_null m) f a = rw (append-nil rs) a
Act-Answered thrown rs (makes p) f a = rw (append-nil rs, a.1 (f.unmade refl)) (refl, λ e. cc)
Act-Answered thrown rs fails f a = rw (append-nil rs) a
Act-Answered thrown rs clears f a = rw (append-nil rs) a
Act-Answered {s} thrown rs returns f a = (
  let longer =
        ap (λ (xs : List (Option ℕ)). xs ++ (s.instance_ ∷ [])) a.0
        ∙ replicate-snoc (length rs) s.instance_ in
      let count : length (rs ++ (s.instance_ ∷ [])) ≡ suc (length rs) =
        omega (arith, length-append rs (s.instance_ ∷ [])) in
      rw count longer,
  λ e. absurd (ground (arith, f.seen refl)),
)

module _ (s : System) (inv : Inv s) (i : ℕ) {e : Effect} {shared : Singleton} {p : Pc}
    (a : Act s.shared (s.threads i) e shared p) where
  abbrev moved : ℕ → Pc
  moved = at_pc s.threads i p

  not_both : (j : ℕ) → (i == j) ≡ false → holds (s.threads i) ≡ true → holds (s.threads j) ≡ false
  not_both j other = inv.alone i j (λ q. cc ((==_iff i j).1 q))

  moved-Fits : (j : ℕ) → Fits shared (fails_now e s.thrown) (moved j)
  moved-Fits j = elim (Bool-cases (i == j)) [
    | inl same ↦ rw same (Act-Fits s.thrown a (inv.fits i))
    | inr other ↦
        rw other
          (Act-Fits_other s.thrown (s.threads j) a (not_both j other) (inv.fits i) (inv.fits j))
  ]

  mover_alone : (j : ℕ) → (i == j) ≡ false → holds p ≡ true → holds (s.threads j) ≡ false
  mover_alone j other = Act-alone s.thrown (s.threads j) a (not_both j other) (inv.fits j)

  moved_alone : (j k : ℕ) → j ≢ k → holds (moved j) ≡ true → holds (moved k) ≡ false
  moved_alone j k ne = elim (Bool-cases (i == j)) [
    | inl at_j ↦ elim (Bool-cases (i == k)) [
      | inl at_k ↦ absurd (ne (sym ((==_iff i j).0 at_j) ∙ (==_iff i k).0 at_k))
      | inr other ↦ rw (at_j, other) (mover_alone k other)
    ]
    | inr not_j ↦ elim (Bool-cases (i == k)) [
      | inl at_k ↦
          rw (not_j, at_k)
            (λ h. elim (Bool-cases (holds p)) [
              | inl held ↦ cc (mover_alone j not_j held)
              | inr free ↦ free
            ])
      | inr not_k ↦ rw (not_j, not_k) (inv.alone j k ne)
    ]
  ]

  moved_owner :
      fails_now e s.thrown ≡ false → shared.lock_ ≡ true → (j : ℕ) × (holds (moved j) ≡ true)
  moved_owner f l = elim (Act-owner s.thrown a f l) [
    | inl held ↦ (i, rw ((==_iff i i).1 refl) held)
    | inr (works, shut, free) ↦
        let (j, held) = inv.owner works shut in
        elim (Bool-cases (i == j)) [
          | inl same ↦
              let e : i ≡ j = (==_iff i j).0 same in cc (ap (λ (n : ℕ). holds (s.threads n)) e)
          | inr other ↦ (j, rw other held)
        ]
  ]

  Act-Inv : Inv (moved_to s i e shared p)
  unfolding Answered
  Act-Inv =
      let answered =
        Act-Answered s.thrown s.returned a (inv.fits i) (inv.same_answers, inv.no_answers) in
      record {
        fits = moved-Fits;
        alone = moved_alone;
        owner = moved_owner;
        all_made =
            ap (λ (xs : List ℕ). xs ++ news e) inv.all_made ∙ Act-objects s.thrown a (inv.fits i);
        same_answers = answered.0;
        no_answers = answered.1;
      }

begun-Inv : Inv begun
begun-Inv = record {
  fits = λ i. ground arith;
  alone = λ i j ne h. ground arith;
  owner = λ f l. cc;
  all_made = refl;
  same_answers = refl;
  no_answers = λ e. refl;
}

pub Reach-Inv : {s : System} → Reach s → Inv s
Reach-Inv start = begun-Inv
Reach-Inv (later {s} r (act i a)) = Act-Inv s (Reach-Inv r) i a

Steps-Reach : {s t : System} → Reach s → Steps s t → Reach t
Steps-Reach r none_left = r
Steps-Reach r (next m ms) = Steps-Reach (later r m) ms

-- In every state that the threads reach, either nothing has been made and no call has returned, or just one
-- object has been made and all calls that have returned have returned it; and the destructor of
-- SingletonCleaner would delete what has been made, once, and leave `instance_` null.
pub one_instance :
    (s : System)
    → Reach s
    → (((s.made ≡ []) × (s.returned ≡ []))
        ⊎ ((p : ℕ) × (s.made ≡ p ∷ []) × (s.returned ≡ replicate (length s.returned) (some p))))
      × ((clean s.shared).1 ≡ s.made)
      × ((clean s.shared).0.instance_ ≡ none)
unfolding clean
one_instance s r =
    let inv = Reach-Inv r in
    elim (Option-cases s.shared.instance_) [
      | inl empty ↦ (
        inl (inv.all_made ∙ ap objects empty, inv.no_answers (rw empty refl)),
        rw (inv.all_made, empty) refl,
        refl,
      )
      | inr (p, full) ↦ (
        inr (
          p,
          inv.all_made ∙ ap objects full,
          inv.same_answers ∙ ap (replicate (length s.returned)) full,
        ),
        rw (inv.all_made, full) refl,
        refl,
      )
    ]

Step-thrown : {s t : System} → Step s t → s.thrown ≡ true → t.thrown ≡ true
Step-thrown (act i {e} a) f = ground arith

Steps-thrown : {s t : System} → Steps s t → s.thrown ≡ true → t.thrown ≡ true
Steps-thrown none_left f = f
Steps-thrown (next m ms) f = Steps-thrown ms (Step-thrown m f)

Fits-blocked : (s : Singleton) (p : Pc) → Fits s true p → (p ≡ idle) ⊎ (p ≡ spinning)
Fits-blocked s idle f = inl refl
Fits-blocked s spinning f = inr refl
Fits-blocked s locked f = ground (arith, f.broken refl)
Fits-blocked s making f = ground (arith, f.broken refl)
Fits-blocked s leaving f = ground (arith, f.broken refl)
Fits-blocked s returning f = ground (arith, f.broken refl, f.seen refl)

-- Once a constructor has thrown, no call of any thread ever returns: whatever the threads do then, the lock
-- stays taken, nothing is made, and each thread is outside the call or before `test_and_set`.
pub throw_blocks :
    (s t : System)
    → Reach s
    → s.thrown ≡ true
    → Steps s t
    → (t.shared.lock_ ≡ true)
      × (t.returned ≡ [])
      × (t.made ≡ [])
      × ((i : ℕ) → (t.threads i ≡ idle) ⊎ (t.threads i ≡ spinning))
throw_blocks s t r f steps =
    let inv = Reach-Inv (Steps-Reach r steps) in
    let f' = Steps-thrown steps f in
    let (free, shut, empty) = (inv.fits 0).broken f' in
    (
      shut,
      inv.no_answers empty,
      inv.all_made
          ∙ elim (Option-cases t.shared.instance_) [ inl e ↦ ap objects e | inr (p, e) ↦ cc ],
      λ i.
          Fits-blocked t.shared (t.threads i)
            (subst (λ (b : Bool). Fits t.shared b (t.threads i)) f' (inv.fits i)),
    )
