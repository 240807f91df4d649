-- ===== src/Singleton/Finish.antt =====
-- How a call of `Singleton::Instance` comes to its end.
use mathlib.Core.List.{append-nil}
use tiny_utils.Base.{
  ℕ, ◌≡◌, ◌≢◌, inl, inr, refl, sym, ap, ◌∙◌, subst, true, false, Option, some, List, [], ◌∷◌, ◌++◌,
  Bool-cases, Option-cases, ==_iff, ◌==◌,
}
use tiny_utils.Singleton.{Singleton, is_made, test_and_set, make, clear}
use tiny_utils.Singleton.Threads.{
  Pc, idle, spinning, locked, making, leaving, returning, Effect, quiet, new, answer, Act, locks,
  finds_made, finds_null, makes, clears, returns, System, moved_to, Step, act, Steps, none_left,
  next, Reach,
}
use tiny_utils.Singleton.Fits.{holds, Fits}
use tiny_utils.Singleton.Unique.{Inv, Reach-Inv}

Step-at :
    (s : System) (i : ℕ) {p p' : Pc} {e : Effect} {shared : Singleton}
    → s.threads i ≡ p
    → Act s.shared p e shared p'
    → Step s (moved_to s i e shared p')
Step-at s i {p} {p'} {e} {shared} at a =
    act i (subst (λ (q : Pc). Act s.shared q e shared p') (sym at) a)

-- Thread `j` has given the lock back and is about to return; the others stand where they stood.
record Released (s t : System) (j : ℕ) : Type 0 where
  steps : Steps s t
  works : t.thrown ≡ false
  free : t.shared.lock_ ≡ false
  there : is_made t.shared ≡ true
  at_j : t.threads j ≡ returning
  others : (k : ℕ) → (j == k) ≡ false → t.threads k ≡ s.threads k
  same : t.returned ≡ s.returned

Released-later :
    (s : System) (j : ℕ) (e : Effect) {shared : Singleton} (p : Pc) (t : System)
    → Step s (moved_to s j e shared p)
    → (moved_to s j e shared p).returned ≡ s.returned
    → Released (moved_to s j e shared p) t j
    → Released s t j
Released-later s j e p t m back r = record {
  steps = next m r.steps;
  works = r.works;
  free = r.free;
  there = r.there;
  at_j = r.at_j;
  others = λ k ne. r.others k ne ∙ rw ne refl;
  same = r.same ∙ back;
}

itself : (j : ℕ) → (j == j) ≡ true
itself j = (==_iff j j).1 refl

module _ (j : ℕ) where
  from_leaving :
      (s : System)
      → s.threads j ≡ leaving
      → s.thrown ≡ false
      → is_made s.shared ≡ true
      → (t : System) × Released s t j
  unfolding clear
  from_leaving s at works there = (
    moved_to s j quiet (clear s.shared) returning,
    record {
      steps = next (Step-at s j at clears) none_left;
      works = works;
      free = refl;
      there = there;
      at_j = rw (itself j) refl;
      others = λ k ne. rw ne refl;
      same = append-nil s.returned;
    },
  )

  from_making :
      (p : ℕ) (s : System) → s.threads j ≡ making → s.thrown ≡ false → (t : System) × Released s t j
  unfolding make
  from_making p s at works =
      let m = Step-at s j at (makes p) in
      let (t, r) =
        from_leaving (moved_to s j (new p) (make p s.shared) leaving) (rw (itself j) refl) works
          refl in
      (t, Released-later s j (new p) leaving t m (append-nil s.returned) r)

  from_locked :
      (p : ℕ) (s : System) → s.threads j ≡ locked → s.thrown ≡ false → (t : System) × Released s t j
  from_locked p s at works = elim (Bool-cases (is_made s.shared)) [
    | inl there ↦
        let m = Step-at s j at (finds_made there) in
        let (t, r) =
          from_leaving (moved_to s j quiet s.shared leaving) (rw (itself j) refl) works there in
        (t, Released-later s j quiet leaving t m (append-nil s.returned) r)
    | inr null ↦
        let m = Step-at s j at (finds_null null) in
        let (t, r) =
          from_making p (moved_to s j quiet s.shared making) (rw (itself j) refl) works in
        (t, Released-later s j quiet making t m (append-nil s.returned) r)
  ]

  from_holder :
      (p : ℕ) (s : System) (q : Pc)
      → s.threads j ≡ q
      → holds q ≡ true
      → s.thrown ≡ false
      → Fits s.shared s.thrown q
      → (t : System) × Released s t j
  from_holder p s locked at h works f = from_locked p s at works
  from_holder p s making at h works f = from_making p s at works
  from_holder p s leaving at h works f = from_leaving s at works (f.seen refl)
  from_holder p s idle at h works f = cc
  from_holder p s spinning at h works f = cc
  from_holder p s returning at h works f = cc

-- The call of thread `i` has returned, and nothing else has.
abbrev pub Returned : System → ℕ → System → Type 0
Returned s i t =
    (t.threads i ≡ idle)
    × ((p : ℕ) × (t.shared.instance_ ≡ some p) × (t.returned ≡ s.returned ++ (some p ∷ [])))

Steps-trans : {s t u : System} → Steps s t → Steps t u → Steps s u
Steps-trans none_left n = n
Steps-trans (next m ms) n = next m (Steps-trans ms n)

module _ (i : ℕ) where
  from_returning :
      (s : System)
      → s.threads i ≡ returning
      → is_made s.shared ≡ true
      → (t : System) × Steps s t × Returned s i t
  from_returning s at there = elim (Option-cases s.shared.instance_) [
    | inl empty ↦ cc
    | inr (p, full) ↦ (
      moved_to s i (answer s.shared.instance_) s.shared idle,
      next (Step-at s i at returns) none_left,
      (rw (itself i) refl, (p, full, ap (λ (r : Option ℕ). s.returned ++ (r ∷ [])) full)),
    )
  ]

  -- After thread `i` itself has given the lock back.
  from_released : (s u : System) → Released s u i → (t : System) × Steps s t × Returned s i t
  from_released s u r =
      let (t, steps, (at, (p, full, e))) = from_returning u r.at_j r.there in
      (
        t,
        Steps-trans r.steps steps,
        (at, (p, full, e ∙ ap (λ (rs : List (Option ℕ)). rs ++ (some p ∷ [])) r.same)),
      )

  -- The lock is free, and the thread takes it.
  from_free :
      (p : ℕ) (s : System)
      → s.threads i ≡ spinning
      → s.thrown ≡ false
      → s.shared.lock_ ≡ false
      → (t : System) × Released s t i
  unfolding test_and_set
  from_free p s at works free =
      let m = Step-at s i at (locks free) in
      let (t, r) =
        from_locked i p (moved_to s i quiet (test_and_set s.shared).0 locked) (rw (itself i) refl)
          works in
      (t, Released-later s i quiet locked t m (append-nil s.returned) r)

  from_spinning :
      (p : ℕ) (s : System)
      → Inv s
      → s.threads i ≡ spinning
      → s.thrown ≡ false
      → (t : System) × Steps s t × Returned s i t
  from_spinning p s inv at works = elim (Bool-cases s.shared.lock_) [
    | inr free ↦ let (u, r) = from_free p s at works free in from_released s u r
    | inl shut ↦
        let (j, held) = inv.owner works shut in
        let (u, r) = from_holder j p s (s.threads j) refl held works (inv.fits j) in
        elim (Bool-cases (j == i)) [
          | inl same ↦ let e : j ≡ i = (==_iff j i).0 same in cc (ap s.threads e)
          | inr other ↦
              let (v, r') = from_free p u (r.others i other ∙ at) r.works r.free in
              let (t, steps, (back, (q, full, e))) = from_released u v r' in
              (
                t,
                Steps-trans r.steps steps,
                (back, (q, full, e ∙ ap (λ (rs : List (Option ℕ)). rs ++ (some q ∷ [])) r.same)),
              )
        ]
  ]

  finish :
      (p : ℕ) (s : System) (q : Pc)
      → Inv s
      → s.threads i ≡ q
      → q ≢ idle
      → s.thrown ≡ false
      → Fits s.shared s.thrown q
      → (t : System) × Steps s t × Returned s i t
  finish p s idle inv at ne works f = absurd (ne refl)
  finish p s spinning inv at ne works f = from_spinning p s inv at works
  finish p s locked inv at ne works f =
      let (u, r) = from_locked i p s at works in from_released s u r
  finish p s making inv at ne works f =
      let (u, r) = from_making i p s at works in from_released s u r
  finish p s leaving inv at ne works f =
      let (u, r) = from_leaving i s at works (f.seen refl) in from_released s u r
  finish p s returning inv at ne works f = from_returning s at (f.seen refl)

-- In every state that the threads reach without a constructor that throws, a call that has begun can be
-- brought to its end: there are accesses after which it has returned the object, and no other call has
-- returned in between. `p` is where the object would be made.
pub can_finish :
    (p i : ℕ) (s : System)
    → Reach s
    → s.thrown ≡ false
    → s.threads i ≢ idle
    → (t : System) × Steps s t × Returned s i t
can_finish p i s r works begun =
    let inv = Reach-Inv r in finish i p s (s.threads i) inv refl begun works (inv.fits i)
