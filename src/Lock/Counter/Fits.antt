-- ===== src/Lock/Counter/Fits.antt =====
-- What the place of a thread of cpp_utils/lock.cpp says of the lock and of the counter.
use tiny_utils.Base.{
  ℕ, suc, ◌+◌, ◌-◌, ◌*◌, ◌≤◌, ◌≡◌, ◌≢◌, ◌⊎◌, inl, inr, refl, ap, ◌∙◌, Bool, true, false, Option,
  none, some, arith, Option-cases, ℕ_discrete,
}
use tiny_utils.Lock.Api.{ZLock, IsLock}
use tiny_utils.Lock.Counter.{
  Pc, testing, entering, reading, writing, leaving, returned, Act, goes_on, ends, locks, reads,
  writes, unlocks,
}

-- Between `lock` and `unlock`.
abbrev pub inside : Pc → Bool
inside (reading i) = true
inside (writing i v) = true
inside (leaving i) = true
inside _ = false

-- The count that was read, where it is still to be written.
abbrev pub was_read : Pc → ℕ → ℕ
was_read (writing i v) count = v
was_read _ count = count

-- The rounds that are begun, and those whose write is done.
abbrev pub rounds_begun : Pc → ℕ
rounds_begun (testing i) = i
rounds_begun (entering i) = suc i
rounds_begun (reading i) = suc i
rounds_begun (writing i v) = suc i
rounds_begun (leaving i) = suc i
rounds_begun returned = 0

abbrev pub written : ℕ → Pc → ℕ
written rounds (testing i) = i
written rounds (entering i) = i
written rounds (reading i) = i
written rounds (writing i v) = i
written rounds (leaving i) = suc i
written rounds returned = rounds

-- The accesses that are left.
abbrev pub todo : ℕ → Pc → ℕ
todo rounds (testing i) = 5 * (rounds - i) + 1
todo rounds (entering i) = 5 * (rounds - i)
todo rounds (reading i) = 5 * (rounds - i) - 1
todo rounds (writing i v) = 5 * (rounds - i) - 2
todo rounds (leaving i) = 5 * (rounds - i) - 3
todo rounds returned = 0

pub record Fits (rounds : ℕ) (owner : Option ℕ) (count i : ℕ) (p : Pc) : Type 0 where
  pub owns : inside p ≡ true → owner ≡ some i
  pub exact : was_read p count ≡ count
  pub bounded : rounds_begun p ≤ rounds

-- The thread that the lock belongs to stands inside.
abbrev pub Owned : Option ℕ → ℕ → Pc → Type 0
Owned owner i p = owner ≡ some i → inside p ≡ true

-- `lock` returns when the lock is free, or to the thread that has it.
pub lock-owner :
    {z : ZLock} (l : IsLock z) (me : ℕ) (r : Bool) (s s' : z.State)
    → z.lock_call me s ≡ some (r, s')
    → ((l.owner s ≡ none) × (l.owner s' ≡ some me)) ⊎ (l.owner s ≡ some me)
lock-owner l me r s s' e = elim (Option-cases (l.owner s)) [
  | inl free ↦ let (s'', e', own) = l.takes me s free in inl (free, ap l.owner (cc (e, e')) ∙ own)
  | inr (j, held) ↦ elim (ℕ_discrete j me) [
    | yes mine ↦ inr (held ∙ ap some mine)
    | no other ↦ absurd (cc (e, l.waits me j s held other))
  ]
]

-- For a thread that is not inside, it was free.
pub lock-free :
    {z : ZLock} (l : IsLock z) (me i : ℕ) (r : Bool) (s s' : z.State)
    → Owned (l.owner s) me (entering i)
    → z.lock_call me s ≡ some (r, s')
    → (l.owner s ≡ none) × (l.owner s' ≡ some me)
lock-free l me i r s s' o e = elim (lock-owner l me r s s' e) [
  | inl done ↦ done
  | inr mine ↦ cc (o mine)
]

module _ {z : ZLock} (l : IsLock z) {rounds me count : ℕ} {s : z.State} where
  pub Act-Fits :
      {count' : ℕ} {s' : z.State} {p p' : Pc}
      → Act z rounds me s count p s' count' p'
      → Owned (l.owner s) me p
      → Fits rounds (l.owner s) count me p
      → Fits rounds (l.owner s') count' me p'
  Act-Fits (goes_on i h) o f = ground arith
  Act-Fits (ends i h) o f = ground arith
  Act-Fits {s'} (locks i {r} e) o f = let own = (lock-free l me i r s s' o e).1 in ground arith
  Act-Fits (reads i) o f = ground arith
  Act-Fits (writes i v) o f = ground arith
  Act-Fits (unlocks i) o f = ground arith

  pub Act-Fits_other :
      {count' : ℕ} {s' : z.State} {p p' : Pc} (j : ℕ) (q : Pc)
      → j ≢ me
      → Act z rounds me s count p s' count' p'
      → Owned (l.owner s) me p
      → Fits rounds (l.owner s) count me p
      → Fits rounds (l.owner s) count j q
      → Fits rounds (l.owner s') count' j q
  Act-Fits_other j q ne (goes_on i h) o f g = g
  Act-Fits_other j q ne (ends i h) o f g = g
  Act-Fits_other {s'} j q ne (locks i {r} e) o f g =
      let (free, own) = lock-free l me i r s s' o e in ground arith
  Act-Fits_other j q ne (reads i) o f g = g
  Act-Fits_other j q ne (writes i v) o f g = ground arith
  Act-Fits_other j q ne (unlocks i) o f g = ground arith

  pub Act-owner :
      {count' : ℕ} {s' : z.State} {p p' : Pc} (j : ℕ)
      → Act z rounds me s count p s' count' p'
      → Owned (l.owner s) me p
      → Fits rounds (l.owner s) count me p
      → l.owner s' ≡ some j
      → ((j ≡ me) × (inside p' ≡ true)) ⊎ ((l.owner s ≡ some j) × (j ≢ me))
  Act-owner j (goes_on i h) o f e = ground arith
  Act-owner j (ends i h) o f e = ground arith
  Act-owner {s'} j (locks i {r} e') o f e =
      let (free, own) = lock-free l me i r s s' o e' in ground arith
  Act-owner j (reads i) o f e = ground arith
  Act-owner j (writes i v) o f e = ground arith
  Act-owner j (unlocks i) o f e = let back = (l.gives_back me s (f.owns refl)).1 in ground arith

  pub Act-written :
      {count' : ℕ} {s' : z.State} {p p' : Pc}
      → Act z rounds me s count p s' count' p'
      → Fits rounds (l.owner s) count me p
      → written rounds p' + count ≡ written rounds p + count'
  Act-written (goes_on i h) f = ground arith
  Act-written (ends i h) f = ground arith
  Act-written (locks i e) f = ground arith
  Act-written (reads i) f = ground arith
  Act-written (writes i v) f = ground arith
  Act-written (unlocks i) f = ground arith

  pub Act-todo :
      {count' : ℕ} {s' : z.State} {p p' : Pc}
      → Act z rounds me s count p s' count' p'
      → Fits rounds (l.owner s) count me p
      → todo rounds p ≡ suc (todo rounds p')
  Act-todo (goes_on i h) f = ground arith
  Act-todo (ends i h) f = ground arith
  Act-todo (locks i e) f = ground arith
  Act-todo (reads i) f = ground arith
  Act-todo (writes i v) f = ground arith
  Act-todo (unlocks i) f = ground arith
