-- ===== src/Lock/Counter/Counts.antt =====
-- What the program of cpp_utils/lock.cpp prints, and that it gets there.
use tiny_utils.Base.{
  total-same, total-const, total-cases, ℕ, ◌+◌, ◌*◌, ◌≤◌, ◌<◌, ◌≡◌, ◌≢◌, ◌⊎◌, inl, inr, refl, ap,
  ◌∙◌, true, some, arith, Option-cases, dec_lt,
}
use tiny_utils.Lock.Api.{ZLock, IsLock}
use tiny_utils.Lock.Classes.{StdMutex, PthreadLock, z_mutex_lock, z_pthread_lock}
use tiny_utils.Lock.Filled.{z_mutex_lock-IsLock, z_pthread_lock-IsLock}
use tiny_utils.Lock.Counter.{
  Pc, testing, entering, reading, writing, leaving, returned, Act, goes_on, ends, locks, reads,
  writes, unlocks, System, moved_to, Step, act, Reach,
}
use tiny_utils.Lock.Counter.Fits.{inside, written, todo, rounds_begun}
use tiny_utils.Lock.Counter.Invariant.{Inv, Reach-Inv}

-- The threads have all returned with the exact count, or the program goes on.
abbrev pub Counted : (z : ZLock) (n rounds j : ℕ) → System z → Type 0
Counted z n rounds j s =
    (j ≤ n * (5 * rounds + 1))
    × ((((i : ℕ) → i < n → s.threads i ≡ returned) × (s.count ≡ n * rounds))
        ⊎ ((t : System z) × Step z n rounds s t))

CanAct : (z : ZLock) (rounds me : ℕ) → z.State → ℕ → Pc → Type 0
CanAct z rounds me s count p =
    (s' : z.State) × (count' : ℕ) × (p' : Pc) × Act z rounds me s count p s' count' p'

module _ (z : ZLock) (rounds me : ℕ) (s : z.State) (count : ℕ) where
  inside-CanAct : (p : Pc) → inside p ≡ true → CanAct z rounds me s count p
  unfolding CanAct
  inside-CanAct (testing i) e = cc
  inside-CanAct (entering i) e = cc
  inside-CanAct (reading i) e = (_, _, _, reads i)
  inside-CanAct (writing i v) e = (_, _, _, writes i v)
  inside-CanAct (leaving i) e = (_, _, _, unlocks i)
  inside-CanAct returned e = cc

  -- A thread that has not returned can go on, or waits for the owner of the lock.
  acts_or_waits :
      (l : IsLock z) (p : Pc)
      → p ≢ returned
      → CanAct z rounds me s count p ⊎ ((k : ℕ) × (l.owner s ≡ some k))
  unfolding CanAct
  acts_or_waits l (testing i) ne = elim (dec_lt i rounds) [
    | yes more ↦ inl (_, _, _, goes_on i more)
    | no last ↦ inl (_, _, _, ends i (omega arith))
  ]
  acts_or_waits l (entering i) ne = elim (Option-cases (l.owner s)) [
    | inl free ↦ let (s', e, own) = l.takes me s free in inl (_, _, _, locks i e)
    | inr held ↦ inr held
  ]
  acts_or_waits l (reading i) ne = inl (inside-CanAct (reading i) refl)
  acts_or_waits l (writing i v) ne = inl (inside-CanAct (writing i v) refl)
  acts_or_waits l (leaving i) ne = inl (inside-CanAct (leaving i) refl)
  acts_or_waits l returned ne = absurd (ne refl)

todo-zero : (rounds : ℕ) (p : Pc) → rounds_begun p ≤ rounds → todo rounds p ≡ 0 → p ≡ returned
todo-zero rounds (testing i) b e = absurd (omega arith)
todo-zero rounds (entering i) b e = absurd (omega arith)
todo-zero rounds (reading i) b e = absurd (omega arith)
todo-zero rounds (writing i v) b e = absurd (omega arith)
todo-zero rounds (leaving i) b e = absurd (omega arith)
todo-zero rounds returned b e = refl

module _ {z : ZLock} (l : IsLock z) {n rounds : ℕ} (s : System z) where
  step_of :
      (i : ℕ)
      → i < n
      → CanAct z rounds i s.shared s.count (s.threads i)
      → (t : System z) × Step z n rounds s t
  unfolding CanAct
  step_of i h (s', count', p', a) = (moved_to s i s' count' p', act i h a)

  goes_on_from :
      {j : ℕ}
      → Inv l n rounds j s
      → (i : ℕ) → i < n
      → s.threads i ≢ returned
      → (t : System z) × Step z n rounds s t
  goes_on_from v i h ne = elim (acts_or_waits z rounds i s.shared s.count l (s.threads i) ne) [
    | inl a ↦ step_of i h a
    | inr (k, held) ↦
        step_of k (owner_below k held)
          (inside-CanAct z rounds k s.shared s.count (s.threads k) (v.owned k held))
  ]
    where
      owner_below : (k : ℕ) → l.owner s.shared ≡ some k → k < n
      owner_below k held = elim (dec_lt k n) [
        | yes below ↦ below
        | no far ↦ cc (ap inside (v.outside k (omega arith)), v.owned k held)
      ]

  counts : {j : ℕ} → Inv l n rounds j s → Counted z n rounds j s
  counts v = (
    omega (arith, v.left),
    elim (total-cases (λ i. todo rounds (s.threads i)) n) [
      | inr (i, h, more) ↦ inr (goes_on_from v i h (λ e. omega (arith, more, ap (todo rounds) e)))
      | inl all ↦
          let back : (i : ℕ) → i < n → s.threads i ≡ returned =
            λ i h. todo-zero rounds (s.threads i) (v.fits i).bounded (all i h) in
          inl (
            back,
            v.counted
                ∙ total-same (λ i. written rounds (s.threads i)) (λ i. rounds) n
                    (λ i h. ap (written rounds) (back i h))
                ∙ total-const rounds n,
          )
    ],
  )

-- `n` threads run `test_mutex` with a ZMutexLock of C++11 on any mutex that behaves as documented, `rounds`
-- times each: after at most `n * (5 * rounds + 1)` accesses, in any order, all have returned and `count` is
-- `n * rounds`; before that some thread can always go on.
pub mutex_counts :
    (m : StdMutex) {n rounds j : ℕ} {s : System (z_mutex_lock m)}
    → Reach (z_mutex_lock m) n rounds j s
    → Counted (z_mutex_lock m) n rounds j s
mutex_counts m {s} r = counts (z_mutex_lock-IsLock m) s (Reach-Inv (z_mutex_lock-IsLock m) r)

-- The same for the classes before C++11, which return whether the number that pthread gives is 0: `n`
-- threads that run `test_spin` or `test_mutex` all return after at most `n * (5 * rounds + 1)` accesses,
-- `count` is `n * rounds` then, and before that some thread can always go on.
pub pthread_counts :
    (p : PthreadLock) {n rounds j : ℕ} {s : System (z_pthread_lock p)}
    → Reach (z_pthread_lock p) n rounds j s
    → Counted (z_pthread_lock p) n rounds j s
pthread_counts p {s} r = counts (z_pthread_lock-IsLock p) s (Reach-Inv (z_pthread_lock-IsLock p) r)
