-- ===== src/RwLock/Wakes/Served.antt =====
-- How a thread that waits in cpp_utils/rwlock.cpp gets the lock.
use tiny_utils.Base.{
  ℕ, zero, suc, ◌+◌, ◌-◌, ◌^◌, ◌≡◌, ◌<◌, inl, inr, refl, ◌∙◌, true, arith, ltb, Bool-cases,
}
use tiny_utils.RwLock.{
  Returns, read_loop, read_wake, write_loop, write_wake, unlock, release, wake_up,
}
use tiny_utils.RwLock.Unlock.{all_succeed}
use tiny_utils.RwLock.Wakes.{
  Places, AllSucceed, woken, after_read, after_write, Move, Run, Inv, Move-Inv, Run-Inv,
}

-- Only a holder that unlocks and a thread that has been woken go on: nobody calls, and nobody wakes up
-- for no reason.
pub data Goes (n : ℕ) (s : Places) : Places → Type 0 where
  unlocks_read :
      (r : Returns) (k : ℕ)
      → AllSucceed r
      → s.readers ≡ suc k
      → Goes n s (woken (unlock r s.lock).1 (record s { lock = (unlock r s.lock).0; readers = k }))
  unlocks_write :
      (r : Returns) (k : ℕ)
      → AllSucceed r
      → s.writers ≡ suc k
      → Goes n s (woken (unlock r s.lock).1 (record s { lock = (unlock r s.lock).0; writers = k }))
  read_wakes :
      (k : ℕ)
      → s.woken_read ≡ suc k
      → Goes n s (after_read (read_wake true s.lock) (record s { woken_read = k }))
  write_wakes :
      (k : ℕ)
      → s.woken_write ≡ suc k
      → Goes n s (after_write (write_wake true s.lock) (record s { woken_write = k }))

Goes-Move : {n : ℕ} {s t : Places} → Goes n s t → Move n s t
Goes-Move (unlocks_read r k a e) = Move.unlocks_read r k a e
Goes-Move (unlocks_write r k a e) = Move.unlocks_write r k a e
Goes-Move (read_wakes k e) = Move.read_wakes k e
Goes-Move (write_wakes k e) = Move.write_wakes k e

pub data Moves (n : ℕ) : Places → Places → Type 0 where
  none_left : {s : Places} → Moves n s s
  next : {s t u : Places} → Goes n s t → Moves n t u → Moves n s u

Moves-trans : {n : ℕ} {s t u : Places} → Moves n s t → Moves n t u → Moves n s u
Moves-trans none_left ms = ms
Moves-trans (next m ms) ms' = next m (Moves-trans ms ms')

abbrev pub holding : Places → ℕ
holding s = s.readers + s.writers

abbrev pub waiting : Places → ℕ
waiting s = s.asleep_read + s.woken_read + (s.asleep_write + s.woken_write)

-- One thread fewer holds the lock, and as many wait.
record Unlocked (s t : Places) : Type 0 where
  fewer : holding s ≡ suc (holding t)
  same : waiting t ≡ waiting s
  valid : t.lock.valid ≡ true

module _ (n : ℕ) (small : n < 2 ^ 31) where
  unlock_one :
      (k : ℕ) (s : Places)
      → Inv n s
      → s.lock.valid ≡ true
      → holding s ≡ suc k
      → (t : Places) × Goes n s t × Unlocked s t
  unlock_one k s i v e = elim (Bool-cases (ltb 0 s.writers)) [
    | inl writes ↦
        let some_writer : s.writers ≡ suc (s.writers - 1) = ground arith in
        (
          _,
          unlocks_write all_succeed (s.writers - 1) (refl, refl, refl) some_writer,
          unfold unlock release wake_up in ground (arith, i.counts),
        )
    | inr reads ↦
        let some_reader : s.readers ≡ suc (s.readers - 1) = ground arith in
        (
          _,
          unlocks_read all_succeed (s.readers - 1) (refl, refl, refl) some_reader,
          unfold unlock release wake_up in ground (arith, i.counts),
        )
  ]

  drain :
      (k : ℕ) (s : Places)
      → Inv n s
      → s.lock.valid ≡ true
      → holding s ≡ k
      → (t : Places) × Moves n s t
        × Inv n t
        × (holding t ≡ 0)
        × (t.lock.valid ≡ true)
        × (waiting t ≡ waiting s)
  drain zero s i v e = (s, none_left, i, e, v, refl)
  drain (suc k) s i v e =
      let (t, m, u) = unlock_one k s i v e in
      let (t', ms, i', free, v', same) =
        drain k t (Move-Inv n small i (Goes-Move m)) u.valid (omega (arith, u.fewer)) in
      (t', next m ms, i', free, v', same ∙ u.same)

  -- With the lock free, a thread that has been woken gets it.
  serve :
      (s : Places)
      → Inv n s
      → holding s ≡ 0
      → s.lock.valid ≡ true
      → 0 < waiting s
      → (t : Places) × Goes n s t × (0 < holding t) × (waiting t < waiting s)
  serve s i free v some_waiting = elim (Bool-cases (ltb 0 s.woken_write)) [
    | inl writer ↦
        let one : s.woken_write ≡ suc (s.woken_write - 1) = ground arith in
        (
          _,
          write_wakes (s.woken_write - 1) one,
          unfold write_wake write_loop in ground (arith, i.counts),
          unfold write_wake write_loop in ground (arith, i.counts),
        )
    | inr no_writer ↦
        let one : s.woken_read ≡ suc (s.woken_read - 1) = ground (arith, i.cared) in
        (
          _,
          read_wakes (s.woken_read - 1) one,
          unfold read_wake read_loop in ground (arith, i.counts),
          unfold read_wake read_loop in ground (arith, i.counts),
        )
  ]

-- Fewer than 2^31 threads use no timed call, are not cancelled and do not destroy the lock, and the pthread
-- calls of `unlock` and the waits succeed. Then from every state that they reach where some thread waits, a
-- state where fewer threads wait and some thread holds the lock can be reached by unlocking and by running the
-- threads that a signal or a broadcast has woken or that had been woken before, without a new call or a
-- spurious wake-up.
pub waiter_served :
    {n : ℕ} {s : Places}
    → n < 2 ^ 31
    → Run n s
    → 0 < waiting s
    → (t : Places) × Moves n s t × (0 < holding t) × (waiting t < waiting s)
waiter_served {n} {s} small r some_waiting =
    let i = Run-Inv small r in
    let v : s.lock.valid ≡ true = ground (arith, i.counts) in
    let (t, ms, i', free, v', same) = drain n small (holding s) s i v refl in
    let (t', m, held, fewer) = serve n small t i' free v' (omega (arith, same)) in
    (t', Moves-trans ms (next m none_left), held, omega (arith, same, fewer))
