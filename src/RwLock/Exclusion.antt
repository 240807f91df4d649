-- ===== src/RwLock/Exclusion.antt =====
-- What the lock promises, in every state that the threads can reach.
use tiny_utils.Base.{
  ℕ, zero, suc, ◌+◌, ◌^◌, ◌≡◌, ◌≤◌, ◌<◌, ◌⊎◌, inl, false, List, [], ◌∷◌, ◌++◌, length,
  length-append, length-replicate, replicate, refl, arith,
}
use tiny_utils.Base.Int.{ℤ, pos, negsuc, ◌+ℤ◌, ◌-ℤ◌}
use tiny_utils.RwLock.{
  ReadWriteLock, fresh, destroy, read_lock, timed_read_lock, timed_write_wait, read_loop, read_wake,
  try_read_lock, write_lock, write_loop, write_wake, try_write_lock, unlock, release,
  cancel_read_lock_wait, cancel_write_lock_wait,
}
use tiny_utils.RwLock.Threads.{
  Pc, idle, reading, writing, waiting_read, waiting_write, timed_read, timed_write, Act, reads,
  System, Step, act, Reach, start, later,
}

-- 1 for a thread at the first place, 0 elsewhere.
abbrev pub is_at : Pc → Pc → ℕ
is_at reading reading = 1
is_at writing writing = 1
is_at waiting_read waiting_read = 1
is_at waiting_write waiting_write = 1
is_at timed_read timed_read = 1
is_at timed_write timed_write = 1
is_at _ _ = 0

pub count : Pc → List Pc → ℕ
count q [] = 0
count q (p ∷ ps) = is_at q p + count q ps

count-append : (q : Pc) (xs ys : List Pc) → count q (xs ++ ys) ≡ count q xs + count q ys
unfolding count
count-append q [] ys = omega arith
count-append q (x ∷ xs) ys = omega (arith, count-append q xs ys)

count-move :
    (q p : Pc) (before after : List Pc)
    → count q (before ++ (p ∷ after)) ≡ is_at q p + (count q before + count q after)
unfolding count
count-move q p before after = omega (arith, count-append q before (p ∷ after))

-- `ref_count` for `r` readers and `w` writers.
abbrev pub Holders : ℤ → ℕ → ℕ → Type 0
Holders c r w = ((w ≡ 0) × (c ≡ pos r)) ⊎ ((w ≡ 1) × (r ≡ 0) × (c ≡ negsuc 0))

-- The lock's fields against the numbers of threads that read, write and wait.
pub record Counts (l : ReadWriteLock) (r w wr ww : ℕ) : Type 0 where
  pub holders : Holders l.ref_count r w
  pub reader_waiting : l.reader_waiting_num ≡ wr
  pub writer_waiting : l.writer_waiting_num ≡ ww
  pub retired : l.valid ≡ false → (r ≡ 0) × (w ≡ 0) × (wr ≡ 0) × (ww ≡ 0)

Act-Counts :
    (r w wr tr ww tw : ℕ) {l l' : ReadWriteLock} {p p' : Pc}
    → r + w + (wr + tr) + (ww + tw) < 2 ^ 31
    → Act l p l' p'
    → Counts l
        (is_at reading p + r)
        (is_at writing p + w)
        (is_at waiting_read p + wr + (is_at timed_read p + tr))
        (is_at waiting_write p + ww + (is_at timed_write p + tw))
    → Counts l'
        (is_at reading p' + r)
        (is_at writing p' + w)
        (is_at waiting_read p' + wr + (is_at timed_read p' + tr))
        (is_at waiting_write p' + ww + (is_at timed_write p' + tw))
unfolding read_lock timed_read_lock timed_write_wait read_loop read_wake try_read_lock write_lock
    write_loop write_wake try_write_lock unlock release destroy cancel_read_lock_wait
    cancel_write_lock_wait ◌+ℤ◌ ◌-ℤ◌
Act-Counts r w wr tr ww tw b (reads e) c = ground arith
Act-Counts r w wr tr ww tw b a c = ground arith

-- The threads that wait to read and to write, in a timed call or not.
abbrev pub waiting_readers : System → ℕ
waiting_readers s = count waiting_read s.threads + count timed_read s.threads

abbrev pub waiting_writers : System → ℕ
waiting_writers s = count waiting_write s.threads + count timed_write s.threads

-- The invariant of the system, for the lock and all threads.
abbrev pub Inv : ℕ → System → Type 0
Inv n s =
    Counts s.lock (count reading s.threads) (count writing s.threads) (waiting_readers s)
      (waiting_writers s)
    × (length s.threads ≡ n)

count-idle : (q : Pc) (n : ℕ) → count q (replicate n idle) ≡ 0
unfolding count
count-idle q zero = refl
count-idle reading (suc n) = omega (arith, count-idle reading n)
count-idle q (suc n) = omega (arith, count-idle q n)

-- A thread stands in one place only.
count_total :
    (ps : List Pc)
    → count reading ps
        + count writing ps
        + (count waiting_read ps + count timed_read ps)
        + (count waiting_write ps + count timed_write ps)
      ≤ length ps
unfolding count
count_total [] = omega arith
count_total (p ∷ ps) = ground (arith, count_total ps)

fresh-Inv : (n : ℕ) → Inv n (record { lock = fresh; threads = replicate n idle })
unfolding fresh
fresh-Inv n =
    rw
      (
        count-idle reading n,
        count-idle writing n,
        count-idle waiting_read n,
        count-idle timed_read n,
        count-idle waiting_write n,
        count-idle timed_write n,
      )
      (
        record {
          holders = inl (refl, refl);
          reader_waiting = refl;
          writer_waiting = refl;
          retired = λ e. (refl, refl, refl, refl);
        },
        length-replicate n idle,
      )

Step-Inv : {n : ℕ} {s t : System} → n < 2 ^ 31 → Step s t → Inv n s → Inv n t
Step-Inv {n} small (act before after {p} {p'} {l} {l'} a) (c, len) = (
  rw
      (
        count-move reading p',
        count-move writing p',
        count-move waiting_read p',
        count-move timed_read p',
        count-move waiting_write p',
        count-move timed_write p',
      )
      (Act-Counts (others reading) (others writing) (others waiting_read) (others timed_read)
        (others waiting_write) (others timed_write) few a
        (rw
          (
            count-move reading p,
            count-move writing p,
            count-move waiting_read p,
            count-move timed_read p,
            count-move waiting_write p,
            count-move timed_write p,
          )
          at c)),
  omega (arith, len, length-append before (p ∷ after), length-append before (p' ∷ after)),
)
  where
    others : Pc → ℕ
    others q = count q before + count q after

    few :
        others reading
          + others writing
          + (others waiting_read + others timed_read)
          + (others waiting_write + others timed_write)
        < 2 ^ 31
    few =
        omega (arith, len, count_total before, count_total after, length-append before (p ∷ after))

Reach-Inv : {n : ℕ} {s : System} → n < 2 ^ 31 → Reach n s → Inv n s
Reach-Inv {n} small start = fresh-Inv n
Reach-Inv small (later r st) = Step-Inv small st (Reach-Inv small r)

-- Fewer than 2^31 threads call a lock that is not destroyed; only a thread that holds the lock unlocks it, the
-- mutex is taken in `unlock`, and no thread is cancelled in a timed call. Then in every reachable state
-- either nobody writes and `ref_count` is the number of readers, or one thread writes, nobody reads, and
-- `ref_count` is -1; the two waiting numbers are the numbers of threads that wait, in a timed call or not.
pub mutual_exclusion :
    {n : ℕ} {s : System}
    → n < 2 ^ 31
    → Reach n s
    → Holders s.lock.ref_count (count reading s.threads) (count writing s.threads)
      × (s.lock.reader_waiting_num ≡ waiting_readers s)
      × (s.lock.writer_waiting_num ≡ waiting_writers s)
mutual_exclusion small r =
    let (c, len) = Reach-Inv small r in (c.holders, c.reader_waiting, c.writer_waiting)
