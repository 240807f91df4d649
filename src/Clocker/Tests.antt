-- ===== src/Clocker/Tests.antt =====
-- A run of scopes of c_utils/clocker.h on a concrete lock, and the theorem at its state.
use tiny_utils.Base.{
  ℕ, ◌≡◌, ◌≢◌, ◌↔◌, ◌⊎◌, inl, inr, refl, ap, Bool, true, false, Option, none, some, List, [], ◌∷◌,
  ◌==◌, if◌then◌else◌, arith,
}
use tiny_utils.Clocker.{PthreadRwlock, read_lock, write_lock, unlock}
use tiny_utils.Clocker.Scopes.{
  outside, enters_read, leaves_read, enters_write, System, act, Reach, start, later,
}
use tiny_utils.Clocker.Exclusion.{is_reading, is_writing, scopes_exclude}

-- The lock is the number of a writer, or the numbers of the readers.
data Held : Type 0 where
  by_writer : ℕ → Held
  by_readers : List ℕ → Held

among : ℕ → List ℕ → Bool
among k [] = false
among k (x ∷ xs) = if x == k then true else among k xs

without : ℕ → List ℕ → List ℕ
without i [] = []
without i (x ∷ xs) = let rest = without i xs in if x == i then rest else x ∷ rest

among-without :
    (i k : ℕ) (xs : List ℕ) → among k (without i xs) ≡ (if i == k then false else among k xs)
unfolding among without
among-without i k [] = ground arith
among-without i k (x ∷ xs) = ground (arith, among-without i k xs)

writer_of : Held → Option ℕ
writer_of (by_writer i) = some i
writer_of (by_readers xs) = none

reads_of : Held → ℕ → Bool
reads_of (by_writer i) k = false
reads_of (by_readers xs) k = among k xs

lock_read : ℕ → Held → Option (ℕ × Held)
lock_read i (by_writer j) = none
lock_read i (by_readers xs) = some (0, by_readers (i ∷ xs))

lock_write : ℕ → Held → Option (ℕ × Held)
lock_write i (by_readers []) = some (0, by_writer i)
lock_write i _ = none

-- 16 is EBUSY.
try_read : ℕ → Held → ℕ × Held
try_read i (by_writer j) = (16, by_writer j)
try_read i (by_readers xs) = (0, by_readers (i ∷ xs))

try_write : ℕ → Held → ℕ × Held
try_write i (by_readers []) = (0, by_writer i)
try_write i s = (16, s)

give_up : ℕ → Held → ℕ × Held
give_up i (by_writer j) = (0, by_readers [])
give_up i (by_readers xs) = (0, by_readers (without i xs))

abbrev GotRead : ℕ → Held → Held → Type 0
GotRead i s s' =
    (writer_of s ≡ none)
    × (writer_of s' ≡ none)
    × ((k : ℕ) → reads_of s' k ≡ (if i == k then true else reads_of s k))

abbrev GotWrite : ℕ → Held → Held → Type 0
GotWrite i s s' =
    (writer_of s ≡ none)
    × ((k : ℕ) → reads_of s k ≡ false)
    × (writer_of s' ≡ some i)
    × ((k : ℕ) → reads_of s' k ≡ false)

lock_read-GotRead : (i : ℕ) (s s' : Held) → lock_read i s ≡ some (0, s') → GotRead i s s'
unfolding writer_of reads_of lock_read among
lock_read-GotRead i (by_writer j) s' e = cc
lock_read-GotRead i (by_readers xs) s' e = (refl, ground arith, λ k. ground arith)

lock_write-GotWrite : (i : ℕ) (s s' : Held) → lock_write i s ≡ some (0, s') → GotWrite i s s'
unfolding writer_of reads_of lock_write among
lock_write-GotWrite i (by_writer j) s' e = cc
lock_write-GotWrite i (by_readers []) s' e = (refl, λ k. refl, ground arith, λ k. ground arith)
lock_write-GotWrite i (by_readers (x ∷ xs)) s' e = cc

try_read-GotRead : (i : ℕ) (s s' : Held) → try_read i s ≡ (0, s') → GotRead i s s'
unfolding writer_of reads_of try_read among
try_read-GotRead i (by_writer j) s' e = absurd (ground arith)
try_read-GotRead i (by_readers xs) s' e = (refl, ground arith, λ k. ground arith)

try_write-GotWrite : (i : ℕ) (s s' : Held) → try_write i s ≡ (0, s') → GotWrite i s s'
unfolding writer_of reads_of try_write among
try_write-GotWrite i (by_writer j) s' e = absurd (ground arith)
try_write-GotWrite i (by_readers []) s' e = (refl, λ k. refl, ground arith, λ k. ground arith)
try_write-GotWrite i (by_readers (x ∷ xs)) s' e = absurd (ground arith)

fails_same :
    (i code : ℕ) (s s' : Held)
    → code ≢ 0
    → (try_read i s ≡ (code, s')) ⊎ (try_write i s ≡ (code, s'))
    → s' ≡ s
unfolding try_read try_write
fails_same i code (by_writer j) s' ne (inl e) = ground arith
fails_same i code (by_readers xs) s' ne (inl e) = absurd (ground arith)
fails_same i code (by_writer j) s' ne (inr e) = ground arith
fails_same i code (by_readers []) s' ne (inr e) = absurd (ground arith)
fails_same i code (by_readers (x ∷ xs)) s' ne (inr e) = ground arith

give_up_read :
    (i : ℕ) (s : Held)
    → reads_of s i ≡ true
    → (writer_of (give_up i s).1 ≡ writer_of s)
      × ((k : ℕ) → reads_of (give_up i s).1 k ≡ (if i == k then false else reads_of s k))
unfolding writer_of reads_of give_up
give_up_read i (by_writer j) e = cc
give_up_read i (by_readers xs) e = (refl, λ k. among-without i k xs)

give_up_write :
    (i : ℕ) (s : Held)
    → writer_of s ≡ some i
    → (writer_of (give_up i s).1 ≡ none) × ((k : ℕ) → reads_of (give_up i s).1 k ≡ reads_of s k)
unfolding writer_of reads_of give_up among
give_up_write i (by_writer j) e = (refl, λ k. refl)
give_up_write i (by_readers xs) e = cc

by_held : PthreadRwlock
unfolding writer_of reads_of among
by_held = record {
  Rwlock = Held;
  initialised = by_readers [];
  writer = writer_of;
  reads = reads_of;
  rdlock = lock_read;
  wrlock = lock_write;
  tryrdlock = try_read;
  trywrlock = try_write;
  unlock_it = give_up;
  nobody = (refl, λ i. refl);
  rdlock_gets = lock_read-GotRead;
  wrlock_gets = lock_write-GotWrite;
  tryrdlock_gets = try_read-GotRead;
  trywrlock_gets = try_write-GotWrite;
  tries = λ i code s s' ne e. (
    ap writer_of (fails_same i code s s' ne e),
    λ k. ap (λ (t : Held). reads_of t k) (fails_same i code s s' ne e),
  );
  unlock_read = give_up_read;
  unlock_write = give_up_write;
}

-- Thread 0 has read and left, and thread 1 writes.
abbrev one_writes : (s : System by_held) × Reach by_held s × (s.all_locked ≡ true)
unfolding by_held read_lock write_lock unlock lock_read lock_write give_up without
one_writes = (
  _,
  later (later (later start (act 0 (enters_read refl))) (act 0 leaves_read))
      (act 1 (enters_write refl)),
  refl,
)

scopes_exclude_example :
    (by_held.reads one_writes.0.shared 1 ≡ is_reading (one_writes.0.threads 1))
    × ((by_held.writer one_writes.0.shared ≡ some 1) ↔ (is_writing (one_writes.0.threads 1) ≡ true))
    × ((k : ℕ)
        → (1 ≡ k)
          ⊎ (is_writing (one_writes.0.threads 1) ≡ false)
          ⊎ (one_writes.0.threads k ≡ outside))
scopes_exclude_example = scopes_exclude 1 one_writes.1 one_writes.2
