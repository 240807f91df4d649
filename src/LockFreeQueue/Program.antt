-- ===== src/LockFreeQueue/Program.antt =====
-- cpp_utils/lockfree_queue.cpp, the program: a thread that enqueues the numbers of its loop, and one
-- that dequeues until it has got as many. `rounds` is the 1000 of both loops. Printing and sleeping are
-- left out.
pub mod Counted
pub mod Finite
pub mod Ends
mod Tests
use tiny_utils.Base.{ℕ, suc, ◌<◌, ◌≡◌, ◌≢◌, []}
use tiny_utils.LockFreeQueue.{create}
use tiny_utils.LockFreeQueue.Threads.{
  Producer, Consumer, System, Step, writes, links, moves, publishes, counts_up, finds_none,
  finds_one, gets, unlinks, frees, counts_down,
}

-- The queue with what its two threads are about, and the `i` of `Produce` and of `Consum`.
pub record Program : Type 0 where
  pub system : System ℕ
  pub produced : ℕ
  pub consumed : ℕ

-- Which accesses the loops make: `Produce` enqueues `i` while `i < 1000`, and `Consum` calls `Dequeue`
-- while `i < 1000`.
abbrev pub Loops : (rounds : ℕ) (p : Program) {t : System ℕ} → Step 0 p.system t → Type 0
Loops rounds p (writes v e e') = (v ≡ p.produced) × (p.produced < rounds)
Loops rounds p (finds_none e e') = p.consumed < rounds
Loops rounds p (finds_one e e') = p.consumed < rounds
Loops rounds p _ = Unit

-- `++i` of `Produce` stands behind `Enqueue`.
abbrev pub produced_after : (p : Program) {t : System ℕ} → Step 0 p.system t → ℕ
produced_after p (counts_up e) = suc p.produced
produced_after p _ = p.produced

-- `++i` of `Consum` stands behind a `Dequeue` that returns true.
abbrev pub consumed_after : (p : Program) {t : System ℕ} → Step 0 p.system t → ℕ
consumed_after p (counts_down e) = suc p.consumed
consumed_after p _ = p.consumed

pub data Move (rounds : ℕ) (p : Program) : Program → Type 0 where
  move :
      {t : System ℕ} (m : Step 0 p.system t)
      → Loops rounds p m
      → Move rounds p
          (record { system = t; produced = produced_after p m; consumed = consumed_after p m })

pub data Moves (rounds : ℕ) : Program → Program → Type 0 where
  none_left : {p : Program} → Moves rounds p p
  next : {p q r : Program} → Move rounds p q → Moves rounds q r → Moves rounds p r

abbrev pub begun : ℕ → ℕ → Program
begun a b = record {
  system = record {
    queue = create 0 a b;
    producer = Producer.ready;
    consumer = Consumer.ready;
    ins = [];
    outs = [];
  };
  produced = 0;
  consumed = 0;
}

pub data Reach (rounds : ℕ) : Program → Type 0 where
  start : (a b : ℕ) → a ≢ b → Reach rounds (begun a b)
  later : {p q : Program} → Reach rounds p → Move rounds p q → Reach rounds q
