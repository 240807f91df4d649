-- ===== src/LockFreeQueue.antt =====
-- cpp_utils/lockfree_queue.cpp, class LockFreeQueue: one producer and one consumer over a linked
-- list. Nodes live on an explicit heap; a null pointer is `none`. `new` takes an address that is not
-- in use, which is an argument. Each function is one access to shared memory, or the few
-- that touch what one side alone writes; the accesses are sequentially consistent.
pub mod Chain
pub mod Threads
pub mod Sequential
pub mod Destroyed
pub mod Leaks
pub mod Program
mod Tests
use tiny_utils.Base.{
  ℕ, zero, suc, List, [], ◌∷◌, ◌-◌, ◌%◌, ◌^◌, Bool, true, false, not, Option, none, some, Outcome,
  ok, fault, Fault, ◌>>=◌, from_option, ◌==◌, if◌then◌else◌,
}
use tiny_utils.Base.Int.{to_int, ℤ, pos, negsuc, ◌+ℤ◌, ◌-ℤ◌}

-- QueueNode
pub record QueueNode (A : Type 0) : Type 0 where
  pub value : A
  pub next : Option ℕ

pub record LockFreeQueue (A : Type 0) : Type 0 where
  pub cells : ℕ → Option (QueueNode A)
  pub head : ℕ
  pub tail : ℕ
  pub publisher : ℕ
  pub size : ℤ

abbrev pub update {ℓ} : {A : Type ℓ} → (ℕ → A) → ℕ → A → ℕ → A
update f a v b = if a == b then v else f b

module _ {A : Type 0} where
  abbrev pub node : A → Option ℕ → QueueNode A
  node v n = record { value = v; next = n }

  -- `*a`, where `a` must point to a node in use.
  abbrev pub deref : LockFreeQueue A → ℕ → Outcome (QueueNode A)
  deref q a = from_option (q.cells a) Fault.out_of_bounds

  abbrev pub put : LockFreeQueue A → ℕ → QueueNode A → LockFreeQueue A
  put q a n = record q { cells = update q.cells a (some n) }

  -- The constructor, with `a` and `b` from `new` and `d` the value of `T()`.
  unfoldable pub create : A → ℕ → ℕ → LockFreeQueue A
  create d a b = record {
    cells = update (update (λ _. none) b (some (node d none))) a (some (node d (some b)));
    head = a;
    tail = b;
    publisher = b;
    size = pos 0;
  }

  -- `tail->value = value`
  unfoldable pub write_value : A → LockFreeQueue A → Outcome (LockFreeQueue A)
  write_value v q = do n ← deref q q.tail; ok (put q q.tail (record n { value = v }))

  -- `tail->next = new QueueNode()`
  unfoldable pub link : A → ℕ → LockFreeQueue A → Outcome (LockFreeQueue A)
  link d b q = do
    let q' = put q b (node d none)
    n ← deref q' q'.tail
    ok (put q' q'.tail (record n { next = some b }))

  -- `tail = tail->next`
  unfoldable pub move_tail : LockFreeQueue A → Outcome (LockFreeQueue A)
  move_tail q = do
    n ← deref q q.tail
    b ← from_option n.next Fault.null_pointer
    ok (record q { tail = b })

  -- `publisher = tail`
  unfoldable pub publish : LockFreeQueue A → LockFreeQueue A
  publish q = record q { publisher = q.tail }

  -- `++size`, an `atomic<int>`, which wraps.
  unfoldable pub count_up : LockFreeQueue A → LockFreeQueue A
  count_up q = record q { size = to_int (q.size +ℤ pos 1) }

  pub enqueue : A → A → ℕ → LockFreeQueue A → Outcome (LockFreeQueue A)
  enqueue d v b q = do
    q₁ ← write_value v q
    q₂ ← link d b q₁
    q₃ ← move_tail q₂
    ok (count_up (publish q₃))

  -- `!(head->next == publisher)`
  unfoldable pub has_published : LockFreeQueue A → Outcome Bool
  has_published q = do
    h ← deref q q.head
    ok (elim h.next [ none ↦ true | some a ↦ not (a == q.publisher) ])

  -- `tmp = head->next; value = head->next->value`
  unfoldable pub first : LockFreeQueue A → Outcome (ℕ × A)
  first q = do
    h ← deref q q.head
    tmp ← from_option h.next Fault.null_pointer
    n ← deref q tmp
    ok (tmp, n.value)

  -- `head->next = head->next->next`
  unfoldable pub unlink : LockFreeQueue A → Outcome (LockFreeQueue A)
  unlink q = do
    h ← deref q q.head
    a ← from_option h.next Fault.null_pointer
    n ← deref q a
    ok (put q q.head (record h { next = n.next }))

  -- `delete tmp`
  unfoldable pub free_node : ℕ → LockFreeQueue A → Outcome (LockFreeQueue A)
  free_node tmp q = do n ← deref q tmp; ok (record q { cells = update q.cells tmp none })

  -- `while(head != nullptr)` in the destructor, on fuel, with the nodes that it deletes.
  unfoldable pub destroy_loop : ℕ → Option ℕ → LockFreeQueue A → Outcome (LockFreeQueue A × List ℕ)
  destroy_loop fuel none q = ok (q, [])
  destroy_loop zero (some tmp) q = fault Fault.no_fuel
  destroy_loop (suc fuel) (some tmp) q = do
    n ← deref q tmp
    q' ← free_node tmp q
    (q'', deleted) ← destroy_loop fuel n.next q'
    ok (q'', tmp ∷ deleted)

  unfoldable pub destroy : ℕ → LockFreeQueue A → Outcome (LockFreeQueue A × List ℕ)
  destroy fuel q = destroy_loop fuel (some q.head) q

  -- `--size`
  unfoldable pub count_down : LockFreeQueue A → LockFreeQueue A
  count_down q = record q { size = to_int (q.size -ℤ pos 1) }

  -- What follows the test: the value goes through the reference argument.
  take_first : LockFreeQueue A → Outcome (Option A × LockFreeQueue A)
  take_first q = do
    (tmp, v) ← first q
    q₁ ← unlink q
    q₂ ← free_node tmp q₁
    ok (some v, count_down q₂)

  pub dequeue : LockFreeQueue A → Outcome (Option A × LockFreeQueue A)
  dequeue q = do more ← has_published q; if more then take_first q else ok (none, q)

  -- The conversion of `int` to `uint32_t`.
  pub queue_size : LockFreeQueue A → ℕ
  queue_size q = elim q.size [ pos n ↦ n % 2 ^ 32 | negsuc n ↦ (2 ^ 32 - 1 - n % 2 ^ 32) ]

  pub is_empty : LockFreeQueue A → Bool
  is_empty q = elim q.size [ pos n ↦ n == 0 | negsuc n ↦ false ]

  pub has_unpublished : LockFreeQueue A → Bool
  has_unpublished q = not (q.publisher == q.tail)
