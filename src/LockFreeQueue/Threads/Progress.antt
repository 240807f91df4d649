-- ===== src/LockFreeQueue/Threads/Progress.antt =====
-- No access of either thread goes through a null pointer or to a node that is not in use.
use tiny_utils.Base.{ℕ, ◌≡◌, ◌≢◌, refl, Option, none, some, [], ◌∷◌, Outcome, ok, ◌>>=◌, arith}
use tiny_utils.LockFreeQueue.{
  QueueNode, LockFreeQueue, node, put, update, write_value, link, move_tail, publish, count_up,
  has_published, first, unlink, free_node, count_down,
}
use tiny_utils.LockFreeQueue.Chain.{Items, first_addr, Chain}
use tiny_utils.LockFreeQueue.Threads.{
  Producer, wrote, linked, moved, published, Consumer, tested, got, unlinked, freed, System, Reach,
}
use tiny_utils.LockFreeQueue.Threads.Fifo.{Reach-Inv}
use tiny_utils.LockFreeQueue.Threads.Invariant.{InvOf, next_of, StartsWith, ProducerOk}

module _ {A : Type 0} where
  -- The next access of each side, with the value and the address that the producer is given.
  pub producer_access : A → A → ℕ → System A → Outcome (LockFreeQueue A)
  producer_access d v b s = elim s.producer [
    | Producer.ready ↦ write_value v s.queue
    | wrote w ↦ link d b s.queue
    | linked w a ↦ move_tail s.queue
    | moved w ↦ ok (publish s.queue)
    | published ↦ ok (count_up s.queue)
  ]

  pub consumer_access : System A → Outcome (LockFreeQueue A)
  consumer_access s = elim s.consumer [
    | Consumer.ready ↦ (has_published s.queue >>= λ more. ok s.queue)
    | tested ↦ (first s.queue >>= λ x. ok s.queue)
    | got tmp v ↦ unlink s.queue
    | unlinked tmp v ↦ free_node tmp s.queue
    | freed ↦ ok (count_down s.queue)
  ]

  abbrev pub Succeeds : Outcome (LockFreeQueue A) → Type 0
  Succeeds r = (q : LockFreeQueue A) × (r ≡ ok q)

  pub write_value-Succeeds :
      (q : LockFreeQueue A) (v : A)
      → next_of (q.cells q.tail) ≡ some none
      → Succeeds (write_value v q)
  unfolding write_value
  write_value-Succeeds q v h = (put q q.tail (node v none), ground arith)

  pub link-Succeeds :
      (d : A) (q : LockFreeQueue A) (v : A) (b : ℕ)
      → q.cells q.tail ≡ some (node v none)
      → q.cells b ≡ none
      → Succeeds (link d b q)
  unfolding link
  link-Succeeds d q v b h free =
      (put (put q b (node d none)) q.tail (node v (some b)), ground arith)

  pub move_tail-Succeeds :
      (q : LockFreeQueue A) (v : A) (b : ℕ)
      → q.cells q.tail ≡ some (node v (some b))
      → Succeeds (move_tail q)
  unfolding move_tail
  move_tail-Succeeds q v b h = (record q { tail = b }, ground arith)

  pub has_published-Succeeds :
      (q : LockFreeQueue A) (a : ℕ)
      → next_of (q.cells q.head) ≡ some (some a)
      → Succeeds (has_published q >>= λ more. ok q)
  unfolding has_published
  has_published-Succeeds q a h = (q, ground arith)

  pub first-Succeeds :
      (q : LockFreeQueue A) (items : Items A)
      → items ≢ []
      → next_of (q.cells q.head) ≡ some (some (first_addr items q.publisher))
      → Chain q.cells items q.publisher
      → Succeeds (first q >>= λ x. ok q)
  unfolding first
  first-Succeeds q [] n h c = absurd (n refl)
  first-Succeeds q ((a, v) ∷ rest) n h c = (q, ground arith)

  pub unlink-Succeeds :
      (q : LockFreeQueue A) (items : Items A) (tmp : ℕ) (v : A)
      → StartsWith items tmp v
      → next_of (q.cells q.head) ≡ some (some (first_addr items q.publisher))
      → Chain q.cells items q.publisher
      → Succeeds (unlink q)
  unfolding unlink
  unlink-Succeeds q [] tmp v s h c = absurd s
  unlink-Succeeds q ((a, w) ∷ rest) tmp v s h c = head_cell (q.cells q.head) refl
    where
      head_cell : (o : Option (QueueNode A)) → q.cells q.head ≡ o → Succeeds (unlink q)
      head_cell none k = absurd (ground arith)
      head_cell (some n) k =
          (put q q.head (node n.value (some (first_addr rest q.publisher))), ground arith)

  pub free_node-Succeeds :
      (q : LockFreeQueue A) (tmp : ℕ) → q.cells tmp ≢ none → Succeeds (free_node tmp q)
  unfolding free_node
  free_node-Succeeds q tmp u = (record q { cells = update q.cells tmp none }, ground arith)

  pub producer-Succeeds :
      (d v : A) (b : ℕ) (s : System A) (items : Items A) (p : Producer A)
      → s.producer ≡ p
      → ProducerOk s.queue items p
      → s.queue.cells b ≡ none
      → Succeeds (producer_access d v b s)
  unfolding producer_access
  producer-Succeeds d v b s items Producer.ready e i free =
      rw e (write_value-Succeeds s.queue v i.1)
  producer-Succeeds d v b s items (wrote w) e i free = rw e (link-Succeeds d s.queue w b i.1 free)
  producer-Succeeds d v b s items (linked w a) e i free = rw e (move_tail-Succeeds s.queue w a i.1)
  producer-Succeeds d v b s items (moved w) e i free = rw e (_, refl)
  producer-Succeeds d v b s items published e i free = rw e (_, refl)

  pub consumer-Succeeds :
      (s : System A) (items : Items A) (c : Consumer A)
      → s.consumer ≡ c
      → InvOf s.queue s.producer c s.ins s.outs items
      → Succeeds (consumer_access s)
  unfolding consumer_access
  consumer-Succeeds s items Consumer.ready e i = rw e (has_published-Succeeds s.queue _ i.at_head)
  consumer-Succeeds s items tested e i =
      rw e (first-Succeeds s.queue items i.consumer_ok i.at_head i.chain)
  consumer-Succeeds s items (got tmp v) e i =
      rw e (unlink-Succeeds s.queue items tmp v i.consumer_ok i.at_head i.chain)
  consumer-Succeeds s items (unlinked tmp v) e i =
      rw e (free_node-Succeeds s.queue tmp i.consumer_ok.0)
  consumer-Succeeds s items freed e i = rw e (_, refl)

  -- In every reachable state, for any value and any address not in use, the next access of the
  -- producer and the next access of the consumer both succeed: neither reads a node that is freed or
  -- never allocated, nor follows a null pointer.
  pub accesses_succeed :
      (d v : A) (b : ℕ) {s : System A}
      → Reach d s
      → s.queue.cells b ≡ none
      → Succeeds (producer_access d v b s) × Succeeds (consumer_access s)
  accesses_succeed d v b {s} r free =
      let (items, i) = Reach-Inv d r in
      (
        producer-Succeeds d v b s items s.producer refl i.producer_ok free,
        consumer-Succeeds s items s.consumer refl i,
      )
