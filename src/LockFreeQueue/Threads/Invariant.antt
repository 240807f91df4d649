-- ===== src/LockFreeQueue/Threads/Invariant.antt =====
-- What holds of the queue's nodes between any two accesses.
use tiny_utils.Base.{ℕ, ◌+◌, ◌≡◌, ◌≢◌, Option, none, some, List, [], ◌∷◌, ◌++◌, length}
use tiny_utils.Base.Int.{to_int, sub_ℕ}
use tiny_utils.LockFreeQueue.{QueueNode, LockFreeQueue, node}
use tiny_utils.LockFreeQueue.Chain.{Items, values, first_addr, Chain, Fresh, NoRepeat}
use tiny_utils.LockFreeQueue.Threads.{
  Producer, wrote, linked, moved, published, Consumer, tested, got, unlinked, freed,
}

module _ {A : Type 0} where
  abbrev pub next_of : Option (QueueNode A) → Option (Option ℕ)
  next_of none = none
  next_of (some n) = some n.next

  abbrev pub ProducerOk : LockFreeQueue A → Items A → Producer A → Type 0
  ProducerOk q items Producer.ready =
      (q.tail ≡ q.publisher) × (next_of (q.cells q.tail) ≡ some none)
  ProducerOk q items (wrote v) = (q.tail ≡ q.publisher) × (q.cells q.tail ≡ some (node v none))
  ProducerOk q items (linked v b) =
      (q.tail ≡ q.publisher)
      × (q.cells q.tail ≡ some (node v (some b)))
      × (next_of (q.cells b) ≡ some none)
      × (b ≢ q.tail)
      × (b ≢ q.head)
      × Fresh b items
  ProducerOk q items (moved v) =
      (q.cells q.publisher ≡ some (node v (some q.tail)))
      × (next_of (q.cells q.tail) ≡ some none)
      × (q.tail ≢ q.publisher)
      × (q.tail ≢ q.head)
      × Fresh q.tail items
  ProducerOk q items published = (q.tail ≡ q.publisher) × (next_of (q.cells q.tail) ≡ some none)

  abbrev pub IsSpare : Producer A → ℕ → Type 0
  IsSpare (linked v b) a = a ≡ b
  IsSpare p a = ⊥

  abbrev pub StartsWith : Items A → ℕ → A → Type 0
  StartsWith [] tmp v = ⊥
  StartsWith ((a, w) ∷ rest) tmp v = (a ≡ tmp) × (w ≡ v)

  abbrev pub ConsumerOk : LockFreeQueue A → Items A → Producer A → Consumer A → Type 0
  ConsumerOk q items p Consumer.ready = Unit
  ConsumerOk q items p tested = items ≢ []
  ConsumerOk q items p (got tmp v) = StartsWith items tmp v
  ConsumerOk q items p (unlinked tmp v) =
      (q.cells tmp ≢ none)
      × (tmp ≢ q.head)
      × (tmp ≢ q.tail)
      × (tmp ≢ q.publisher)
      × Fresh tmp items
      × ¬ IsSpare p tmp
  ConsumerOk q items p freed = Unit

  abbrev pub pending_in : Producer A → ℕ
  pending_in published = 1
  pending_in _ = 0

  abbrev pub pending_out : Consumer A → ℕ
  pending_out (unlinked tmp v) = 1
  pending_out freed = 1
  pending_out _ = 0

  -- `items` are the published nodes that are not unlinked yet.
  pub record InvOf (q : LockFreeQueue A) (p : Producer A) (c : Consumer A) (ins outs : List A)
      (items : Items A) : Type 0 where
    pub at_head : next_of (q.cells q.head) ≡ some (some (first_addr items q.publisher))
    pub chain : Chain q.cells items q.publisher
    pub no_repeat : NoRepeat items
    pub head_fresh : Fresh q.head items
    pub publisher_fresh : Fresh q.publisher items
    pub head_apart : q.head ≢ q.publisher
    pub producer_ok : ProducerOk q items p
    pub consumer_ok : ConsumerOk q items p c
    pub sized : q.size ≡ to_int (sub_ℕ (length items + pending_out c) (pending_in p))
    pub in_order : ins ≡ outs ++ values items
