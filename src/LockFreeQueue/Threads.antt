-- ===== src/LockFreeQueue/Threads.antt =====
-- The producer and the consumer, an access at a time, in any order. What has gone in and come out is
-- recorded: a value is in when `publisher` moves past it, and out when `head` is linked past it.
pub mod Invariant
pub mod Producing
pub mod Consuming
pub mod Fifo
pub mod Progress
use tiny_utils.Base.{
  ℕ, ◌≡◌, ◌≢◌, Bool, true, false, Option, none, some, List, [], ◌∷◌, ◌++◌, Outcome, ok,
}
use tiny_utils.LockFreeQueue.{
  QueueNode, LockFreeQueue, create, write_value, link, move_tail, publish, count_up, has_published,
  first, unlink, free_node, count_down,
}

-- Where `Enqueue` stands, with the value and the new node's address.
pub data Producer (A : Type 0) : Type 0 where
  ready : Producer A
  wrote : A → Producer A
  linked : A → ℕ → Producer A
  moved : A → Producer A
  published : Producer A

-- Where `Dequeue` stands, with the address and the value of the first node.
pub data Consumer (A : Type 0) : Type 0 where
  ready : Consumer A
  tested : Consumer A
  got : ℕ → A → Consumer A
  unlinked : ℕ → A → Consumer A
  freed : Consumer A

pub record System (A : Type 0) : Type 0 where
  pub queue : LockFreeQueue A
  pub producer : Producer A
  pub consumer : Consumer A
  pub ins : List A
  pub outs : List A

module _ {A : Type 0} (d : A) where
  -- One access of one side; `q'` is the queue after it.
  pub data Step (s : System A) : System A → Type 0 where
    writes :
        (v : A) {q' : LockFreeQueue A}
        → s.producer ≡ Producer.ready
        → write_value v s.queue ≡ ok q'
        → Step s (record s { queue = q'; producer = wrote v })
    links :
        (v : A) (b : ℕ) {q' : LockFreeQueue A}
        → s.producer ≡ wrote v
        → s.queue.cells b ≡ none
        → link d b s.queue ≡ ok q'
        → Step s (record s { queue = q'; producer = linked v b })
    moves :
        (v : A) (b : ℕ) {q' : LockFreeQueue A}
        → s.producer ≡ linked v b
        → move_tail s.queue ≡ ok q'
        → Step s (record s { queue = q'; producer = moved v })
    publishes :
        (v : A)
        → s.producer ≡ moved v
        → Step s
            (record s { queue = publish s.queue; producer = published; ins = s.ins ++ (v ∷ []) })
    counts_up :
        s.producer ≡ published
        → Step s (record s { queue = count_up s.queue; producer = Producer.ready })
    finds_none : s.consumer ≡ Consumer.ready → has_published s.queue ≡ ok false → Step s s
    finds_one :
        s.consumer ≡ Consumer.ready
        → has_published s.queue ≡ ok true
        → Step s (record s { consumer = tested })
    gets :
        (tmp : ℕ) (v : A)
        → s.consumer ≡ tested
        → first s.queue ≡ ok (tmp, v)
        → Step s (record s { consumer = got tmp v })
    unlinks :
        (tmp : ℕ) (v : A) {q' : LockFreeQueue A}
        → s.consumer ≡ got tmp v
        → unlink s.queue ≡ ok q'
        → Step s (record s { queue = q'; consumer = unlinked tmp v; outs = s.outs ++ (v ∷ []) })
    frees :
        (tmp : ℕ) (v : A) {q' : LockFreeQueue A}
        → s.consumer ≡ unlinked tmp v
        → free_node tmp s.queue ≡ ok q'
        → Step s (record s { queue = q'; consumer = freed })
    counts_down :
        s.consumer ≡ freed
        → Step s (record s { queue = count_down s.queue; consumer = Consumer.ready })

  pub data Reach : System A → Type 0 where
    start :
        (a b : ℕ)
        → a ≢ b
        → Reach (record {
          queue = create d a b;
          producer = Producer.ready;
          consumer = Consumer.ready;
          ins = [];
          outs = [];
        })
    later : {s t : System A} → Reach s → Step s t → Reach t
