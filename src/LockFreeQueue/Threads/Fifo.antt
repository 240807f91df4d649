-- ===== src/LockFreeQueue/Threads/Fifo.antt =====
-- The queue between the two threads is first in, first out, and touches no freed node.
use tiny_utils.Base.{
  ℕ, ◌+◌, ◌≡◌, ◌≢◌, ◌↔◌, refl, subst, true, some, List, [], ◌∷◌, ◌++◌, ok, length, arith,
}
use tiny_utils.Base.Int.{to_int, sub_ℕ}
use tiny_utils.LockFreeQueue.{LockFreeQueue, create, has_published, unlink}
use tiny_utils.LockFreeQueue.Chain.{Items, values, first_addr, Chain, Fresh}
use tiny_utils.LockFreeQueue.Threads.{
  Producer, Consumer, got, unlinked, System, Step, writes, links, moves, publishes, counts_up,
  finds_none, finds_one, gets, unlinks, frees, counts_down, Reach, start, later,
}
use tiny_utils.LockFreeQueue.Threads.Invariant.{InvOf, next_of, pending_in, pending_out}
use tiny_utils.LockFreeQueue.Threads.Producing.{
  writes-InvOf, links-InvOf, moves-InvOf, publishes-InvOf, counts_up-InvOf,
}
use tiny_utils.LockFreeQueue.Threads.Consuming.{
  tests-InvOf, gets-InvOf, unlinks-InvOf, frees-InvOf, counts_down-InvOf,
}

module _ {A : Type 0} where
  abbrev pub Inv : System A → Type 0
  Inv s = (items : Items A) × InvOf s.queue s.producer s.consumer s.ins s.outs items

  pub at_producer :
      (s : System A) {p : Producer A} {items : Items A}
      → s.producer ≡ p
      → InvOf s.queue s.producer s.consumer s.ins s.outs items
      → InvOf s.queue p s.consumer s.ins s.outs items
  at_producer s {p} {items} e i = subst (λ p'. InvOf s.queue p' s.consumer s.ins s.outs items) e i

  pub at_consumer :
      (s : System A) {c : Consumer A} {items : Items A}
      → s.consumer ≡ c
      → InvOf s.queue s.producer s.consumer s.ins s.outs items
      → InvOf s.queue s.producer c s.ins s.outs items
  at_consumer s {c} {items} e i = subst (λ c'. InvOf s.queue s.producer c' s.ins s.outs items) e i

  unlinks-Inv :
      (q q' : LockFreeQueue A) (p : Producer A) (ins outs : List A) (items : Items A) (a : ℕ)
      (v : A)
      → InvOf q p (got a v) ins outs items
      → unlink q ≡ ok q'
      → (rest : Items A) × InvOf q' p (unlinked a v) ins (outs ++ (v ∷ [])) rest
  unlinks-Inv q q' p ins outs [] a v i e = absurd i.consumer_ok
  unlinks-Inv q q' p ins outs ((b, w) ∷ rest) a v i e = (
    rest,
    unlinks-InvOf a v
        (subst (λ x. InvOf q p (got a v) ins outs (x ∷ rest))
          (cc (i.consumer_ok.0, i.consumer_ok.1)) i)
        e,
  )

  pub has_published_iff :
      (q : LockFreeQueue A) (items : Items A)
      → next_of (q.cells q.head) ≡ some (some (first_addr items q.publisher))
      → Fresh q.publisher items
      → (has_published q ≡ ok true) ↔ (items ≢ [])
  unfolding has_published
  has_published_iff q [] h f = (λ t. absurd (ground arith), λ n. absurd (n refl))
  has_published_iff q ((a, v) ∷ rest) h f = (λ t n. cc, λ n. ground arith)

  module _ (d : A) where
    Step-Inv : {s t : System A} → Step d s t → Inv s → Inv t
    Step-Inv {s} (writes v p e) (items, i) = (items, writes-InvOf v (at_producer s p i) e)
    Step-Inv {s} (links v b p free e) (items, i) =
        (items, links-InvOf d v b (at_producer s p i) free e)
    Step-Inv {s} (moves v b p e) (items, i) = (items, moves-InvOf v b (at_producer s p i) e)
    Step-Inv {s} (publishes v p) (items, i) = (_, publishes-InvOf v (at_producer s p i))
    Step-Inv {s} (counts_up p) (items, i) = (items, counts_up-InvOf (at_producer s p i))
    Step-Inv {s} (finds_none c e) i = i
    Step-Inv {s} (finds_one c e) (items, i) = (items, tests-InvOf (at_consumer s c i) e)
    Step-Inv {s} (gets tmp v c e) (items, i) = (items, gets-InvOf tmp v (at_consumer s c i) e)
    Step-Inv {s} (unlinks tmp v {q'} c e) (items, i) =
        unlinks-Inv s.queue q' s.producer s.ins s.outs items tmp v (at_consumer s c i) e
    Step-Inv {s} (frees tmp v c e) (items, i) = (items, frees-InvOf tmp v (at_consumer s c i) e)
    Step-Inv {s} (counts_down c) (items, i) = (items, counts_down-InvOf (at_consumer s c i))

    pub create-InvOf :
        (a b : ℕ) → a ≢ b → InvOf (create d a b) Producer.ready Consumer.ready [] [] []
    unfolding create
    create-InvOf a b ne = record {
      at_head = ground arith;
      chain = tt;
      no_repeat = tt;
      head_fresh = tt;
      publisher_fresh = tt;
      head_apart = ne;
      producer_ok = (refl, ground arith);
      consumer_ok = tt;
      sized = unfold to_int in refl;
      in_order = refl;
    }

    pub Reach-Inv : {s : System A} → Reach d s → Inv s
    Reach-Inv (start a b ne) = ([], create-InvOf a b ne)
    Reach-Inv (later r st) = Step-Inv st (Reach-Inv r)

    -- In every reachable state, what has come out and the published nodes, in order, are what has gone
    -- in; `Dequeue` finds a value exactly when a published node is left; and `size` is the number of
    -- published nodes, one more while the consumer has a node unlinked and not counted, and one less
    -- while the producer has a node published and not counted, as a signed number of 32 bits that wraps.
    pub first_in_first_out :
        {s : System A}
        → Reach d s
        → (items : Items A) × Chain s.queue.cells items s.queue.publisher
          × (s.ins ≡ s.outs ++ values items)
          × ((has_published s.queue ≡ ok true) ↔ (items ≢ []))
          × (s.queue.size
              ≡ to_int (sub_ℕ (length items + pending_out s.consumer) (pending_in s.producer)))
    first_in_first_out {s} r =
        let (items, i) = Reach-Inv r in
        (
          items,
          i.chain,
          i.in_order,
          has_published_iff s.queue items i.at_head i.publisher_fresh,
          i.sized,
        )
