-- ===== src/LockFreeQueue/Program/Finite.antt =====
-- The queue of the program of cpp_utils/lockfree_queue.cpp uses finitely many addresses.
use tiny_utils.Base.{ℕ, ◌+◌, ◌≤◌, ◌≡◌, refl, subst, Option, none, [], ◌∷◌, arith}
use tiny_utils.LockFreeQueue.{
  QueueNode, LockFreeQueue, create, update, publish, count_up, count_down,
}
use tiny_utils.LockFreeQueue.Chain.{Items}
use tiny_utils.LockFreeQueue.Threads.{
  Producer, Consumer, got, System, Step, writes, links, moves, publishes, counts_up, finds_none,
  finds_one, gets, unlinks, frees, counts_down,
}
use tiny_utils.LockFreeQueue.Threads
use tiny_utils.LockFreeQueue.Threads.Invariant.{InvOf}
use tiny_utils.LockFreeQueue.Threads.Fifo.{Inv, Reach-Inv, at_producer, at_consumer}
use tiny_utils.LockFreeQueue.Threads.Producing.{write_value_lem, link_lem, move_tail_lem}
use tiny_utils.LockFreeQueue.Threads.Consuming.{unlink_lem, free_node_lem}

-- No address from some bound on is in use.
abbrev pub Finite : (ℕ → Option (QueueNode ℕ)) → Type 0
Finite cells = (bound : ℕ) × ((a : ℕ) → bound ≤ a → cells a ≡ none)

update-Finite :
    (cells : ℕ → Option (QueueNode ℕ)) (a : ℕ) (o : Option (QueueNode ℕ))
    → Finite cells
    → Finite (update cells a o)
update-Finite cells a o (bound, free) = (bound + a + 1, λ b far. beyond b far)
  where
    beyond : (b : ℕ) → bound + a + 1 ≤ b → update cells a o b ≡ none
    beyond b far = ground (arith, free b (omega arith))

Step-Finite : {s t : System ℕ} → Step 0 s t → Inv s → Finite s.queue.cells → Finite t.queue.cells
unfolding publish count_up count_down
Step-Finite {s} (writes v {q'} p e) (items, i) f =
    subst (λ (q : LockFreeQueue ℕ). Finite q.cells)
      (write_value_lem s.queue q' v (at_producer s p i).producer_ok.1 e)
      (update-Finite s.queue.cells s.queue.tail _ f)
Step-Finite {s} (links v b {q'} p free e) (items, i) f =
    subst (λ (q : LockFreeQueue ℕ). Finite q.cells)
      (link_lem 0 s.queue q' v b (at_producer s p i).producer_ok.1 free e)
      (update-Finite _ s.queue.tail _ (update-Finite s.queue.cells b _ f))
Step-Finite {s} (moves v b {q'} p e) (items, i) f =
    subst (λ (q : LockFreeQueue ℕ). Finite q.cells)
      (move_tail_lem s.queue q' v b (at_producer s p i).producer_ok.1 e) f
Step-Finite (publishes v p) i f = f
Step-Finite (counts_up p) i f = f
Step-Finite (finds_none c e) i f = f
Step-Finite (finds_one c e) i f = f
Step-Finite (gets tmp v c e) i f = f
Step-Finite {s} (unlinks tmp v {q'} c e) (items, i) f = unlinked_cells items (at_consumer s c i)
  where
    unlinked_cells :
        (items : Items ℕ)
        → InvOf s.queue s.producer (got tmp v) s.ins s.outs items
        → Finite q'.cells
    unlinked_cells [] i = absurd i.consumer_ok
    unlinked_cells ((a, w) ∷ rest) i =
        let (x, same) = unlink_lem s.queue q' a w rest i.at_head i.chain e in
        subst (λ (q : LockFreeQueue ℕ). Finite q.cells) same
          (update-Finite s.queue.cells s.queue.head _ f)
Step-Finite {s} (frees tmp v {q'} c e) i f =
    subst (λ (q : LockFreeQueue ℕ). Finite q.cells) (free_node_lem s.queue q' tmp e)
      (update-Finite s.queue.cells tmp none f)
Step-Finite (counts_down c) i f = f

create-Finite : (a b : ℕ) → Finite (create 0 a b).cells
unfolding create
create-Finite a b = update-Finite _ a _ (update-Finite (λ _. none) b _ (0, λ c h. refl))

pub Reach-Finite : {s : System ℕ} → Threads.Reach 0 s → Finite s.queue.cells
Reach-Finite (Threads.start a b ne) = create-Finite a b
Reach-Finite (Threads.later r m) = Step-Finite m (Reach-Inv 0 r) (Reach-Finite r)
