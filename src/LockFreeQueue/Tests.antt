-- ===== src/LockFreeQueue/Tests.antt =====
-- Runs of cpp_utils/lockfree_queue.cpp, and the theorems at concrete queues.
use tiny_utils.Base.{
  ℕ, ◌+◌, ◌-◌, ◌^◌, ◌≡◌, ◌≢◌, ◌↔◌, refl, true, false, none, some, List, [], ◌∷◌, ◌++◌, Outcome, ok,
  ◌>>=◌, length, arith,
}
use tiny_utils.Base.Int.{to_int, negsuc, sub_ℕ, ◌-ℤ◌}
use tiny_utils.LockFreeQueue.{
  destroy, LockFreeQueue, create, write_value, link, move_tail, publish, count_up, enqueue,
  has_published, first, unlink, free_node, count_down, take_first, dequeue, is_empty, queue_size,
  has_unpublished,
}
use tiny_utils.LockFreeQueue.Leaks.{nothing_leaks}
use tiny_utils.LockFreeQueue.Chain.{Items, values, Chain}
use tiny_utils.LockFreeQueue.Threads.{
  System, writes, links, moves, publishes, counts_up, finds_one, gets, unlinks, frees, counts_down,
  Reach, start, later,
}
use tiny_utils.LockFreeQueue.Threads.Invariant.{pending_in, pending_out}
use tiny_utils.LockFreeQueue.Threads.Fifo.{create-InvOf, first_in_first_out}
use tiny_utils.LockFreeQueue.Threads.Progress.{
  producer_access, consumer_access, Succeeds, accesses_succeed,
}
use tiny_utils.LockFreeQueue.Sequential.{Holds, uncons, queue_refines}

abbrev empty_queue : LockFreeQueue ℕ
empty_queue = create 0 10 11

abbrev enqueued : Outcome (LockFreeQueue ℕ)
enqueued = enqueue 0 5 12 empty_queue >>= enqueue 0 6 13

takes_oldest : (enqueued >>= λ q. dequeue q >>= λ r. ok r.0) ≡ ok (some 5)
unfolding create enqueue write_value link move_tail publish count_up dequeue has_published
    take_first first unlink free_node count_down
takes_oldest = refl

-- A state, with the proof that the threads reach it.
abbrev Reached : Type 0
Reached = (s : System ℕ) × Reach 0 s

abbrev initial : Reached
initial = (_, start 10 11 (omega arith))

-- The value 5 is published and not counted yet.
abbrev one_published : Reached
unfolding create write_value link move_tail
one_published = (
  _,
  later
      (later (later (later initial.1 (writes 5 refl refl)) (links 5 12 refl refl refl))
        (moves 5 12 refl refl))
      (publishes 5 refl),
)

-- It is taken and counted out before it is counted in.
abbrev taken_early : Reached
unfolding create write_value link move_tail publish has_published first unlink free_node
taken_early = (
  _,
  later
      (later
        (later (later (later one_published.1 (finds_one refl refl)) (gets 11 5 refl refl))
          (unlinks 11 5 refl refl))
        (frees 11 5 refl refl))
      (counts_down refl),
)

-- Then `size` is -1, and `queue_size` is 2^32 - 1 on an empty queue.
size_dips : (taken_early.0.queue.size ≡ negsuc 0) × (queue_size taken_early.0.queue ≡ 2 ^ 32 - 1)
unfolding create write_value link move_tail publish has_published first unlink free_node count_down
    queue_size ◌-ℤ◌ to_int
size_dips = (refl, refl)

first_in_first_out_example :
    (items : Items ℕ) × Chain one_published.0.queue.cells items one_published.0.queue.publisher
    × (one_published.0.ins ≡ one_published.0.outs ++ values items)
    × ((has_published one_published.0.queue ≡ ok true) ↔ (items ≢ []))
    × (one_published.0.queue.size
        ≡ to_int (
            sub_ℕ
              (length items + pending_out one_published.0.consumer)
              (pending_in one_published.0.producer)))
first_in_first_out_example = first_in_first_out 0 one_published.1

accesses_succeed_example :
    Succeeds (producer_access 0 6 13 one_published.0) × Succeeds (consumer_access one_published.0)
unfolding create write_value link move_tail publish
accesses_succeed_example = accesses_succeed 0 6 13 one_published.1 refl

queue_refines_example :
    ((q' : LockFreeQueue ℕ) × (enqueue 0 7 12 empty_queue ≡ ok q') × Holds q' ([] ++ (7 ∷ [])))
    × ((q' : LockFreeQueue ℕ) × (dequeue empty_queue ≡ ok ((uncons {A = ℕ} []).0, q'))
        × Holds q' (uncons {A = ℕ} []).1)
    × ((is_empty empty_queue ≡ true) ↔ (◌≡◌ {A = List ℕ} [] []))
    × (queue_size empty_queue ≡ length {A = ℕ} [])
    × (has_unpublished empty_queue ≡ false)
unfolding create Holds
queue_refines_example =
    queue_refines 0 7 12 empty_queue [] ([], create-InvOf 0 10 11 (omega arith)) refl (omega arith)

-- The value 5 is enqueued, and no call is under way.
abbrev one_enqueued : Reached
unfolding create write_value link move_tail
one_enqueued = (_, later one_published.1 (counts_up refl))

nothing_leaks_example :
    (q' : LockFreeQueue ℕ) × (gone : List ℕ) × (destroy 3 one_enqueued.0.queue ≡ ok (q', gone))
    × ((x : ℕ) → q'.cells x ≡ none)
unfolding one_enqueued
nothing_leaks_example = nothing_leaks 0 3 one_enqueued.0 one_enqueued.1 refl refl (omega arith)
