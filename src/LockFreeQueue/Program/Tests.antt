-- ===== src/LockFreeQueue/Program/Tests.antt =====
-- A run of the program of cpp_utils/lockfree_queue.cpp, and the theorems at its state.
use tiny_utils.Base.{◌+◌, ◌≡◌, ◌≤◌, refl, arith}
use tiny_utils.LockFreeQueue.{create, write_value, link, move_tail}
use tiny_utils.LockFreeQueue.Threads.{writes, links, moves, publishes}
use tiny_utils.LockFreeQueue.Threads.Invariant.{pending_in, pending_out}
use tiny_utils.LockFreeQueue.Program.{Program, move, Moves, Reach, start, later}
use tiny_utils.LockFreeQueue.Program.Counted.{upto, consumes_in_order}
use tiny_utils.LockFreeQueue.Program.Ends.{Ended, can_end}

-- The number 0 is published and not counted yet; the loops run to 2.
abbrev first_published : (p : Program) × Reach 2 p
unfolding create write_value link move_tail
first_published = (
  _,
  later
      (later
        (later (later (start 10 11 (omega arith)) (move (writes 0 refl refl) (refl, omega arith)))
          (move (links 0 12 refl refl refl) tt))
        (move (moves 0 12 refl refl) tt))
      (move (publishes 0 refl) tt),
)

consumes_in_order_example :
    (first_published.0.system.outs
      ≡ upto (first_published.0.consumed + pending_out first_published.0.system.consumer))
    × (first_published.0.system.ins
        ≡ upto (first_published.0.produced + pending_in first_published.0.system.producer))
    × (first_published.0.consumed + pending_out first_published.0.system.consumer
        ≤ first_published.0.produced + pending_in first_published.0.system.producer)
    × (first_published.0.produced + pending_in first_published.0.system.producer ≤ 2)
consumes_in_order_example = consumes_in_order first_published.1

can_end_example : (q : Program) × Moves 2 first_published.0 q × Ended 2 q
can_end_example = can_end first_published.1
