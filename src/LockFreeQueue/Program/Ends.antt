-- ===== src/LockFreeQueue/Program/Ends.antt =====
-- How the program of cpp_utils/lockfree_queue.cpp comes to its end.
use tiny_utils.Base.{
  ℕ, zero, suc, ◌+◌, ◌-◌, ◌*◌, ◌≤◌, ◌<◌, ◌≡◌, ◌≢◌, refl, ap, ◌∙◌, some, [], ◌∷◌, ◌++◌, length,
  length-append, ok, dec_lt, arith,
}
use tiny_utils.LockFreeQueue.{LockFreeQueue, first}
use tiny_utils.LockFreeQueue.Chain.{Items, values, Chain}
use tiny_utils.LockFreeQueue.Threads.{
  Producer, wrote, linked, moved, published, Consumer, tested, got, unlinked, freed, writes, links,
  moves, publishes, counts_up, finds_one, gets, unlinks, frees, counts_down,
}
use tiny_utils.LockFreeQueue.Threads.Invariant.{InvOf, next_of, pending_in, pending_out}
use tiny_utils.LockFreeQueue.Threads.Fifo.{Reach-Inv, has_published_iff}
use tiny_utils.LockFreeQueue.Threads.Progress.{
  write_value-Succeeds, link-Succeeds, move_tail-Succeeds, unlink-Succeeds, free_node-Succeeds,
}
use tiny_utils.LockFreeQueue.Program.{Program, Move, move, Moves, none_left, next, Reach, later}
use tiny_utils.LockFreeQueue.Program.Counted.{
  upto, length-upto, Carries, Takes, Loop, Reach-Loop, Reach-queue, consumes_in_order,
}
use tiny_utils.LockFreeQueue.Program.Finite.{Finite, Reach-Finite}

-- The accesses that are left, without those that find the queue empty.
abbrev done_in : Producer ℕ → ℕ
done_in Producer.ready = 0
done_in (wrote v) = 1
done_in (linked v b) = 2
done_in (moved v) = 3
done_in published = 4

abbrev done_out : Consumer ℕ → ℕ
done_out Consumer.ready = 0
done_out tested = 1
done_out (got tmp v) = 2
done_out (unlinked tmp v) = 3
done_out freed = 4

abbrev to_produce : ℕ → Program → ℕ
to_produce rounds p = 5 * (rounds - p.produced) - done_in p.system.producer

abbrev to_consume : ℕ → Program → ℕ
to_consume rounds p = 5 * (rounds - p.consumed) - done_out p.system.consumer

abbrev todo : ℕ → Program → ℕ
todo rounds p = to_produce rounds p + to_consume rounds p

-- A move that leaves less to do.
abbrev LessLeft : ℕ → Program → Type 0
LessLeft rounds p = (q : Program) × Move rounds p q × (todo rounds q < todo rounds p)

-- Both loops are over.
abbrev pub Ended : ℕ → Program → Type 0
Ended rounds p =
    (p.produced ≡ rounds)
    × (p.consumed ≡ rounds)
    × (p.system.producer ≡ Producer.ready)
    × (p.system.consumer ≡ Consumer.ready)
    × (p.system.outs ≡ upto rounds)

first_item :
    (q : LockFreeQueue ℕ) (a v : ℕ) (rest : Items ℕ)
    → next_of (q.cells q.head) ≡ some (some a)
    → Chain q.cells ((a, v) ∷ rest) q.publisher
    → first q ≡ ok (a, v)
unfolding first
first_item q a v rest h c = ground arith

module _ (rounds : ℕ) (p : Program) where
  producer_goes :
      (x : Producer ℕ) (items : Items ℕ)
      → p.system.producer ≡ x
      → Carries rounds p.produced x
      → InvOf p.system.queue x p.system.consumer p.system.ins p.system.outs items
      → Finite p.system.queue.cells
      → 0 < to_produce rounds p
      → LessLeft rounds p
  producer_goes Producer.ready items e c i (b, free) more =
      let (q', e') = write_value-Succeeds p.system.queue p.produced i.producer_ok.1 in
      (_, move (writes p.produced e e') (refl, ground arith), ground arith)
  producer_goes (wrote v) items e c i (b, free) more =
      let (q', e') = link-Succeeds 0 p.system.queue v b i.producer_ok.1 (free b (omega arith)) in
      (_, move (links v b e (free b (omega arith)) e') tt, ground arith)
  producer_goes (linked v b) items e c i f more =
      let (q', e') = move_tail-Succeeds p.system.queue v b i.producer_ok.1 in
      (_, move (moves v b e e') tt, ground arith)
  producer_goes (moved v) items e c i f more = (_, move (publishes v e) tt, ground arith)
  producer_goes published items e c i f more = (_, move (counts_up e) tt, ground arith)

  -- The consumer goes on when there is a node for it, or it has one.
  consumer_goes :
      (x : Consumer ℕ) (items : Items ℕ)
      → p.system.consumer ≡ x
      → Takes rounds p.consumed x
      → InvOf p.system.queue p.system.producer x p.system.ins p.system.outs items
      → (x ≡ Consumer.ready → items ≢ [])
      → 0 < to_consume rounds p
      → LessLeft rounds p
  consumer_goes Consumer.ready items e t i there more =
      let e' =
        (has_published_iff p.system.queue items i.at_head i.publisher_fresh).1 (there refl) in
      (_, move (finds_one e e') (ground arith), ground arith)
  consumer_goes tested [] e t i there more = absurd (i.consumer_ok refl)
  consumer_goes tested ((a, v) ∷ rest) e t i there more =
      (_, move (gets a v e (first_item p.system.queue a v rest i.at_head i.chain)) tt, ground arith)
  consumer_goes (got tmp v) items e t i there more =
      let (q', e') = unlink-Succeeds p.system.queue items tmp v i.consumer_ok i.at_head i.chain in
      (_, move (unlinks tmp v e e') tt, ground arith)
  consumer_goes (unlinked tmp v) items e t i there more =
      let (q', e') = free_node-Succeeds p.system.queue tmp i.consumer_ok.0 in
      (_, move (frees tmp v e e') tt, ground arith)
  consumer_goes freed items e t i there more = (_, move (counts_down e) tt, ground arith)

producer_done :
    (rounds i : ℕ) (x : Producer ℕ)
    → Carries rounds i x
    → 5 * (rounds - i) - done_in x ≡ 0
    → (i ≡ rounds) × (x ≡ Producer.ready)
producer_done rounds i Producer.ready c e = (omega arith, refl)
producer_done rounds i (wrote v) c e = absurd (omega (arith, c.1))
producer_done rounds i (linked v b) c e = absurd (omega (arith, c.1))
producer_done rounds i (moved v) c e = absurd (omega (arith, c.1))
producer_done rounds i published c e = absurd (omega arith)

consumer_done :
    (rounds i : ℕ) (x : Consumer ℕ)
    → Takes rounds i x
    → 5 * (rounds - i) - done_out x ≡ 0
    → (i ≡ rounds) × (x ≡ Consumer.ready)
consumer_done rounds i Consumer.ready t e = (omega arith, refl)
consumer_done rounds i tested t e = absurd (omega arith)
consumer_done rounds i (got tmp v) t e = absurd (omega arith)
consumer_done rounds i (unlinked tmp v) t e = absurd (omega arith)
consumer_done rounds i freed t e = absurd (omega arith)

module _ {rounds : ℕ} {p : Program} (r : Reach rounds p) where
  -- When all has been enqueued, a consumer that is not done finds a node.
  finds_node :
      (items : Items ℕ)
      → p.system.ins ≡ (p.system.outs ++ values items)
      → p.produced ≡ rounds
      → p.consumed < rounds
      → p.system.consumer ≡ Consumer.ready
      → items ≢ []
  finds_node [] e made less at none_there = absurd (
      omega (
        arith,
        ap length e,
        length-append p.system.outs [],
        ap length (Reach-Loop r).ins_upto,
        length-upto (p.produced + pending_in p.system.producer),
        (Reach-Loop r).outs_length,
        ap pending_out at,
      ))
  finds_node (x ∷ rest) e made less at none_there = cc

  goes_on : 0 < todo rounds p → LessLeft rounds p
  goes_on more = elim (dec_lt 0 (to_produce rounds p)) [
    | yes first ↦
        producer_goes rounds p p.system.producer items refl l.carries inv
          (Reach-Finite (Reach-queue r)) first
    | no last ↦
        let (made, at) =
          producer_done rounds p.produced p.system.producer l.carries (omega arith) in
        consumer_goes rounds p p.system.consumer items refl l.takes inv
          (λ at. finds_node items inv.in_order made (omega (arith, ap done_out at)) at)
          (omega arith)
  ]
    where
      l : Loop rounds p
      l = Reach-Loop r

      items : Items ℕ
      items = (Reach-Inv 0 (Reach-queue r)).0

      inv :
          InvOf p.system.queue p.system.producer p.system.consumer p.system.ins p.system.outs items
      inv = (Reach-Inv 0 (Reach-queue r)).1

  -- Both loops are over, and what the consumer has taken is what the producer has counted up.
  ends_now : todo rounds p ≡ 0 → Ended rounds p
  ends_now e =
      let (made, at) =
        producer_done rounds p.produced p.system.producer (Reach-Loop r).carries (omega arith) in
      let (taken, at') =
        consumer_done rounds p.consumed p.system.consumer (Reach-Loop r).takes (omega arith) in
      let all : p.consumed + pending_out p.system.consumer ≡ rounds =
        omega (arith, taken, ap pending_out at') in
      (made, taken, at, at', (consumes_in_order r).0 ∙ ap upto all)

ends_from :
    {rounds : ℕ} (n : ℕ) {p : Program}
    → Reach rounds p
    → todo rounds p ≤ n
    → (q : Program) × Moves rounds p q × Ended rounds q
ends_from zero {p} r h = (p, none_left, ends_now r (omega arith))
ends_from {rounds} (suc n) {p} r h = elim (dec_lt 0 (todo rounds p)) [
  | no last ↦ (p, none_left, ends_now r (omega arith))
  | yes more ↦
      let (q, m, less) = goes_on r more in
      let (t, ms, ended) = ends_from n (later r m) (omega arith) in (t, next m ms, ended)
]

-- From every state that the program reaches there are accesses after which both loops are over, and then
-- the consumer has taken the numbers from 0 to `rounds - 1`, in order, each once.
pub can_end :
    {rounds : ℕ} {p : Program} → Reach rounds p → (q : Program) × Moves rounds p q × Ended rounds q
can_end {rounds} {p} r = ends_from (todo rounds p) r (omega arith)
