-- ===== src/LockFreeQueue/Program/Counted.antt =====
-- What the loops of cpp_utils/lockfree_queue.cpp have enqueued and dequeued.
use tiny_utils.Base.{
  ℕ, zero, suc, ◌+◌, ◌≤◌, ◌<◌, ◌≡◌, refl, sym, ap, ◌∙◌, List, [], ◌∷◌, ◌++◌, length, length-append,
  take, take-append, take-append_le, take_whole, ℕ_discrete, arith,
}
use tiny_utils.LockFreeQueue.Chain.{Items, values}
use tiny_utils.LockFreeQueue.Threads.{
  Producer, wrote, linked, moved, published, Consumer, tested, got, unlinked, freed, System, Step,
  writes, links, moves, publishes, counts_up, finds_none, finds_one, gets, unlinks, frees,
  counts_down,
}
use tiny_utils.LockFreeQueue.Threads
use tiny_utils.LockFreeQueue.Threads.Invariant.{InvOf, pending_in, pending_out}
use tiny_utils.LockFreeQueue.Threads.Fifo.{Reach-Inv}
use tiny_utils.LockFreeQueue.Program.{Program, Move, move, begun, Reach, start, later}

-- The numbers below `n`, in order.
abbrev pub upto : ℕ → List ℕ
upto zero = []
upto (suc n) = upto n ++ (n ∷ [])

pub length-upto : (n : ℕ) → length (upto n) ≡ n
length-upto zero = refl
length-upto (suc n) = omega (arith, length-append (upto n) (n ∷ []), length-upto n)

-- The number that the producer is enqueuing is the `i` of its loop.
abbrev pub Carries : ℕ → ℕ → Producer ℕ → Type 0
Carries rounds i Producer.ready = i ≤ rounds
Carries rounds i (wrote v) = (v ≡ i) × (i < rounds)
Carries rounds i (linked v b) = (v ≡ i) × (i < rounds)
Carries rounds i (moved v) = (v ≡ i) × (i < rounds)
Carries rounds i published = i < rounds

abbrev pub Takes : ℕ → ℕ → Consumer ℕ → Type 0
Takes rounds i Consumer.ready = i ≤ rounds
Takes rounds i _ = i < rounds

pub record Loop (rounds : ℕ) (p : Program) : Type 0 where
  pub carries : Carries rounds p.produced p.system.producer
  pub takes : Takes rounds p.consumed p.system.consumer
  pub ins_upto : p.system.ins ≡ upto (p.produced + pending_in p.system.producer)
  pub outs_length : length p.system.outs ≡ p.consumed + pending_out p.system.consumer

Move-Loop : {rounds : ℕ} {p q : Program} → Move rounds p q → Loop rounds p → Loop rounds q
Move-Loop {p} (move (writes v e e') (same, more)) l = ground arith
Move-Loop {p} (move (links v b e free e') k) l = ground arith
Move-Loop {p} (move (moves v b e e') k) l = ground arith
Move-Loop {p} (move (publishes v e) k) l = ground arith
Move-Loop {p} (move (counts_up e) k) l = ground arith
Move-Loop {p} (move (finds_none e e') k) l = ground arith
Move-Loop {p} (move (finds_one e e') k) l = ground arith
Move-Loop {p} (move (gets tmp v e e') k) l = ground arith
Move-Loop {p} (move (unlinks tmp v e e') k) l = ground (arith, length-append p.system.outs (v ∷ []))
Move-Loop {p} (move (frees tmp v e e') k) l = ground arith
Move-Loop {p} (move (counts_down e) k) l = ground arith

begun-Loop : (rounds a b : ℕ) → Loop rounds (begun a b)
begun-Loop rounds a b = record {
  carries = omega arith;
  takes = omega arith;
  ins_upto = refl;
  outs_length = refl;
}

pub Reach-Loop : {rounds : ℕ} {p : Program} → Reach rounds p → Loop rounds p
Reach-Loop {rounds} (start a b ne) = begun-Loop rounds a b
Reach-Loop (later r m) = Move-Loop m (Reach-Loop r)

-- The program is a run of the queue's two threads.
pub Reach-queue : {rounds : ℕ} {p : Program} → Reach rounds p → Threads.Reach 0 p.system
Reach-queue (start a b ne) = Threads.start a b ne
Reach-queue (later r (move m k)) = Threads.later (Reach-queue r) m

take-upto : (k n : ℕ) → k ≤ n → take k (upto n) ≡ upto k
take-upto k zero h = elim (ℕ_discrete k 0) [ yes e ↦ rw e refl | no ne ↦ absurd (omega arith) ]
take-upto k (suc n) h = elim (ℕ_discrete k (suc n)) [
  | yes e ↦ rw e (
      ap (λ (m : ℕ). take m (upto (suc n))) (sym (length-upto (suc n))) ∙ take_whole (upto (suc n)))
  | no ne ↦
      take-append_le k (upto n) (n ∷ []) (omega (arith, length-upto n))
      ∙ take-upto k n (omega arith)
]

-- A part of the numbers below `n` from the front is the numbers below its length.
pub prefix-upto : (n : ℕ) (xs ys : List ℕ) → upto n ≡ xs ++ ys → xs ≡ upto (length xs)
prefix-upto n xs ys e =
    sym (take-append xs ys) ∙ ap (take (length xs)) (sym e) ∙ take-upto (length xs) n within
  where
    within : length xs ≤ n
    within = omega (arith, ap length e, length-append xs ys, length-upto n)

in_bounds : (rounds i : ℕ) (p : Producer ℕ) → Carries rounds i p → i + pending_in p ≤ rounds
in_bounds rounds i Producer.ready c = omega arith
in_bounds rounds i (wrote v) c = omega (arith, c.1)
in_bounds rounds i (linked v b) c = omega (arith, c.1)
in_bounds rounds i (moved v) c = omega (arith, c.1)
in_bounds rounds i published c = omega arith

-- Whatever the order of the accesses, the consumer has taken the numbers from 0 on in order, each once:
-- as many as its loop has counted, and one more while a `Dequeue` has one unlinked. The producer has
-- published the numbers from 0 on likewise, and the consumer is never ahead of it.
pub consumes_in_order :
    {rounds : ℕ} {p : Program}
    → Reach rounds p
    → (p.system.outs ≡ upto (p.consumed + pending_out p.system.consumer))
      × (p.system.ins ≡ upto (p.produced + pending_in p.system.producer))
      × (p.consumed + pending_out p.system.consumer ≤ p.produced + pending_in p.system.producer)
      × (p.produced + pending_in p.system.producer ≤ rounds)
consumes_in_order {rounds} {p} r = (
  prefix-upto (p.produced + pending_in p.system.producer) p.system.outs (values items)
        (sym l.ins_upto ∙ inv.in_order)
      ∙ ap upto l.outs_length,
  l.ins_upto,
  omega (
    arith,
    ap length inv.in_order,
    ap length l.ins_upto,
    length-upto (p.produced + pending_in p.system.producer),
    length-append p.system.outs (values items),
    l.outs_length,
  ),
  in_bounds rounds p.produced p.system.producer l.carries,
)
  where
    l : Loop rounds p
    l = Reach-Loop r

    items : Items ℕ
    items = (Reach-Inv 0 (Reach-queue r)).0

    inv : InvOf p.system.queue p.system.producer p.system.consumer p.system.ins p.system.outs items
    inv = (Reach-Inv 0 (Reach-queue r)).1
