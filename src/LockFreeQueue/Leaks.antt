-- ===== src/LockFreeQueue/Leaks.antt =====
-- Which node every address in use belongs to, while producer and consumer run and after the destructor.
use tiny_utils.Base.{
  ℕ, ◌+◌, ◌≡◌, ◌≢◌, ◌≤◌, inl, inr, refl, sym, ap, ◌∙◌, subst, Option, none, some, List, [], ◌∷◌,
  ◌++◌, length, length-append, ok, arith, ◌==◌, other_thread, Bool-cases, ==_iff,
}
use tiny_utils.LockFreeQueue.{
  QueueNode, LockFreeQueue, create, node, update, publish, count_up, count_down, unlink, destroy,
}
use tiny_utils.LockFreeQueue.Chain.{Items, values, Fresh}
use tiny_utils.LockFreeQueue.Threads.{
  Producer, wrote, linked, moved, Consumer, got, unlinked, freed, System, Step, writes, links,
  moves, publishes, counts_up, finds_none, finds_one, gets, unlinks, frees, counts_down, Reach,
  start, later,
}
use tiny_utils.LockFreeQueue.Threads.Invariant.{InvOf, IsSpare}
use tiny_utils.LockFreeQueue.Threads.Producing.{
  writes-InvOf, links-InvOf, moves-InvOf, publishes-InvOf, counts_up-InvOf, write_value_lem,
  link_lem, move_tail_lem,
}
use tiny_utils.LockFreeQueue.Threads.Consuming.{
  tests-InvOf, gets-InvOf, unlinks-InvOf, frees-InvOf, counts_down-InvOf, unlink_lem, free_node_lem,
}
use tiny_utils.LockFreeQueue.Threads.Fifo.{at_producer, at_consumer, create-InvOf}
use tiny_utils.LockFreeQueue.Destroyed.{NotAmong, addresses, length-values, destroy_nodes}

module _ {A : Type 0} where
  -- The node that the consumer has unlinked and is about to free.
  abbrev pub IsTaken : Consumer A → ℕ → Type 0
  IsTaken (unlinked tmp v) a = a ≡ tmp
  IsTaken c a = ⊥

  -- An address that is none of the known nodes is not in use.
  abbrev pub Accounted : LockFreeQueue A → Producer A → Consumer A → Items A → Type 0
  Accounted q p c items =
      (x : ℕ)
      → x ≢ q.head
      → Fresh x items
      → x ≢ q.publisher
      → x ≢ q.tail
      → ¬ IsSpare p x
      → ¬ IsTaken c x
      → q.cells x ≡ none

  abbrev All : System A → Type 0
  All s =
      (items : Items A) × InvOf s.queue s.producer s.consumer s.ins s.outs items
      × Accounted s.queue s.producer s.consumer items

  update_other :
      (cells : ℕ → Option (QueueNode A)) (a x : ℕ) (o : Option (QueueNode A))
      → x ≢ a
      → update cells a o x ≡ cells x
  update_other cells a x o ne = rw (other_thread a x ne) refl

  Fresh-snoc_parts :
      (items : Items A) (x p : ℕ) (v : A)
      → Fresh x (items ++ ((p, v) ∷ []))
      → Fresh x items × (x ≢ p)
  Fresh-snoc_parts [] x p v f = (tt, f.0)
  Fresh-snoc_parts ((a, w) ∷ rest) x p v f =
      let (g, ne) = Fresh-snoc_parts rest x p v f.1 in ((f.0, g), ne)

  at_pc :
      (s : System A) {p : Producer A} {c : Consumer A} (items : Items A)
      → s.producer ≡ p
      → s.consumer ≡ c
      → Accounted s.queue s.producer s.consumer items
      → Accounted s.queue p c items
  at_pc s {p} {c} items e e' a =
      subst (λ (c' : Consumer A). Accounted s.queue p c' items) e'
        (subst (λ (p' : Producer A). Accounted s.queue p' s.consumer items) e a)

  unlinks-All :
      (q q' : LockFreeQueue A) (p : Producer A) (ins outs : List A) (items : Items A) (a : ℕ)
      (v : A)
      → InvOf q p (got a v) ins outs items
      → Accounted q p (got a v) items
      → unlink q ≡ ok q'
      → (rest : Items A) × InvOf q' p (unlinked a v) ins (outs ++ (v ∷ [])) rest
        × Accounted q' p (unlinked a v) rest
  unlinks-All q q' p ins outs [] a v i k e = absurd i.consumer_ok
  unlinks-All q q' p ins outs ((b, w) ∷ rest) a v i k e =
      let (x, same) = unlink_lem q q' b w rest i.at_head i.chain e in
      (
        rest,
        unlinks-InvOf a v
            (subst (λ x. InvOf q p (got a v) ins outs (x ∷ rest))
              (cc (i.consumer_ok.0, i.consumer_ok.1)) i)
            e,
        subst (λ (t : LockFreeQueue A). Accounted t p (unlinked a v) rest) same
            (λ y nh f np nt ns na.
              update_other q.cells q.head y _ nh
              ∙ k y nh ((λ e. na (e ∙ i.consumer_ok.0)), f) np nt ns (λ e. e)),
      )

  between_calls :
      (s : System A) (items : Items A)
      → s.producer ≡ Producer.ready
      → s.consumer ≡ Consumer.ready
      → InvOf s.queue s.producer s.consumer s.ins s.outs items
      → InvOf s.queue Producer.ready Consumer.ready s.ins s.outs items
  between_calls s items at at' i =
      subst (λ (c : Consumer A). InvOf s.queue Producer.ready c s.ins s.outs items) at'
        (at_producer s at i)

  NotAmong-addresses_parts :
      (items : Items A) (x p : ℕ)
      → NotAmong x (addresses items ++ (p ∷ []))
      → Fresh x items × (x ≢ p)
  NotAmong-addresses_parts [] x p n = (tt, n.0)
  NotAmong-addresses_parts ((a, v) ∷ rest) x p n =
      let (f, ne) = NotAmong-addresses_parts rest x p n.1 in ((n.0, f), ne)

  freed_cell :
      (s : System A) (tmp x : ℕ)
      → (¬ (x ≡ tmp) → s.queue.cells x ≡ none)
      → update s.queue.cells tmp none x ≡ none
  freed_cell s tmp x kept = elim (Bool-cases (tmp == x)) [
    | inl same ↦ rw same refl
    | inr other ↦ rw other (kept (λ e. cc (other, (==_iff tmp x).1 (sym e))))
  ]

  module _ (d : A) where
    Step-All : {s t : System A} → Step d s t → All s → All t
    unfolding publish count_up count_down
    Step-All {s} (writes v {q'} p e) (items, i, a) = (
      items,
      writes-InvOf v (at_producer s p i) e,
      subst (λ (t : LockFreeQueue A). Accounted t (wrote v) s.consumer items)
          (write_value_lem s.queue q' v (at_producer s p i).producer_ok.1 e)
          (λ x nh f np nt ns na.
            update_other s.queue.cells s.queue.tail x _ nt
            ∙ at_pc s items p refl a x nh f np nt (λ e. e) na),
    )
    Step-All {s} (links v b {q'} p free e) (items, i, a) = (
      items,
      links-InvOf d v b (at_producer s p i) free e,
      subst (λ (t : LockFreeQueue A). Accounted t (linked v b) s.consumer items)
          (link_lem d s.queue q' v b (at_producer s p i).producer_ok.1 free e)
          (λ x nh f np nt ns na.
            update_other (update s.queue.cells b (some (node d none))) s.queue.tail x _ nt
            ∙ update_other s.queue.cells b x (some (node d none)) ns
            ∙ at_pc s items p refl a x nh f np nt (λ e. e) na),
    )
    Step-All {s} (moves v b {q'} p e) (items, i, a) = (
      items,
      moves-InvOf v b (at_producer s p i) e,
      subst (λ (t : LockFreeQueue A). Accounted t (moved v) s.consumer items)
          (move_tail_lem s.queue q' v b (at_producer s p i).producer_ok.1 e)
          (λ x nh f np nt ns na.
            at_pc s items p refl a x nh f np (λ e. np (e ∙ (at_producer s p i).producer_ok.0)) nt
              na),
    )
    Step-All {s} (publishes v p) (items, i, a) = (
      items ++ ((s.queue.publisher, v) ∷ []),
      publishes-InvOf v (at_producer s p i),
      λ x nh f np nt ns na.
          let (g, ne) = Fresh-snoc_parts items x s.queue.publisher v f in
          at_pc s items p refl a x nh g ne nt (λ e. e) na,
    )
    Step-All {s} (counts_up p) (items, i, a) =
        (items, counts_up-InvOf (at_producer s p i), at_pc s items p refl a)
    Step-All {s} (finds_none c e) i = i
    Step-All {s} (finds_one c e) (items, i, a) =
        (items, tests-InvOf (at_consumer s c i) e, at_pc s items refl c a)
    Step-All {s} (gets tmp v c e) (items, i, a) =
        (items, gets-InvOf tmp v (at_consumer s c i) e, at_pc s items refl c a)
    Step-All {s} (unlinks tmp v {q'} c e) (items, i, a) =
        unlinks-All s.queue q' s.producer s.ins s.outs items tmp v (at_consumer s c i)
          (at_pc s items refl c a) e
    Step-All {s} (frees tmp v {q'} c e) (items, i, a) = (
      items,
      frees-InvOf tmp v (at_consumer s c i) e,
      subst (λ (t : LockFreeQueue A). Accounted t s.producer freed items)
          (free_node_lem s.queue q' tmp e)
          (λ x nh f np nt ns na. freed_cell s tmp x (at_pc s items refl c a x nh f np nt ns)),
    )
    Step-All {s} (counts_down c) (items, i, a) =
        (items, counts_down-InvOf (at_consumer s c i), at_pc s items refl c a)

    create-Accounted : (a b : ℕ) → Accounted (create d a b) Producer.ready Consumer.ready []
    unfolding create
    create-Accounted a b x nh f np nt ns na =
        update_other (update (λ _. none) b (some (node d none))) a x _ nh
        ∙ update_other (λ _. none) b x (some (node d none)) nt

    Reach-All : {s : System A} → Reach d s → All s
    Reach-All (start a b ne) = ([], create-InvOf d a b ne, create-Accounted a b)
    Reach-All (later r m) = Step-All m (Reach-All r)

    -- In a state that the threads reach, with no call under way, the destructor ends, and no address is in
    -- use behind it: every node that was ever made is deleted, and none twice. It takes at most two rounds
    -- more than values have gone in.
    pub nothing_leaks :
        (fuel : ℕ) (s : System A)
        → Reach d s
        → s.producer ≡ Producer.ready
        → s.consumer ≡ Consumer.ready
        → length s.ins + 2 ≤ fuel
        → (q' : LockFreeQueue A) × (gone : List ℕ) × (destroy fuel s.queue ≡ ok (q', gone))
          × ((x : ℕ) → q'.cells x ≡ none)
    nothing_leaks fuel s r at at' enough =
        let (items, i, a) = Reach-All r in
        let ready = between_calls s items at at' i in
        let (q', e, gone) = destroy_nodes fuel s.queue s.ins s.outs items ready (
          omega (
            arith,
            enough,
            ap (length {A = A}) i.in_order,
            length-append s.outs (values items),
            length-values items,
          )) in
        (
          q',
          _,
          e,
          λ x. elim (gone x) [
            | inl empty ↦ empty
            | inr ((nh, others), same) ↦
                let (f, np) = NotAmong-addresses_parts items x s.queue.publisher others in
                same
                ∙ at_pc s items at at' a x nh f np (λ t. np (t ∙ ready.producer_ok.0)) (λ n. n)
                    (λ n. n)
          ],
        )
