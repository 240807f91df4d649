-- ===== src/LockFreeQueue/Threads/Producing.antt =====
-- Each access of `Enqueue` keeps the invariant.
use tiny_utils.Base.{
  ℕ, ◌+◌, ◌≡◌, ◌≢◌, refl, sym, ap, subst, ◌∙◌, none, some, List, [], ◌∷◌, ◌++◌, ok, length,
  length-append, arith,
}
use mathlib.Core.List.{append_assoc}
use tiny_utils.Base.Int.{to_int, sub_ℕ_up, to_int-to_int_add, ℤ, pos, sub_ℕ, ◌+ℤ◌}
use tiny_utils.LockFreeQueue.{
  QueueNode, LockFreeQueue, node, put, update, write_value, link, move_tail, publish, count_up,
}
use tiny_utils.LockFreeQueue.Chain.{
  Items, values, first_addr, Fresh, Chain-update, Chain-snoc, Fresh-snoc, NoRepeat-snoc,
  values-snoc, first_addr-snoc, Fresh-of_unused,
}
use tiny_utils.LockFreeQueue.Threads.Invariant.{
  next_of, ProducerOk, IsSpare, StartsWith, ConsumerOk, pending_out, InvOf,
}
use tiny_utils.LockFreeQueue.Threads.{
  Producer, wrote, linked, moved, published, Consumer, tested, got, unlinked, freed,
}

module _ {A : Type 0} where
  pub write_value_lem :
      (q q' : LockFreeQueue A) (v : A)
      → next_of (q.cells q.tail) ≡ some none
      → write_value v q ≡ ok q'
      → put q q.tail (node v none) ≡ q'
  unfolding write_value
  write_value_lem q q' v h e = ground arith

  pub link_lem :
      (d : A) (q q' : LockFreeQueue A) (v : A) (b : ℕ)
      → q.cells q.tail ≡ some (node v none)
      → q.cells b ≡ none
      → link d b q ≡ ok q'
      → put (put q b (node d none)) q.tail (node v (some b)) ≡ q'
  unfolding link
  link_lem d q q' v b h free e = ground arith

  pub move_tail_lem :
      (q q' : LockFreeQueue A) (v : A) (b : ℕ)
      → q.cells q.tail ≡ some (node v (some b))
      → move_tail q ≡ ok q'
      → record q { tail = b } ≡ q'
  unfolding move_tail
  move_tail_lem q q' v b h e = ground arith

  -- The producer's accesses leave the consumer's part alone.
  Consumer-put :
      (q : LockFreeQueue A) (items : Items A) (p p' : Producer A) (x : ℕ) (n : QueueNode A)
      (c : Consumer A)
      → ((a : ℕ) → q.cells a ≢ none → ¬ IsSpare p a → ¬ IsSpare p' a)
      → ConsumerOk q items p c
      → ConsumerOk (put q x n) items p' c
  Consumer-put q items p p' x n (unlinked tmp v) k (used, h, t, u, f, s) =
      (λ e. used (ground arith), h, t, u, f, k tmp used s)
  Consumer-put q items p p' x n _ k h = h

  Consumer-move_tail :
      (q : LockFreeQueue A) (items : Items A) (v : A) (b : ℕ) (c : Consumer A)
      → ConsumerOk q items (linked v b) c
      → ConsumerOk (record q { tail = b }) items (moved v) c
  Consumer-move_tail q items v b (unlinked tmp w) (used, h, t, u, f, s) = (used, h, s, u, f, λ e. e)
  Consumer-move_tail q items v b _ h = h

  StartsWith-snoc :
      (items : Items A) (tmp : ℕ) (w : A) (x : ℕ × A)
      → StartsWith items tmp w
      → StartsWith (items ++ (x ∷ [])) tmp w
  StartsWith-snoc [] tmp w x h = absurd h
  StartsWith-snoc ((a, u) ∷ rest) tmp w x h = h

  snoc-ne-nil : (items : Items A) (x : ℕ × A) → items ++ (x ∷ []) ≢ []
  snoc-ne-nil [] x e = cc
  snoc-ne-nil (y ∷ ys) x e = cc

  Consumer-publish :
      (q : LockFreeQueue A) (items : Items A) (v : A) (c : Consumer A)
      → ConsumerOk q items (moved v) c
      → ConsumerOk (record q { publisher = q.tail }) (items ++ ((q.publisher, v) ∷ [])) published c
  Consumer-publish q items v Consumer.ready h = tt
  Consumer-publish q items v tested h = snoc-ne-nil items (q.publisher, v)
  Consumer-publish q items v (got tmp w) h = StartsWith-snoc items tmp w _ h
  Consumer-publish q items v (unlinked tmp w) (used, h, t, u, f, s) =
      (used, h, t, t, Fresh-snoc items tmp q.publisher v f u, λ e. e)
  Consumer-publish q items v freed h = tt

  Consumer-count_up :
      (q : LockFreeQueue A) (items : Items A) (c : Consumer A)
      → ConsumerOk q items published c
      → ConsumerOk (record q { size = to_int (q.size +ℤ pos 1) }) items Producer.ready c
  Consumer-count_up q items (unlinked tmp w) h = h
  Consumer-count_up q items _ h = h

  pub writes-InvOf :
      {q q' : LockFreeQueue A} {c : Consumer A} {ins outs : List A} {items : Items A} (v : A)
      → InvOf q Producer.ready c ins outs items
      → write_value v q ≡ ok q'
      → InvOf q' (wrote v) c ins outs items
  writes-InvOf {q} {q'} {c} {ins} {outs} {items} v i e =
      subst (λ r. InvOf r (wrote v) c ins outs items) after
        (record {
          at_head = head_kept i.at_head i.head_apart i.producer_ok.0;
          chain =
              Chain-update q.cells items q.publisher q.tail _
                (rw (i.producer_ok.0) i.publisher_fresh) i.chain;
          no_repeat = i.no_repeat;
          head_fresh = i.head_fresh;
          publisher_fresh = i.publisher_fresh;
          head_apart = i.head_apart;
          producer_ok = (i.producer_ok.0, ground arith);
          consumer_ok =
              Consumer-put q items Producer.ready (wrote v) q.tail _ c (λ a u n. n) i.consumer_ok;
          sized = i.sized;
          in_order = i.in_order;
        })
    where
      after : put q q.tail (node v none) ≡ q'
      after = write_value_lem q q' v i.producer_ok.1 e

      head_kept :
          next_of (q.cells q.head) ≡ some (some (first_addr items q.publisher))
          → q.head ≢ q.publisher
          → q.tail ≡ q.publisher
          → next_of (update q.cells q.tail (some (node v none)) q.head)
            ≡ some (some (first_addr items q.publisher))
      head_kept h a t = ground arith

  pub links-InvOf :
      (d : A) {q q' : LockFreeQueue A} {c : Consumer A} {ins outs : List A} {items : Items A}
      (v : A) (b : ℕ)
      → InvOf q (wrote v) c ins outs items
      → q.cells b ≡ none
      → link d b q ≡ ok q'
      → InvOf q' (linked v b) c ins outs items
  links-InvOf d {q} {q'} {c} {ins} {outs} {items} v b i free e =
      subst (λ r. InvOf r (linked v b) c ins outs items)
        (link_lem d q q' v b i.producer_ok.1 free e)
        (record {
          at_head = head_kept i.at_head i.head_apart i.producer_ok.0;
          chain =
              Chain-update _ items q.publisher q.tail _ (rw (i.producer_ok.0) i.publisher_fresh)
                (Chain-update q.cells items q.publisher b _ unused i.chain);
          no_repeat = i.no_repeat;
          head_fresh = i.head_fresh;
          publisher_fresh = i.publisher_fresh;
          head_apart = i.head_apart;
          producer_ok = linked_now i.producer_ok i.at_head;
          consumer_ok =
              Consumer-put (put q b (node d none)) items (linked v b) (linked v b) q.tail _ c
                (λ a u n. n)
                (Consumer-put q items (wrote v) (linked v b) b _ c
                  (λ a u n e. u (ap q.cells e ∙ free)) i.consumer_ok);
          sized = i.sized;
          in_order = i.in_order;
        })
    where
      unused : Fresh b items
      unused = Fresh-of_unused q.cells items q.publisher b free i.chain

      head_kept :
          next_of (q.cells q.head) ≡ some (some (first_addr items q.publisher))
          → q.head ≢ q.publisher
          → q.tail ≡ q.publisher
          → next_of (
              update (update q.cells b (some (node d none))) q.tail (some (node v (some b))) q.head)
            ≡ some (some (first_addr items q.publisher))
      head_kept h a t = ground arith

      linked_now :
          ProducerOk q items (wrote v)
          → next_of (q.cells q.head) ≡ some (some (first_addr items q.publisher))
          → ProducerOk (put (put q b (node d none)) q.tail (node v (some b))) items (linked v b)
      linked_now (t, n) h = (t, ground arith, ground arith, ground arith, ground arith, unused)

  pub moves-InvOf :
      {q q' : LockFreeQueue A} {c : Consumer A} {ins outs : List A} {items : Items A} (v : A)
      (b : ℕ)
      → InvOf q (linked v b) c ins outs items
      → move_tail q ≡ ok q'
      → InvOf q' (moved v) c ins outs items
  moves-InvOf {q} {q'} {c} {ins} {outs} {items} v b i e =
      subst (λ r. InvOf r (moved v) c ins outs items) (move_tail_lem q q' v b i.producer_ok.1 e)
        (record {
          at_head = i.at_head;
          chain = i.chain;
          no_repeat = i.no_repeat;
          head_fresh = i.head_fresh;
          publisher_fresh = i.publisher_fresh;
          head_apart = i.head_apart;
          producer_ok = moved_now i.producer_ok;
          consumer_ok = Consumer-move_tail q items v b c i.consumer_ok;
          sized = i.sized;
          in_order = i.in_order;
        })
    where
      moved_now :
          ProducerOk q items (linked v b) → ProducerOk (record q { tail = b }) items (moved v)
      moved_now (t, n, spare, ne, nh, f) = (rw (← t) n, spare, λ e. ne (e ∙ sym t), nh, f)

  pub publishes-InvOf :
      {q : LockFreeQueue A} {c : Consumer A} {ins outs : List A} {items : Items A} (v : A)
      → InvOf q (moved v) c ins outs items
      → InvOf (publish q) published c (ins ++ (v ∷ [])) outs (items ++ ((q.publisher, v) ∷ []))
  unfolding publish
  publishes-InvOf {q} {c} {ins} {outs} {items} v i = record {
    at_head = rw (first_addr-snoc items q.publisher q.tail v) i.at_head;
    chain = Chain-snoc q.cells items q.publisher q.tail v i.chain i.producer_ok.0;
    no_repeat = NoRepeat-snoc items q.publisher v i.no_repeat i.publisher_fresh;
    head_fresh = Fresh-snoc items q.head q.publisher v i.head_fresh i.head_apart;
    publisher_fresh = Fresh-snoc items q.tail q.publisher v i.producer_ok.4 i.producer_ok.2;
    head_apart = λ e. i.producer_ok.3 (sym e);
    producer_ok = (refl, i.producer_ok.1);
    consumer_ok = Consumer-publish q items v c i.consumer_ok;
    sized = i.sized ∙ ap to_int (one_more (pending_out c));
    in_order =
        rw (i.in_order, values-snoc items q.publisher v)
          (append_assoc outs (values items) (v ∷ []));
  }
    where
      one_more :
          (n : ℕ)
          → sub_ℕ (length items + n) 0 ≡ sub_ℕ (length (items ++ ((q.publisher, v) ∷ [])) + n) 1
      one_more n = ground (arith, length-append items ((q.publisher, v) ∷ []))

  pub counts_up-InvOf :
      {q : LockFreeQueue A} {c : Consumer A} {ins outs : List A} {items : Items A}
      → InvOf q published c ins outs items
      → InvOf (count_up q) Producer.ready c ins outs items
  unfolding count_up
  counts_up-InvOf {q} {c} {ins} {outs} {items} i = record {
    at_head = i.at_head;
    chain = i.chain;
    no_repeat = i.no_repeat;
    head_fresh = i.head_fresh;
    publisher_fresh = i.publisher_fresh;
    head_apart = i.head_apart;
    producer_ok = i.producer_ok;
    consumer_ok = Consumer-count_up q items c i.consumer_ok;
    sized = counted q.size (length items + pending_out c) i.sized;
    in_order = i.in_order;
  }
    where
      counted : (z : ℤ) (n : ℕ) → z ≡ to_int (sub_ℕ n 1) → to_int (z +ℤ pos 1) ≡ to_int (sub_ℕ n 0)
      counted z n e = rw e (to_int-to_int_add (sub_ℕ n 1) ∙ ap to_int (sub_ℕ_up n))
