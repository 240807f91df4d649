-- ===== src/LockFreeQueue/Threads/Consuming.antt =====
-- Each access of `Dequeue` keeps the invariant.
use tiny_utils.Base.{
  suc, ◌↔◌, ℕ, ◌+◌, ◌≡◌, ◌≢◌, refl, sym, ap, subst, ◌∙◌, Bool, true, Option, none, some, List, [],
  ◌∷◌, ◌++◌, ok, length, arith,
}
use mathlib.Core.List.{append_assoc}
use tiny_utils.Base.Int.{to_int, sub_ℕ_down, to_int-to_int_sub, ℤ, pos, sub_ℕ, ◌-ℤ◌}
use tiny_utils.LockFreeQueue.{
  QueueNode, LockFreeQueue, node, put, update, has_published, first, unlink, free_node, count_down,
}
use tiny_utils.LockFreeQueue.Chain.{Items, values, first_addr, Chain, Fresh, Chain-update}
use tiny_utils.LockFreeQueue.Threads.Invariant.{
  next_of, ProducerOk, IsSpare, StartsWith, pending_in, InvOf,
}
use tiny_utils.LockFreeQueue.Threads.{
  Producer, wrote, linked, moved, published, Consumer, tested, got, unlinked, freed,
}

module _ {A : Type 0} where
  pub has_published_lem :
      (q : LockFreeQueue A) (items : Items A) (b : Bool)
      → next_of (q.cells q.head) ≡ some (some (first_addr items q.publisher))
      → Fresh q.publisher items
      → has_published q ≡ ok b
      → (b ≡ true) ↔ (items ≢ [])
  unfolding has_published
  has_published_lem q [] b h f e = (λ t. absurd (ground arith), λ n. absurd (n refl))
  has_published_lem q ((a, v) ∷ rest) b h f e = (λ t n. cc, λ n. ground arith)

  pub tests-InvOf :
      {q : LockFreeQueue A} {p : Producer A} {ins outs : List A} {items : Items A}
      → InvOf q p Consumer.ready ins outs items
      → has_published q ≡ ok true
      → InvOf q p tested ins outs items
  tests-InvOf {q} {p} {ins} {outs} {items} i e = record {
    at_head = i.at_head;
    chain = i.chain;
    no_repeat = i.no_repeat;
    head_fresh = i.head_fresh;
    publisher_fresh = i.publisher_fresh;
    head_apart = i.head_apart;
    producer_ok = i.producer_ok;
    consumer_ok = (has_published_lem q items true i.at_head i.publisher_fresh e).0 refl;
    sized = i.sized;
    in_order = i.in_order;
  }

  pub first_lem :
      (q : LockFreeQueue A) (items : Items A) (tmp : ℕ) (v : A)
      → items ≢ []
      → next_of (q.cells q.head) ≡ some (some (first_addr items q.publisher))
      → Chain q.cells items q.publisher
      → first q ≡ ok (tmp, v)
      → StartsWith items tmp v
  unfolding first
  first_lem q [] tmp v n h c e = absurd (n refl)
  first_lem q ((a, w) ∷ rest) tmp v n h c e = ground arith

  pub gets-InvOf :
      {q : LockFreeQueue A} {p : Producer A} {ins outs : List A} {items : Items A} (tmp : ℕ) (v : A)
      → InvOf q p tested ins outs items
      → first q ≡ ok (tmp, v)
      → InvOf q p (got tmp v) ins outs items
  gets-InvOf {q} {p} {ins} {outs} {items} tmp v i e = record {
    at_head = i.at_head;
    chain = i.chain;
    no_repeat = i.no_repeat;
    head_fresh = i.head_fresh;
    publisher_fresh = i.publisher_fresh;
    head_apart = i.head_apart;
    producer_ok = i.producer_ok;
    consumer_ok = first_lem q items tmp v i.consumer_ok i.at_head i.chain e;
    sized = i.sized;
    in_order = i.in_order;
  }

  -- The consumer's accesses leave the producer's part alone.
  Producer-put :
      (q : LockFreeQueue A) (items rest : Items A) (x : ℕ) (n : Option (QueueNode A))
      (p : Producer A)
      → x ≢ q.tail
      → x ≢ q.publisher
      → ¬ IsSpare p x
      → ((a : ℕ) → Fresh a items → Fresh a rest)
      → ProducerOk q items p
      → ProducerOk (record q { cells = update q.cells x n }) rest p
  Producer-put q items rest x n Producer.ready t u s k (a, b) = (a, ground arith)
  Producer-put q items rest x n (wrote v) t u s k (a, b) = (a, ground arith)
  Producer-put q items rest x n (linked v b) t u s k (e, c, f, g, h, o) =
      (e, ground arith, ground arith, g, h, k b o)
  Producer-put q items rest x n (moved v) t u s k (c, f, g, h, o) =
      (ground arith, ground arith, g, h, k q.tail o)
  Producer-put q items rest x n published t u s k (a, b) = (a, ground arith)

  -- An address that is neither the head's nor a published node's is none that the producer uses.
  Apart :
      (q : LockFreeQueue A) (p : Producer A) (a : ℕ) (v : A) (rest : Items A)
      → ProducerOk q ((a, v) ∷ rest) p
      → a ≢ q.publisher
      → (a ≢ q.tail) × ¬ IsSpare p a
  Apart q Producer.ready a v rest h n = (λ e. n (e ∙ h.0), λ s. s)
  Apart q (wrote w) a v rest h n = (λ e. n (e ∙ h.0), λ s. s)
  Apart q (linked w b) a v rest h n = (λ e. n (e ∙ h.0), λ s. h.5.0 (sym s))
  Apart q (moved w) a v rest h n = (λ e. h.4.0 (sym e), λ s. s)
  Apart q published a v rest h n = (λ e. n (e ∙ h.0), λ s. s)

  Head-apart :
      (q : LockFreeQueue A) (items : Items A) (p : Producer A)
      → ProducerOk q items p
      → q.head ≢ q.publisher
      → (q.head ≢ q.tail) × ¬ IsSpare p q.head
  Head-apart q items Producer.ready h n = (λ e. n (e ∙ h.0), λ s. s)
  Head-apart q items (wrote w) h n = (λ e. n (e ∙ h.0), λ s. s)
  Head-apart q items (linked w b) h n = (λ e. n (e ∙ h.0), λ s. h.4 (sym s))
  Head-apart q items (moved w) h n = (λ e. h.3 (sym e), λ s. s)
  Head-apart q items published h n = (λ e. n (e ∙ h.0), λ s. s)

  pub unlink_lem :
      (q q' : LockFreeQueue A) (a : ℕ) (v : A) (rest : Items A)
      → next_of (q.cells q.head) ≡ some (some a)
      → Chain q.cells ((a, v) ∷ rest) q.publisher
      → unlink q ≡ ok q'
      → (w : A) × (put q q.head (node w (some (first_addr rest q.publisher))) ≡ q')
  unfolding unlink
  unlink_lem q q' a v rest h c e = head_cell (q.cells q.head) refl
    where
      head_cell :
          (o : Option (QueueNode A))
          → q.cells q.head ≡ o
          → (w : A) × (put q q.head (node w (some (first_addr rest q.publisher))) ≡ q')
      head_cell none k = absurd (ground arith)
      head_cell (some n) k = (n.value, ground arith)

  pub unlinks-InvOf :
      {q q' : LockFreeQueue A} {p : Producer A} {ins outs : List A} {rest : Items A} (a : ℕ) (v : A)
      → InvOf q p (got a v) ins outs ((a, v) ∷ rest)
      → unlink q ≡ ok q'
      → InvOf q' p (unlinked a v) ins (outs ++ (v ∷ [])) rest
  unlinks-InvOf {q} {q'} {p} {ins} {outs} {rest} a v i e =
      let (w, after) = unlink_lem q q' a v rest i.at_head i.chain e in
      let (ht, hs) = Head-apart q ((a, v) ∷ rest) p i.producer_ok i.head_apart in
      let (at', as') = Apart q p a v rest i.producer_ok (λ e. i.publisher_fresh.0 (sym e)) in
      subst (λ r. InvOf r p (unlinked a v) ins (outs ++ (v ∷ [])) rest) after
        (record {
          at_head = ground arith;
          chain = Chain-update q.cells rest q.publisher q.head _ i.head_fresh.1 i.chain.1;
          no_repeat = i.no_repeat.1;
          head_fresh = i.head_fresh.1;
          publisher_fresh = i.publisher_fresh.1;
          head_apart = i.head_apart;
          producer_ok =
              Producer-put q ((a, v) ∷ rest) rest q.head _ p ht i.head_apart hs (λ a f. f.1)
                i.producer_ok;
          consumer_ok = (
            still_there w,
            λ e. i.head_fresh.0 (sym e),
            at',
            λ e. i.publisher_fresh.0 (sym e),
            i.no_repeat.0,
            as',
          );
          sized = i.sized ∙ ap to_int (one_less (pending_in p));
          in_order = i.in_order ∙ sym (append_assoc outs (v ∷ []) (values rest));
        })
    where
      still_there :
          (w : A)
          → update q.cells q.head (some (node w (some (first_addr rest q.publisher)))) a ≢ none
      still_there w e = moved_on i.chain.0 i.head_fresh.0 e
        where
          moved_on :
              q.cells a ≡ some (node v (some (first_addr rest q.publisher)))
              → q.head ≢ a
              → update q.cells q.head (some (node w (some (first_addr rest q.publisher)))) a ≡ none
              → ⊥
          moved_on c n e = ground arith

      one_less : (k : ℕ) → sub_ℕ (suc (length rest) + 0) k ≡ sub_ℕ (length rest + 1) k
      one_less k = ap (λ (n : ℕ). sub_ℕ n k) (omega arith)

  pub free_node_lem :
      (q q' : LockFreeQueue A) (tmp : ℕ)
      → free_node tmp q ≡ ok q'
      → record q { cells = update q.cells tmp none } ≡ q'
  unfolding free_node
  free_node_lem q q' tmp e = ground arith

  pub frees-InvOf :
      {q q' : LockFreeQueue A} {p : Producer A} {ins outs : List A} {items : Items A} (tmp : ℕ)
      (v : A)
      → InvOf q p (unlinked tmp v) ins outs items
      → free_node tmp q ≡ ok q'
      → InvOf q' p freed ins outs items
  frees-InvOf {q} {q'} {p} {ins} {outs} {items} tmp v i e =
      let (used, h, t, u, f, s) = i.consumer_ok in
      subst (λ r. InvOf r p freed ins outs items) (free_node_lem q q' tmp e)
        (record {
          at_head = still_there i.at_head h;
          chain = Chain-update q.cells items q.publisher tmp none f i.chain;
          no_repeat = i.no_repeat;
          head_fresh = i.head_fresh;
          publisher_fresh = i.publisher_fresh;
          head_apart = i.head_apart;
          producer_ok = Producer-put q items items tmp none p t u s (λ a f. f) i.producer_ok;
          consumer_ok = tt;
          sized = i.sized;
          in_order = i.in_order;
        })
    where
      still_there :
          next_of (q.cells q.head) ≡ some (some (first_addr items q.publisher))
          → tmp ≢ q.head
          → next_of (update q.cells tmp none q.head) ≡ some (some (first_addr items q.publisher))
      still_there h n = ground arith

  Producer-size :
      (q : LockFreeQueue A) (items : Items A) (p : Producer A)
      → ProducerOk q items p
      → ProducerOk (record q { size = to_int (q.size -ℤ pos 1) }) items p
  Producer-size q items (linked v b) h = h
  Producer-size q items _ h = h

  pub counts_down-InvOf :
      {q : LockFreeQueue A} {p : Producer A} {ins outs : List A} {items : Items A}
      → InvOf q p freed ins outs items
      → InvOf (count_down q) p Consumer.ready ins outs items
  unfolding count_down
  counts_down-InvOf {q} {p} {ins} {outs} {items} i = record {
    at_head = i.at_head;
    chain = i.chain;
    no_repeat = i.no_repeat;
    head_fresh = i.head_fresh;
    publisher_fresh = i.publisher_fresh;
    head_apart = i.head_apart;
    producer_ok = Producer-size q items p i.producer_ok;
    consumer_ok = tt;
    sized = counted q.size (length items) (pending_in p) i.sized;
    in_order = i.in_order;
  }
    where
      counted :
          (z : ℤ) (n k : ℕ)
          → z ≡ to_int (sub_ℕ (n + 1) k)
          → to_int (z -ℤ pos 1) ≡ to_int (sub_ℕ (n + 0) k)
      counted z n k e = rw e (to_int-to_int_sub (sub_ℕ (n + 1) k) ∙ ap to_int (sub_ℕ_down n k))
