-- ===== src/LockFreeQueue/Sequential.antt =====
-- Whole calls of `Enqueue` and `Dequeue`, one after the other, against a list of values.
use tiny_utils.Base.{
  ℕ, suc, ◌+◌, ◌≡◌, ◌<◌, ◌≢◌, ◌↔◌, ◌^◌, refl, sym, ap, subst, ◌∙◌, true, false, Option, none, some,
  List, [], ◌∷◌, ◌++◌, ok, length, arith,
}
use tiny_utils.Base.Int.{to_int, to_int-pos, pos, sub_ℕ}
use tiny_utils.LockFreeQueue.{
  LockFreeQueue, node, update, publish, count_up, enqueue, has_published, first, count_down,
  take_first, dequeue, is_empty, queue_size, has_unpublished,
}
use tiny_utils.LockFreeQueue.Chain.{Items, values}
use tiny_utils.LockFreeQueue.Threads.{Producer, Consumer}
use tiny_utils.LockFreeQueue.Threads.Invariant.{InvOf, next_of}
use tiny_utils.LockFreeQueue.Threads.Producing.{
  write_value_lem, writes-InvOf, links-InvOf, moves-InvOf, publishes-InvOf, counts_up-InvOf,
}
use tiny_utils.LockFreeQueue.Threads.Consuming.{
  tests-InvOf, gets-InvOf, unlinks-InvOf, frees-InvOf, counts_down-InvOf,
}
use tiny_utils.LockFreeQueue.Threads.Progress.{
  write_value-Succeeds, link-Succeeds, move_tail-Succeeds, unlink-Succeeds, free_node-Succeeds,
}

module _ {A : Type 0} where
  -- Between calls the queue holds the values, the oldest first.
  unfoldable pub Holds : LockFreeQueue A → List A → Type 0
  Holds q xs = (items : Items A) × InvOf q Producer.ready Consumer.ready xs [] items

  pub enqueue_lem :
      (d v : A) (b : ℕ) (q : LockFreeQueue A) (xs : List A)
      → Holds q xs
      → q.cells b ≡ none
      → (q' : LockFreeQueue A) × (enqueue d v b q ≡ ok q') × Holds q' (xs ++ (v ∷ []))
  unfolding enqueue Holds
  enqueue_lem d v b q xs (items, i) free =
      let (q₁, e₁) = write_value-Succeeds q v i.producer_ok.1 in
      let i₁ = writes-InvOf v i e₁ in
      let still_free : q₁.cells b ≡ none =
        subst (λ (r : LockFreeQueue A). r.cells b ≡ none)
          (write_value_lem q q₁ v i.producer_ok.1 e₁) (unused i.producer_ok.1) in
      let (q₂, e₂) = link-Succeeds d q₁ v b i₁.producer_ok.1 still_free in
      let i₂ = links-InvOf d v b i₁ still_free e₂ in
      let (q₃, e₃) = move_tail-Succeeds q₂ v b i₂.producer_ok.1 in
      let i₃ = moves-InvOf v b i₂ e₃ in
      (count_up (publish q₃), rw (e₁, e₂, e₃), (_, counts_up-InvOf (publishes-InvOf v i₃)))
    where
      unused :
          next_of (q.cells q.tail) ≡ some none → update q.cells q.tail (some (node v none)) b ≡ none
      unused h = ground arith

  -- The front of a list and the rest.
  abbrev pub uncons : List A → Option A × List A
  uncons [] = (none, [])
  uncons (x ∷ xs) = (some x, xs)

  has_published_none :
      (q : LockFreeQueue A)
      → next_of (q.cells q.head) ≡ some (some q.publisher)
      → has_published q ≡ ok false
  unfolding has_published
  has_published_none q h = ground arith

  has_published-some :
      (q : LockFreeQueue A) (a : ℕ)
      → next_of (q.cells q.head) ≡ some (some a)
      → q.publisher ≢ a
      → has_published q ≡ ok true
  unfolding has_published
  has_published-some q a h n = ground arith

  first_ok :
      (q : LockFreeQueue A) (a b : ℕ) (v : A)
      → next_of (q.cells q.head) ≡ some (some a)
      → q.cells a ≡ some (node v (some b))
      → first q ≡ ok (a, v)
  unfolding first
  first_ok q a b v h c = ground arith

  -- What came out earlier does not matter.
  forget :
      {q : LockFreeQueue A} {ins outs : List A} {items : Items A}
      → InvOf q Producer.ready Consumer.ready ins outs items
      → InvOf q Producer.ready Consumer.ready (values items) [] items
  forget i = record {
    at_head = i.at_head;
    chain = i.chain;
    no_repeat = i.no_repeat;
    head_fresh = i.head_fresh;
    publisher_fresh = i.publisher_fresh;
    head_apart = i.head_apart;
    producer_ok = i.producer_ok;
    consumer_ok = tt;
    sized = i.sized;
    in_order = refl;
  }

  length-values : (items : Items A) → length (values items) ≡ length items
  length-values [] = refl
  length-values ((a, v) ∷ rest) = ap suc (length-values rest)

  counters :
      (q : LockFreeQueue A) (xs : List A)
      → q.size ≡ pos (length xs)
      → length xs < 2 ^ 31
      → ((is_empty q ≡ true) ↔ (xs ≡ [])) × (queue_size q ≡ length xs)
  unfolding is_empty queue_size
  counters q [] e b = ((λ t. refl, λ n. rw (e, is_empty)), rw (e, queue_size))
  counters q (x ∷ xs) e b = ((λ t. absurd (ground arith), λ n. cc), rw e (ground arith))

  dequeue-values :
      (q : LockFreeQueue A) (items : Items A)
      → InvOf q Producer.ready Consumer.ready (values items) [] items
      → (q' : LockFreeQueue A) × (dequeue q ≡ ok ((uncons (values items)).0, q'))
        × Holds q' (uncons (values items)).1
  unfolding dequeue take_first Holds
  dequeue-values q [] i = (q, rw (has_published_none q i.at_head), ([], i))
  dequeue-values q ((a, v) ∷ rest) i =
      let tested_now : has_published q ≡ ok true =
        has_published-some q a i.at_head i.publisher_fresh.0 in
      let got_now : first q ≡ ok (a, v) = first_ok q a _ v i.at_head i.chain.0 in
      let i₁ = gets-InvOf a v (tests-InvOf i tested_now) got_now in
      let (q₁, e₁) = unlink-Succeeds q ((a, v) ∷ rest) a v (refl, refl) i.at_head i.chain in
      let i₂ = unlinks-InvOf a v i₁ e₁ in
      let (q₂, e₂) = free_node-Succeeds q₁ a i₂.consumer_ok.0 in
      let i₃ = frees-InvOf a v i₂ e₂ in
      (count_down q₂, rw (tested_now, got_now, e₁, e₂), (rest, forget (counts_down-InvOf i₃)))

  -- On a queue that holds the values `xs`, fewer than 2^31 - 1, `Enqueue`
  -- puts a value at the end; `Dequeue` takes the first value, or reports that there is none; `Empty` tells
  -- whether there is one, `queue_size` is their number, and nothing is unpublished.
  pub queue_refines :
      (d v : A) (b : ℕ) (q : LockFreeQueue A) (xs : List A)
      → Holds q xs
      → q.cells b ≡ none
      → length xs + 1 < 2 ^ 31
      → ((q' : LockFreeQueue A) × (enqueue d v b q ≡ ok q') × Holds q' (xs ++ (v ∷ [])))
        × ((q' : LockFreeQueue A) × (dequeue q ≡ ok ((uncons xs).0, q')) × Holds q' (uncons xs).1)
        × ((is_empty q ≡ true) ↔ (xs ≡ []))
        × (queue_size q ≡ length xs)
        × (has_unpublished q ≡ false)
  unfolding Holds has_unpublished
  queue_refines d v b q xs (items, i) free few = (
    enqueue_lem d v b q xs (items, i) free,
    subst
        (λ ys.
          (q' : LockFreeQueue A) × (dequeue q ≡ ok ((uncons ys).0, q')) × Holds q' (uncons ys).1)
        (sym i.in_order) (dequeue-values q items (forget i)),
    (counters q xs counted (omega (arith, few))).0,
    (counters q xs counted (omega (arith, few))).1,
    ground arith,
  )
    where
      plain : (n : ℕ) → sub_ℕ (n + 0) 0 ≡ pos n
      plain n = ground arith

      same_number : length items ≡ length xs
      same_number = sym (ap length i.in_order ∙ length-values items)

      counted : q.size ≡ pos (length xs)
      counted =
          i.sized
          ∙ ap to_int (plain (length items))
          ∙ ap (λ n. to_int (pos n)) same_number
          ∙ to_int-pos (length xs) (omega (arith, few))
