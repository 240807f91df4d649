-- ===== src/LockFreeQueue/Destroyed.antt =====
-- The destructor of LockFreeQueue, when no call of the queue is under way.
use tiny_utils.Base.{
  ℕ, zero, suc, ◌+◌, ◌≡◌, ◌≢◌, ◌≤◌, ◌⊎◌, inl, inr, refl, sym, ap, ◌∙◌, Option, none, some, List, [],
  ◌∷◌, ◌++◌, length, ok, arith, Bool-cases, ==_iff, ◌==◌, Option-cases,
}
use tiny_utils.LockFreeQueue.{
  QueueNode, LockFreeQueue, node, update, free_node, destroy_loop, destroy,
}
use tiny_utils.LockFreeQueue.Chain.{Items, values, first_addr, Chain, Fresh, NoRepeat, Chain-update}
use tiny_utils.LockFreeQueue.Threads.Invariant.{InvOf, next_of}
use tiny_utils.LockFreeQueue.Threads.{Producer, Consumer}
use tiny_utils.LockFreeQueue.Sequential.{Holds}

abbrev pub NotAmong : ℕ → List ℕ → Type 0
NotAmong x [] = Unit
NotAmong x (a ∷ rest) = (x ≢ a) × NotAmong x rest

abbrev pub Distinct : List ℕ → Type 0
Distinct [] = Unit
Distinct (a ∷ rest) = NotAmong a rest × Distinct rest

module _ {A : Type 0} where
  abbrev pub addresses : Items A → List ℕ
  addresses [] = []
  addresses ((a, v) ∷ rest) = a ∷ addresses rest

  -- The cells in the list are free, and all others are as before.
  abbrev pub Deleted : (ℕ → Option (QueueNode A)) → List ℕ → (ℕ → Option (QueueNode A)) → Type 0
  Deleted cells gone cells' = (x : ℕ) → (cells' x ≡ none) ⊎ (NotAmong x gone × (cells' x ≡ cells x))

  Deleted-update :
      (cells cells' : ℕ → Option (QueueNode A)) (a : ℕ) (gone : List ℕ)
      → Deleted (update cells a none) gone cells'
      → Deleted cells (a ∷ gone) cells'
  Deleted-update cells cells' a gone d x = elim (d x) [
    | inl empty ↦ inl empty
    | inr (kept, e) ↦ elim (Bool-cases (a == x)) [
      | inl same ↦ inl (e ∙ rw same refl)
      | inr other ↦ inr (((λ q. cc ((==_iff a x).1 (sym q))), kept), e ∙ rw other refl)
    ]
  ]

  one_round :
      (fuel tmp : ℕ) (q q' : LockFreeQueue A) (n : QueueNode A) (gone : List ℕ)
      → q.cells tmp ≡ some n
      → destroy_loop fuel n.next (record q { cells = update q.cells tmp none }) ≡ ok (q', gone)
      → destroy_loop (suc fuel) (some tmp) q ≡ ok (q', tmp ∷ gone)
  unfolding destroy_loop free_node
  one_round fuel tmp q q' n gone there e = rw (there, e) refl

  chain_lem :
      (items : Items A) (p fuel : ℕ) (q : LockFreeQueue A)
      → Chain q.cells items p
      → NoRepeat items
      → Fresh p items
      → next_of (q.cells p) ≡ some none
      → length items + 1 ≤ fuel
      → (q' : LockFreeQueue A) × (destroy_loop fuel (some (first_addr items p)) q
          ≡ ok (q', addresses items ++ (p ∷ [])))
        × Deleted q.cells (addresses items ++ (p ∷ [])) q'.cells
  chain_lem items p zero q c n f last enough = absurd (omega arith)
  chain_lem [] p (suc fuel) q c n f last enough = elim (Option-cases (q.cells p)) [
    | inl empty ↦ ground arith
    | inr (m, there) ↦
        let ends : m.next ≡ none = ground arith in
        let left = record q { cells = update q.cells p none } in
        (
          left,
          one_round fuel p q left m [] there (rw ends (unfold destroy_loop in refl)),
          Deleted-update q.cells left.cells p [] (λ x. inr (tt, refl)),
        )
  ]
  chain_lem ((a, v) ∷ rest) p (suc fuel) q c n f last enough =
      let left = record q { cells = update q.cells a none } in
      let apart : next_of (left.cells p) ≡ some none = ground arith in
      let (q', e, d) =
        chain_lem rest p fuel left (Chain-update q.cells rest p a none n.0 c.1) n.1 f.1 apart
          (omega arith) in
      (
        q',
        one_round fuel a q q' (node v (some (first_addr rest p))) _ c.0 e,
        Deleted-update q.cells q'.cells a (addresses rest ++ (p ∷ [])) d,
      )

  NotAmong-addresses :
      (items : Items A) (x p : ℕ) → Fresh x items → x ≢ p → NotAmong x (addresses items ++ (p ∷ []))
  NotAmong-addresses [] x p f ne = (ne, tt)
  NotAmong-addresses ((a, v) ∷ rest) x p f ne = (f.0, NotAmong-addresses rest x p f.1 ne)

  Distinct-addresses :
      (items : Items A) (p : ℕ)
      → NoRepeat items
      → Fresh p items
      → Distinct (addresses items ++ (p ∷ []))
  Distinct-addresses [] p n f = (tt, tt)
  Distinct-addresses ((a, v) ∷ rest) p n f =
      (NotAmong-addresses rest a p n.0 (λ e. f.0 (sym e)), Distinct-addresses rest p n.1 f.1)

  length-addresses :
      (items : Items A) (p : ℕ) → length (addresses items ++ (p ∷ [])) ≡ length (values items) + 1
  length-addresses [] p = refl
  length-addresses ((a, v) ∷ rest) p = omega (arith, length-addresses rest p)

  pub length-values : (items : Items A) → length (values items) ≡ length items
  length-values [] = refl
  length-values ((a, v) ∷ rest) = omega (arith, length-values rest)

  at_head :
      (fuel : ℕ) (q q' : LockFreeQueue A) (items : Items A) (gone : List ℕ)
      → next_of (q.cells q.head) ≡ some (some (first_addr items q.publisher))
      → destroy_loop fuel
          (some (first_addr items q.publisher))
          (record q { cells = update q.cells q.head none })
        ≡ ok (q', gone)
      → destroy_loop (suc fuel) (some q.head) q ≡ ok (q', q.head ∷ gone)
  at_head fuel q q' items gone h e = elim (Option-cases (q.cells q.head)) [
    | inl empty ↦ ground arith
    | inr (n, there) ↦
        let on : n.next ≡ some (first_addr items q.publisher) = ground arith in
        one_round fuel q.head q q' n gone there (rw on e)
  ]

  -- Between two calls, the loop goes over the head, the items and the last node.
  pub destroy_nodes :
      (fuel : ℕ) (q : LockFreeQueue A) (ins outs : List A) (items : Items A)
      → InvOf q Producer.ready Consumer.ready ins outs items
      → length items + 2 ≤ fuel
      → (q' : LockFreeQueue A) × (destroy fuel q
          ≡ ok (q', q.head ∷ (addresses items ++ (q.publisher ∷ []))))
        × Deleted q.cells (q.head ∷ (addresses items ++ (q.publisher ∷ []))) q'.cells
  unfolding destroy
  destroy_nodes zero q ins outs items i enough = absurd (omega arith)
  destroy_nodes (suc fuel) q ins outs items i enough =
      let p = q.publisher in
      let left = record q { cells = update q.cells q.head none } in
      let apart = i.head_apart in
      let ends : next_of (q.cells p) ≡ some none =
        ap (λ (t : ℕ). next_of (q.cells t)) (sym i.producer_ok.0) ∙ i.producer_ok.1 in
      let still : next_of (left.cells p) ≡ some none = ground arith in
      let (q', e, d) =
        chain_lem items p fuel left (Chain-update q.cells items p q.head none i.head_fresh i.chain)
          i.no_repeat i.publisher_fresh still (omega arith) in
      let gone = addresses items ++ (p ∷ []) in
      (q', at_head fuel q q' items gone i.at_head e, Deleted-update q.cells q'.cells q.head gone d)

  -- When no call is under way in a queue that holds the values, the loop of the destructor ends after one
  -- round for each value and two more; it deletes as many nodes, from the head on, all of them different and
  -- in use, and leaves every other cell as it was.
  destroy-Deleted :
      (fuel : ℕ) (q : LockFreeQueue A) (xs : List A)
      → Holds q xs
      → length xs + 2 ≤ fuel
      → (q' : LockFreeQueue A) × (gone : List ℕ) × (destroy fuel q ≡ ok (q', q.head ∷ gone))
        × (length gone ≡ length xs + 1)
        × Distinct (q.head ∷ gone)
        × Deleted q.cells (q.head ∷ gone) q'.cells
  unfolding Holds
  destroy-Deleted fuel q xs (items, i) enough =
      let p = q.publisher in
      let whole : length items ≡ length xs =
        sym (length-values items) ∙ ap (length {A = A}) (sym i.in_order) in
      let (q', e, d) = destroy_nodes fuel q xs [] items i (omega (arith, whole)) in
      (
        q',
        addresses items ++ (p ∷ []),
        e,
        length-addresses items p ∙ ap (λ (n : ℕ). n + 1) (length-values items ∙ whole),
        (
          NotAmong-addresses items q.head p i.head_fresh i.head_apart,
          Distinct-addresses items p i.no_repeat i.publisher_fresh,
        ),
        d,
      )
