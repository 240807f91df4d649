-- ===== src/LockFreeQueue/Chain.antt =====
-- The linked list on the heap, as the list of its addresses and values.
use tiny_utils.Base.{ℕ, ◌≡◌, ◌≢◌, refl, Option, none, some, List, [], ◌∷◌, ◌++◌, arith}
use tiny_utils.LockFreeQueue.{QueueNode, node, update}

abbrev pub Items : Type 0 → Type 0
Items A = List (ℕ × A)

module _ {A : Type 0} where
  abbrev pub values : Items A → List A
  values [] = []
  values ((a, v) ∷ rest) = v ∷ values rest

  -- Where the list begins, if it ends at `to`.
  abbrev pub first_addr : Items A → ℕ → ℕ
  first_addr [] to = to
  first_addr ((a, v) ∷ rest) to = a

  -- Each item stands in its cell, linked to the next, the last one to `to`.
  abbrev pub Chain : (ℕ → Option (QueueNode A)) → Items A → ℕ → Type 0
  Chain cells [] to = Unit
  Chain cells ((a, v) ∷ rest) to =
      (cells a ≡ some (node v (some (first_addr rest to)))) × Chain cells rest to

  -- The address is none of the items'.
  abbrev pub Fresh : ℕ → Items A → Type 0
  Fresh x [] = Unit
  Fresh x ((a, v) ∷ rest) = (x ≢ a) × Fresh x rest

  abbrev pub NoRepeat : Items A → Type 0
  NoRepeat [] = Unit
  NoRepeat ((a, v) ∷ rest) = Fresh a rest × NoRepeat rest

  pub Chain-update :
      (cells : ℕ → Option (QueueNode A)) (items : Items A) (to x : ℕ) (n : Option (QueueNode A))
      → Fresh x items
      → Chain cells items to
      → Chain (update cells x n) items to
  Chain-update cells [] to x n f c = tt
  Chain-update cells ((a, v) ∷ rest) to x n f c =
      (ground arith, Chain-update cells rest to x n f.1 c.1)

  pub first_addr-snoc :
      (items : Items A) (p t : ℕ) (v : A)
      → first_addr (items ++ ((p, v) ∷ [])) t ≡ first_addr items p
  first_addr-snoc [] p t v = refl
  first_addr-snoc ((a, w) ∷ rest) p t v = refl

  pub Chain-snoc :
      (cells : ℕ → Option (QueueNode A)) (items : Items A) (p t : ℕ) (v : A)
      → Chain cells items p
      → cells p ≡ some (node v (some t))
      → Chain cells (items ++ ((p, v) ∷ [])) t
  Chain-snoc cells [] p t v c e = (e, tt)
  Chain-snoc cells ((a, w) ∷ rest) p t v c e =
      (rw (first_addr-snoc rest p t v) c.0, Chain-snoc cells rest p t v c.1 e)

  pub Fresh-snoc :
      (items : Items A) (x p : ℕ) (v : A) → Fresh x items → x ≢ p → Fresh x (items ++ ((p, v) ∷ []))
  Fresh-snoc [] x p v f ne = (ne, tt)
  Fresh-snoc ((a, w) ∷ rest) x p v f ne = (f.0, Fresh-snoc rest x p v f.1 ne)

  pub NoRepeat-snoc :
      (items : Items A) (p : ℕ) (v : A)
      → NoRepeat items
      → Fresh p items
      → NoRepeat (items ++ ((p, v) ∷ []))
  NoRepeat-snoc [] p v n f = (tt, tt)
  NoRepeat-snoc ((a, w) ∷ rest) p v n f =
      (Fresh-snoc rest a p v n.0 (ground arith), NoRepeat-snoc rest p v n.1 f.1)

  pub values-snoc :
      (items : Items A) (p : ℕ) (v : A) → values (items ++ ((p, v) ∷ [])) ≡ values items ++ (v ∷ [])
  values-snoc [] p v = refl
  values-snoc ((a, w) ∷ rest) p v = rw (values-snoc rest p v)

  -- An address that is not in use is none of the items'.
  pub Fresh-of_unused :
      (cells : ℕ → Option (QueueNode A)) (items : Items A) (to x : ℕ)
      → cells x ≡ none
      → Chain cells items to
      → Fresh x items
  Fresh-of_unused cells [] to x e c = tt
  Fresh-of_unused cells ((a, v) ∷ rest) to x e c =
      (ground arith, Fresh-of_unused cells rest to x e c.1)
