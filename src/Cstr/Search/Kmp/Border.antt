-- ===== src/Cstr/Search/Kmp/Border.antt =====
-- Prefixes of a pattern that end a text: the borders on which the KMP search rests.
-- Texts are functions from positions to bytes.
use tiny_utils.Base.{
  ℕ, ◌+◌, ◌-◌, ◌≤◌, ◌<◌, ◌≡◌, inl, inr, sym, ap, ◌∙◌, List, get_or, ◌==◌, arith, Bool-cases, ==_iff,
}

-- The first `j` places of `p` stand in `f` just before place `i`.
abbrev pub Agree : (ℕ → ℕ) → (ℕ → ℕ) → ℕ → ℕ → Type 0
Agree f p i j = (x : ℕ) → x < j → f (i - j + x) ≡ p x

-- For each length up to `n` the table holds the longest proper border.
abbrev pub IsTable : (ℕ → ℕ) → List ℕ → ℕ → Type 0
IsTable p t n =
    (q : ℕ)
    → 0 < q
    → q ≤ n
    → (get_or t (q - 1) 0 < q)
      × Agree p p q (get_or t (q - 1) 0)
      × ((k : ℕ) → get_or t (q - 1) 0 < k → k < q → ¬ Agree p p q k)

module _ (f p : ℕ → ℕ) where
  pub Agree-trans : (i j k : ℕ) → j ≤ i → k ≤ j → Agree f p i j → Agree p p j k → Agree f p i k
  Agree-trans i j k h l a b x m =
      let e : i - k + x ≡ i - j + (j - k + x) = omega arith in
      ap f e ∙ a (j - k + x) (omega arith) ∙ b x m

  -- Of two prefixes that end at the same place the shorter one ends the longer one.
  pub Agree-inner : (i j k : ℕ) → j ≤ i → k ≤ j → Agree f p i j → Agree f p i k → Agree p p j k
  Agree-inner i j k h l a b x m =
      let e : i - k + x ≡ i - j + (j - k + x) = omega arith in
      sym (a (j - k + x) (omega arith)) ∙ sym (ap f e) ∙ b x m

  pub Agree-suc : (i j : ℕ) → j ≤ i → Agree f p i j → f i ≡ p j → Agree f p (i + 1) (j + 1)
  Agree-suc i j h a e x m = elim (Bool-cases (x == j)) [
    | inl last ↦
        let same = (==_iff x j).0 last in
        let at_i : i + 1 - (j + 1) + x ≡ i = omega arith in ap f at_i ∙ e ∙ ap p (sym same)
    | inr before ↦
        let shift : i + 1 - (j + 1) + x ≡ i - j + x = omega arith in ap f shift ∙ a x (ground arith)
  ]

  pub Agree-pred : (i j : ℕ) → j ≤ i → Agree f p (i + 1) (j + 1) → Agree f p i j × (f i ≡ p j)
  Agree-pred i j h a = (
    λ x m.
        (let shift : i - j + x ≡ i + 1 - (j + 1) + x = omega arith in
          ap f shift ∙ a x (omega arith)),
    (let at_i : i ≡ i + 1 - (j + 1) + j = omega arith in ap f at_i ∙ a j (omega arith)),
  )
