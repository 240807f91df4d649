-- ===== src/Cstr/Search/BoyerMoore/Suffix.antt =====
-- The table of `bm_suffix` of c_utils/cstr.c.
use tiny_utils.Base.{
  ℕ, zero, suc, ◌+◌, ◌-◌, ◌≤◌, ◌<◌, ◌≡◌, ◌≢◌, inl, inr, refl, sym, ap, ◌∙◌, subst, List, length,
  set, get_or, ok, ◌==◌, arith, length-set, load_lem, store_lem, Bool-cases, ==_iff,
  get_or-set_self, get_or-set_ne, ℕ_discrete,
}
use tiny_utils.Cstr.Search.BoyerMoore.{suffix_back, suffix_loop, bm_suffix}

module _ (pattern : List ℕ) where
  abbrev byte : ℕ → ℕ
  byte x = get_or pattern x 0

  -- Below `j`, the pattern agrees with itself `ahead` places on down to `r`, and not further.
  pub record StopsAt (ahead j r : ℕ) : Type 0 where
    pub within : r ≤ j
    pub agrees : (x : ℕ) → r ≤ x → x < j → get_or pattern (ahead + x) 0 ≡ get_or pattern x 0
    pub differs : 0 < r → get_or pattern (ahead + (r - 1)) 0 ≢ get_or pattern (r - 1) 0

  suffix_back_lem :
      (ahead j : ℕ)
      → ahead + j ≤ length pattern
      → (r : ℕ) × (suffix_back pattern ahead j ≡ ok r)
        × (r ≤ j)
        × ((r' : ℕ) → StopsAt ahead j r' → r' ≡ r)
  unfolding suffix_back
  suffix_back_lem ahead zero h = (0, refl, omega arith, λ r' s. omega (arith, s.within))
  suffix_back_lem ahead (suc j) h =
      let at_a = load_lem pattern (ahead + j) 0 (omega arith) in
      let at_b = load_lem pattern j 0 (omega arith) in
      let (r, e, le, only) = suffix_back_lem ahead j (omega arith) in
      elim (Bool-cases (byte (ahead + j) == byte j)) [
        | inl equal ↦ (
          r,
          rw (at_a, at_b, equal) e,
          omega arith,
          λ r' s. elim (ℕ_discrete r' (suc j)) [
            | yes top ↦
                let same : ahead + (r' - 1) ≡ ahead + j = omega arith in
                let one : r' - 1 ≡ j = omega arith in
                absurd (
                  s.differs (omega arith) (ap byte same ∙ (==_iff _ _).0 equal ∙ ap byte (sym one)))
            | no lower ↦ only r' (record {
              within = omega (arith, s.within);
              agrees = λ x low high. s.agrees x low (omega arith);
              differs = s.differs;
            })
          ],
        )
        | inr different ↦ (
          suc j,
          rw (at_a, at_b, different),
          omega arith,
          λ r' s. elim (ℕ_discrete r' (suc j)) [
            | yes top ↦ top
            | no lower ↦ cc ((==_iff _ _).1 (s.agrees j (omega (arith, s.within)) (omega arith)))
          ],
        )
      ]

  -- From place `n` on, each entry is at most its place and 1, and says how far the pattern agrees with
  -- its end there.
  pub record IsSuffixTable (n : ℕ) (suffix : List ℕ) : Type 0 where
    pub size : length suffix ≡ length pattern
    pub small : (i : ℕ) → n ≤ i → i < length pattern → get_or suffix i 0 ≤ i + 1
    pub exact :
        (i r : ℕ)
        → n ≤ i
        → i < length pattern - 1
        → StopsAt (length pattern - 1 - i) (suc i) r
        → get_or suffix i 0 ≡ i + 1 - r

  suffix_loop_lem :
      (n : ℕ) (suffix : List ℕ)
      → n < length pattern
      → IsSuffixTable n suffix
      → (t : List ℕ) × (suffix_loop pattern n suffix ≡ ok t) × IsSuffixTable 0 t
  unfolding suffix_loop
  suffix_loop_lem zero suffix h s = (suffix, refl, s)
  suffix_loop_lem (suc i) suffix h s =
      let (r, e, le, only) = suffix_back_lem (length pattern - 1 - i) (suc i) (omega arith) in
      let written = store_lem suffix i (suc i - r) (omega (arith, s.size)) in
      let here = get_or-set_self suffix i (suc i - r) 0 (omega (arith, s.size)) in
      let (t, e', s') = suffix_loop_lem i (set suffix i (suc i - r)) (omega arith) (record {
        size = length-set suffix i (suc i - r) ∙ s.size;
        small = λ k low high. elim (ℕ_discrete i k) [
          | yes same ↦
              subst (λ (q : ℕ). get_or (set suffix i (suc i - r)) q 0 ≤ q + 1) same
                (omega (arith, here))
          | no other ↦ rw (get_or-set_ne suffix (suc i - r) 0 other) (s.small k (omega arith) high)
        ];
        exact = λ k r' low high stops. elim (ℕ_discrete i k) [
          | yes same ↦
              let q : r' ≡ r =
                only r' (
                  subst (λ (q : ℕ). StopsAt (length pattern - 1 - q) (suc q) r') (sym same)
                    stops) in
              ap (λ (q : ℕ). get_or (set suffix i (suc i - r)) q 0) (sym same) ∙ here ∙ omega arith
          | no other ↦
              get_or-set_ne suffix (suc i - r) 0 other ∙ s.exact k r' (omega arith) high stops
        ];
      }) in
      (t, rw (e, written) e', s')

  pub bm_suffix_lem :
      (stack : List ℕ)
      → 0 < length pattern
      → length stack ≡ length pattern
      → (t : List ℕ) × (bm_suffix pattern stack ≡ ok t) × IsSuffixTable 0 t
  unfolding bm_suffix
  bm_suffix_lem stack nonempty size =
      let m = length pattern in
      let (t, e, s) = suffix_loop_lem (m - 1) (set stack (m - 1) m) (omega arith) (record {
        size = length-set stack (m - 1) m ∙ size;
        small = λ i low high.
            let last : m - 1 ≡ i = omega arith in
            subst (λ (q : ℕ). get_or (set stack (m - 1) m) q 0 ≤ q + 1) last
              (omega (arith, get_or-set_self stack (m - 1) m 0 (omega arith)));
        exact = λ i r low high. absurd (omega arith);
      }) in
      (t, rw (store_lem stack (m - 1) m (omega arith)) e, s)
