-- ===== src/Cstr/Search/BoyerMoore/Prefix.antt =====
-- The first loop of `bm_good_suffix_shift_table`, for good suffixes that reach past the pattern's start.
use tiny_utils.Base.{
  ℕ, zero, suc, ◌+◌, ◌-◌, ◌≤◌, ◌<◌, ◌≡◌, ◌≢◌, inl, inr, refl, sym, ap, ◌∙◌, true, List, length, set,
  replicate, get_or, ok, ltb, ◌==◌, if◌then◌else◌, arith, length-set, length-replicate, load_lem,
  store_lem, Bool-cases, ==_iff, get_or-set_self, get_or-set_ne, get_or-replicate, ℕ_discrete,
  dec_lt,
}
use tiny_utils.Cstr.Search.BoyerMoore.{prefix_fill, prefix_loop}

module _ (m : ℕ) where
  prefix_fill_lem :
      (value n j : ℕ) (t : List ℕ)
      → length t ≡ m
      → j + n ≤ m
      → ((k : ℕ) → j ≤ k → k < m → get_or t k 0 ≡ m)
      → (u : List ℕ) × (prefix_fill m value n j t ≡ ok u)
        × (length u ≡ m)
        × ((k : ℕ) → k < j → get_or u k 0 ≡ get_or t k 0)
        × ((k : ℕ) → j ≤ k → k < j + n → get_or u k 0 ≡ value)
        × ((k : ℕ) → j + n ≤ k → get_or u k 0 ≡ get_or t k 0)
  unfolding prefix_fill
  prefix_fill_lem value zero j t size room untouched =
      (t, refl, size, λ k h. refl, λ k low high. absurd (omega arith), λ k h. refl)
  prefix_fill_lem value (suc n) j t size room untouched =
      let at_j = untouched j (omega arith) (omega arith) in
      let self = get_or-set_self t j value 0 (omega arith) in
      let (u, e, size', before, within, after) =
        prefix_fill_lem value n (j + 1) (set t j value) (length-set t j value ∙ size) (omega arith)
          (λ k low high.
            let apart : j ≢ k = λ q. omega arith in
            get_or-set_ne t value 0 apart ∙ untouched k (omega arith) high) in
      (
        u,
        rw
            (
              load_lem t j 0 (omega arith),
              (==_iff (get_or t j 0) m).1 at_j,
              store_lem t j value (omega arith),
            )
            e,
        size',
        λ k h.
            (let apart : j ≢ k = λ q. omega arith in
              before k (omega arith) ∙ get_or-set_ne t value 0 apart),
        λ k low high. elim (ℕ_discrete j k) [
          | yes same ↦
              before k (omega arith) ∙ ap (λ (q : ℕ). get_or (set t j value) q 0) (sym same) ∙ self
          | no other ↦ within k (omega arith) (omega arith)
        ],
        λ k h.
            (let apart : j ≢ k = λ q. omega arith in
              after k (omega arith) ∙ get_or-set_ne t value 0 apart),
      )

  -- Each entry is from 1 to the pattern's length.
  pub record IsMove (t : List ℕ) : Type 0 where
    pub size : length t ≡ m
    pub low : (k : ℕ) → k < m → 1 ≤ get_or t k 0
    pub high : (k : ℕ) → k < m → get_or t k 0 ≤ m

  -- Where what is before place `n` is the pattern's end, the table moves at most there.
  abbrev pub IsPrefixSafe : List ℕ → ℕ → List ℕ → Type 0
  IsPrefixSafe suffix n t =
      (s k : ℕ) → 1 ≤ s → s + n < m → k < s → get_or suffix (m - 1 - s) 0 ≡ m - s → get_or t k 0 ≤ s

  -- What holds before `n` more rounds of the first loop.
  record PrefixState (suffix : List ℕ) (n j : ℕ) (t : List ℕ) : Type 0 where
    size : length t ≡ m
    inside : j + n ≤ m
    untouched : (k : ℕ) → j ≤ k → k < m → get_or t k 0 ≡ m
    written : (k : ℕ) → k < j → (1 ≤ get_or t k 0) × (get_or t k 0 ≤ j)
    safe : IsPrefixSafe suffix n t

  filled-PrefixState :
      (suffix : List ℕ) (i j : ℕ) (t u : List ℕ)
      → PrefixState suffix (suc i) j t
      → length u ≡ m
      → ((k : ℕ) → k < j → get_or u k 0 ≡ get_or t k 0)
      → ((k : ℕ) → j ≤ k → k < m - 1 - i → get_or u k 0 ≡ m - 1 - i)
      → ((k : ℕ) → m - 1 - i ≤ k → get_or u k 0 ≡ get_or t k 0)
      → PrefixState suffix i (m - 1 - i) u
  filled-PrefixState suffix i j t u p size before within after =
      let top : j ≤ m - 1 - i = omega (arith, p.inside) in
      record {
        size = size;
        inside = omega (arith, p.inside);
        untouched = λ k low high. after k low ∙ p.untouched k (omega arith) high;
        written = λ k h. elim (dec_lt k j) [
          | yes old ↦ (
            omega (arith, before k old, (p.written k old).0),
            omega (arith, before k old, (p.written k old).1),
          )
          | no fresh ↦
              (omega (arith, within k (omega arith) h), omega (arith, within k (omega arith) h))
        ];
        safe = λ s k low more under e. elim (dec_lt k j) [
          | yes old ↦ elim (dec_lt (s + suc i) m) [
            | yes done ↦ omega (arith, before k old, p.safe s k low done under e)
            | no now ↦ omega (arith, before k old, (p.written k old).1)
          ]
          | no fresh ↦ elim (dec_lt k (m - 1 - i)) [
            | yes here ↦ elim (dec_lt (s + suc i) m) [
              | yes done ↦
                  let full = p.untouched k (omega arith) (omega arith) in
                  absurd (omega (arith, full, p.safe s k low done under e))
              | no now ↦ omega (arith, within k (omega arith) here)
            ]
            | no beyond ↦ absurd (omega arith)
          ]
        ];
      }

  skipped-PrefixState :
      (suffix : List ℕ) (i j : ℕ) (t : List ℕ)
      → PrefixState suffix (suc i) j t
      → get_or suffix i 0 ≢ suc i
      → PrefixState suffix i j t
  skipped-PrefixState suffix i j t p ne = record {
    size = p.size;
    inside = omega (arith, p.inside);
    untouched = p.untouched;
    written = p.written;
    safe = λ s k low more under e. elim (dec_lt (s + suc i) m) [
      | yes done ↦ p.safe s k low done under e
      | no now ↦
          let at_i : m - 1 - s ≡ i = omega arith in
          absurd (ne (ap (λ (q : ℕ). get_or suffix q 0) (sym at_i) ∙ e ∙ omega arith))
    ];
  }

  prefix_loop-filled :
      (suffix : List ℕ) (i j : ℕ) (t u : List ℕ)
      → i < length suffix
      → (get_or suffix i 0 == suc i) ≡ true
      → j ≤ m - 1 - i
      → prefix_fill m (m - 1 - i) (m - 1 - i - j) j t ≡ ok u
      → prefix_loop m suffix (suc i) j t ≡ prefix_loop m suffix i (m - 1 - i) u
  unfolding prefix_loop
  prefix_loop-filled suffix i j t u inside whole top e =
      let next : (if ltb j (m - 1 - i) then m - 1 - i else j) ≡ m - 1 - i = ground arith in
      rw (load_lem suffix i 0 inside, whole, e, next) refl

  prefix_loop_lem :
      (suffix : List ℕ) (n j : ℕ) (t : List ℕ)
      → length suffix ≡ m
      → PrefixState suffix n j t
      → (j' : ℕ) × (u : List ℕ) × (prefix_loop m suffix n j t ≡ ok u) × PrefixState suffix 0 j' u
  unfolding prefix_loop
  prefix_loop_lem suffix zero j t full p = (j, t, refl, p)
  prefix_loop_lem suffix (suc i) j t full p =
      let at_i = load_lem suffix i 0 (omega (arith, p.inside)) in
      elim (Bool-cases (get_or suffix i 0 == suc i)) [
        | inr different ↦
            let ne : get_or suffix i 0 ≢ suc i = λ e. cc ((==_iff _ _).1 e) in
            let (j', u, e, q) =
              prefix_loop_lem suffix i j t full (skipped-PrefixState suffix i j t p ne) in
            (j', u, rw (at_i, different) e, q)
        | inl equal ↦
            let value = m - 1 - i in
            let top : j ≤ value = omega (arith, p.inside) in
            let upto : j + (value - j) ≡ value = omega arith in
            let (u, e, size, before, within, after) =
              prefix_fill_lem value (value - j) j t p.size (omega (arith, p.inside)) p.untouched in
            let step = prefix_loop-filled suffix i j t u (omega (arith, p.inside)) equal top e in
            let (j', u', e', q) = prefix_loop_lem suffix i value u full (
              filled-PrefixState suffix i j t u p size before
                (λ k low h. within k low (omega arith)) (λ k h. after k (omega arith))) in
            (j', u', step ∙ e', q)
      ]

  pub prefix_loop-IsPrefixSafe :
      (suffix : List ℕ)
      → length suffix ≡ m
      → (t : List ℕ) × (prefix_loop m suffix m 0 (replicate m m) ≡ ok t)
        × IsMove t
        × IsPrefixSafe suffix 0 t
  prefix_loop-IsPrefixSafe suffix full =
      let (j, t, e, p) = prefix_loop_lem suffix m 0 (replicate m m) full (record {
        size = length-replicate m m;
        inside = omega arith;
        untouched = λ k low high. omega (arith, get_or-replicate m m k 0);
        written = λ k h. absurd (omega arith);
        safe = λ s k low more. absurd (omega arith);
      }) in
      (
        t,
        e,
        record {
          size = p.size;
          low = λ k h. elim (dec_lt k j) [
            | yes old ↦ (p.written k old).0
            | no rest ↦ omega (arith, p.untouched k (omega arith) h)
          ];
          high = λ k h. elim (dec_lt k j) [
            | yes old ↦ omega (arith, (p.written k old).1, p.inside)
            | no rest ↦ omega (arith, p.untouched k (omega arith) h)
          ];
        },
        p.safe,
      )
