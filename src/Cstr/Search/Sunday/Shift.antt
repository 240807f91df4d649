-- ===== src/Cstr/Search/Sunday/Shift.antt =====
-- The shift table of `sunday_search_first`: how far a search may move on a byte.
use tiny_utils.Base.{
  ℕ, suc, ◌+◌, ◌-◌, ◌≤◌, ◌<◌, ◌≡◌, refl, sym, ◌∙◌, ap, subst, ◌≢◌, some, List, [], ◌∷◌, length,
  replicate, get_elem?, get_or, set, length-set, length-replicate, get_or-set_self, get_or-set_ne,
  get_or-replicate, ok, arith, ℕ_discrete, lt→ltb, get_elem?-eq-get_or,
}
use tiny_utils.Cstr.Search.Spec.{MatchAt, MatchAt-get_elem?}
use tiny_utils.Cstr.Search.Sunday.{fill_shift, search_max_len}

abbrev pub IsAscii : List ℕ → Type 0
IsAscii [] = Unit
IsAscii (c ∷ rest) = (c < 128) × IsAscii rest

-- On each byte the table moves by at least 1, at most the pattern's length and 1, and not past a
-- place where one of the first `i` bytes of the pattern would meet the byte.
pub record IsSafe (str : List ℕ) (i : ℕ) (shift : List ℕ) : Type 0 where
  pub size : length shift ≡ search_max_len
  pub low : (c : ℕ) → c < 128 → 1 ≤ get_or shift c 0
  pub high : (c : ℕ) → c < 128 → get_or shift c 0 ≤ length str + 1
  pub meets :
      (c j : ℕ) → c < 128 → j < i → get_elem? str j ≡ some c → get_or shift c 0 + j ≤ length str

replicate-IsSafe : (str : List ℕ) → IsSafe str 0 (replicate search_max_len (length str + 1))
replicate-IsSafe str = record {
  size = length-replicate search_max_len (length str + 1);
  low = λ c h. omega (arith, get_or-replicate search_max_len (length str + 1) c 0);
  high = λ c h. omega (arith, get_or-replicate search_max_len (length str + 1) c 0);
  meets = λ c j h k e. absurd (omega arith);
}

set-IsSafe :
    (str : List ℕ) (i k : ℕ) (shift : List ℕ)
    → IsSafe str i shift
    → i < length str
    → k < 128
    → get_elem? str i ≡ some k
    → IsSafe str (i + 1) (set shift k (length str - i))
set-IsSafe str i k shift s h small here = record {
  size = length-set shift k (length str - i) ∙ s.size;
  low = λ c q. elim (ℕ_discrete k c) [
    | yes e ↦ rw (← e) (rw (at_k) (omega arith))
    | no ne ↦ rw (get_or-set_ne shift (length str - i) 0 ne) (s.low c q)
  ];
  high = λ c q. elim (ℕ_discrete k c) [
    | yes e ↦ rw (← e) (rw (at_k) (omega arith))
    | no ne ↦ rw (get_or-set_ne shift (length str - i) 0 ne) (s.high c q)
  ];
  meets = λ c j q lt e. elim (ℕ_discrete k c) [
    | yes same ↦ rw (← same) (rw (at_k) (omega arith))
    | no ne ↦ rw (get_or-set_ne shift (length str - i) 0 ne) (s.meets c j q (earlier c j lt e ne) e)
  ];
}
  where
    at_k : get_or (set shift k (length str - i)) k 0 ≡ length str - i
    at_k = get_or-set_self shift k (length str - i) 0 (omega (arith, s.size))

    earlier : (c j : ℕ) → j < i + 1 → get_elem? str j ≡ some c → k ≢ c → j < i
    earlier c j lt e ne = elim (ℕ_discrete j i) [
      | yes same ↦ absurd (ne (cc))
      | no other ↦ omega arith
    ]

fill_shift_lem :
    (str : List ℕ) (i : ℕ) (rest shift : List ℕ)
    → i + length rest ≡ length str
    → ((k : ℕ) → get_elem? rest k ≡ get_elem? str (i + k))
    → IsAscii rest
    → IsSafe str i shift
    → (t : List ℕ) × (fill_shift (length str) i rest shift ≡ ok t) × IsSafe str (length str) t
unfolding fill_shift
fill_shift_lem str i [] shift e view a s =
    (shift, refl, subst (λ (n : ℕ). IsSafe str n shift) (omega arith) s)
fill_shift_lem str i (c ∷ rest) shift e view a s =
    let (t, eq, safe) =
      fill_shift_lem str (i + 1) rest (set shift c (length str - i)) (omega arith)
        (λ k. view (suc k) ∙ ap (get_elem? str) (omega arith)) a.1
        (set-IsSafe str i c shift s (omega arith) a.0
          (ap (get_elem? str) (omega arith) ∙ sym (view 0))) in
    (t, rw (lt→ltb c 128 a.0, lt→ltb c (length shift) (omega (arith, s.size))) eq, safe)

-- The table that the search builds.
pub shift-IsSafe :
    (str : List ℕ)
    → IsAscii str
    → (t : List ℕ) × (fill_shift (length str) 0 str (replicate search_max_len (length str + 1))
        ≡ ok t)
      × IsSafe str (length str) t
shift-IsSafe str a =
    fill_shift_lem str 0 str _ (omega arith) (λ k. ap (get_elem? str) (omega arith)) a
      (replicate-IsSafe str)

-- No match starts where the table moves past.
pub moves_past :
    (str bytes t : List ℕ) (ti k c : ℕ)
    → IsSafe str (length str) t
    → get_elem? bytes (ti + length str) ≡ some c
    → c < 128
    → ti < k
    → k < ti + get_or t c 0
    → ¬ MatchAt str bytes k
moves_past str bytes t ti k c s e small after before m =
    let j = ti + length str - k in
    let here : get_elem? str j ≡ some (get_or str j 0) =
      get_elem?-eq-get_or str j 0 (omega (arith, s.high c small)) in
    let there : get_elem? bytes (k + j) ≡ some (get_or str j 0) =
      MatchAt-get_elem? str bytes k j _ m here in
    let same_place : k + j ≡ ti + length str = omega (arith, s.high c small) in
    let same : get_or str j 0 ≡ c = cc (ap (get_elem? bytes) same_place) in
    omega (
      arith,
      s.high c small,
      s.meets c j small (omega (arith, s.high c small)) (here ∙ ap some same),
    )
