-- ===== src/Cstr/Search/BoyerMoore/GoodSuffix.antt =====
-- The second loop of `bm_good_suffix_shift_table` of c_utils/cstr.c, and the whole function.
use tiny_utils.Base.{
  ℕ, zero, suc, ◌+◌, ◌-◌, ◌≤◌, ◌<◌, ◌≡◌, ◌≢◌, refl, sym, ap, ◌∙◌, subst, List, length, set, get_or,
  ok, arith, length-set, load_lem, store_lem, get_or-set_self, get_or-set_ne, ℕ_discrete, dec_lt,
}
use tiny_utils.Cstr.Search.BoyerMoore.{inner_loop, bm_good_suffix_shift_table}
use tiny_utils.Cstr.Search.BoyerMoore.Suffix.{StopsAt, IsSuffixTable, bm_suffix_lem}
use tiny_utils.Cstr.Search.BoyerMoore.Prefix.{IsMove, IsPrefixSafe, prefix_loop-IsPrefixSafe}

-- The pattern, moved by `s`, can stand where it was met down to, but not at, the place `pi`.
pub record Compatible (pattern : List ℕ) (s pi : ℕ) : Type 0 where
  pub after :
      (x : ℕ) → pi < x → x < length pattern → s ≤ x → get_or pattern (x - s) 0 ≡ get_or pattern x 0
  pub at_pi : s ≤ pi → get_or pattern (pi - s) 0 ≢ get_or pattern pi 0

Compatible-StopsAt :
    (pattern : List ℕ) (s pi : ℕ)
    → Compatible pattern s pi
    → 1 ≤ s
    → s < length pattern
    → pi < length pattern
    → StopsAt pattern s (length pattern - s) (pi + 1 - s)
Compatible-StopsAt pattern s pi c low high inside = record {
  within = omega arith;
  agrees = λ x from to.
      let e : s + x - s ≡ x = omega arith in
      sym (
        ap (λ (q : ℕ). get_or pattern q 0) (sym e)
        ∙ c.after (s + x) (omega arith) (omega arith) (omega arith));
  differs = λ some_left same.
      let up : s + (pi + 1 - s - 1) ≡ pi = omega arith in
      let down : pi + 1 - s - 1 ≡ pi - s = omega arith in
      c.at_pi (omega arith) (
        ap (λ (q : ℕ). get_or pattern q 0) (sym down)
        ∙ sym same
        ∙ ap (λ (q : ℕ). get_or pattern q 0) up);
}

module _ (m : ℕ) (suffix : List ℕ) where
  abbrev IsInnerSafe : ℕ → List ℕ → Type 0
  IsInnerSafe i t = (k : ℕ) → k < i → get_or t (m - 1 - get_or suffix k 0) 0 ≤ m - 1 - k

  -- What the second loop writes is smaller than what it wrote before, and no larger than what the first
  -- loop left wants.
  record InnerState (i : ℕ) (t : List ℕ) : Type 0 where
    move : IsMove m t
    outer : IsPrefixSafe m suffix 0 t
    inner : IsInnerSafe i t

  module _ (small : (i : ℕ) → i < m → get_or suffix i 0 ≤ i + 1) (full : length suffix ≡ m) where
    set-InnerState :
        (i : ℕ) (t : List ℕ)
        → i < m - 1
        → InnerState i t
        → InnerState (i + 1) (set t (m - 1 - get_or suffix i 0) (m - 1 - i))
    set-InnerState i t inside s =
        let at = m - 1 - get_or suffix i 0 in
        let low_at = small i (omega arith) in
        let self = get_or-set_self t at (m - 1 - i) 0 (omega (arith, s.move.size)) in
        record {
          move = record {
            size = length-set t at (m - 1 - i) ∙ s.move.size;
            low = λ k h. elim (ℕ_discrete at k) [
              | yes e ↦
                  subst (λ (q : ℕ). 1 ≤ get_or (set t at (m - 1 - i)) q 0) e (omega (arith, self))
              | no ne ↦ rw (get_or-set_ne t (m - 1 - i) 0 ne) (s.move.low k h)
            ];
            high = λ k h. elim (ℕ_discrete at k) [
              | yes e ↦
                  subst (λ (q : ℕ). get_or (set t at (m - 1 - i)) q 0 ≤ m) e (omega (arith, self))
              | no ne ↦ rw (get_or-set_ne t (m - 1 - i) 0 ne) (s.move.high k h)
            ];
          };
          outer = λ p k low more under e. elim (ℕ_discrete at k) [
            | yes same ↦
                subst (λ (q : ℕ). get_or (set t at (m - 1 - i)) q 0 ≤ p) same (omega (arith, self))
            | no ne ↦ rw (get_or-set_ne t (m - 1 - i) 0 ne) (s.outer p k low more under e)
          ];
          inner = λ k h. elim (ℕ_discrete at (m - 1 - get_or suffix k 0)) [
            | yes same ↦
                subst (λ (q : ℕ). get_or (set t at (m - 1 - i)) q 0 ≤ m - 1 - k) same
                  (omega (arith, self))
            | no ne ↦ rw (get_or-set_ne t (m - 1 - i) 0 ne) (
                s.inner k (elim (ℕ_discrete k i) [
                  | yes now ↦ absurd (ne (ap (λ (q : ℕ). m - 1 - get_or suffix q 0) (sym now)))
                  | no before ↦ omega arith
                ]))
          ];
        }

    inner_loop_lem :
        (n i : ℕ) (t : List ℕ)
        → i + n ≡ m - 1
        → InnerState i t
        → (u : List ℕ) × (inner_loop m suffix n i t ≡ ok u) × InnerState (m - 1) u
    unfolding inner_loop
    inner_loop_lem zero i t e s =
        let last : i ≡ m - 1 = omega arith in (t, refl, subst (λ (q : ℕ). InnerState q t) last s)
    inner_loop_lem (suc n) i t e s =
        let at_i = load_lem suffix i 0 (omega arith) in
        let at = m - 1 - get_or suffix i 0 in
        let written =
          store_lem t at (m - 1 - i) (omega (arith, small i (omega arith), s.move.size)) in
        let (u, e', s') =
          inner_loop_lem n (i + 1) (set t at (m - 1 - i)) (omega arith)
            (set-InnerState i t (omega arith) s) in
        (u, rw (at_i, written) e', s')

-- For each place of the pattern the table moves by at least 1, and never past a place where the
-- pattern can stand.
pub record IsGoodSuffix (pattern t : List ℕ) : Type 0 where
  pub size : length t ≡ length pattern
  pub low : (pi : ℕ) → pi < length pattern → 1 ≤ get_or t pi 0
  pub least : (pi s : ℕ) → pi < length pattern → 1 ≤ s → Compatible pattern s pi → get_or t pi 0 ≤ s

InnerState-least :
    (pattern suffix t : List ℕ) (pi s : ℕ)
    → IsSuffixTable pattern 0 suffix
    → InnerState (length pattern) suffix (length pattern - 1) t
    → pi < length pattern
    → 1 ≤ s
    → Compatible pattern s pi
    → get_or t pi 0 ≤ s
InnerState-least pattern suffix t pi s f st inside low c =
    let m = length pattern in
    elim (dec_lt s m) [
      | no far ↦ omega (arith, st.move.high pi inside)
      | yes near ↦
          let i = m - 1 - s in
          let up : m - 1 - i ≡ s = omega arith in
          let count : suc i ≡ m - s = omega arith in
          let stops : StopsAt pattern (m - 1 - i) (suc i) (pi + 1 - s) =
            rw (up, count) (Compatible-StopsAt pattern s pi c low near inside) in
          let reach = f.exact i (pi + 1 - s) (omega arith) (omega arith) stops in
          elim (dec_lt pi s) [
            | yes before ↦ st.outer s pi low (omega arith) before (reach ∙ omega arith)
            | no at_or_after ↦
                let at : m - 1 - get_or suffix i 0 ≡ pi = omega arith in
                subst (λ (q : ℕ). get_or t q 0 ≤ s) at (omega (arith, st.inner i (omega arith)))
          ]
    ]

-- For a pattern that is not empty, whatever the array `suffix` holds before, `bm_good_suffix_shift_table`
-- returns, within all arrays, a table that moves by at least 1 and never past a place where the
-- pattern can stand.
pub bm_good_suffix_shift_table-IsGoodSuffix :
    (stack pattern : List ℕ)
    → 0 < length pattern
    → length stack ≡ length pattern
    → (t : List ℕ) × (bm_good_suffix_shift_table stack pattern ≡ ok t) × IsGoodSuffix pattern t
unfolding bm_good_suffix_shift_table
bm_good_suffix_shift_table-IsGoodSuffix stack pattern nonempty size =
    let m = length pattern in
    let (suffix, e, f) = bm_suffix_lem pattern stack nonempty size in
    let (t, e', move, safe) = prefix_loop-IsPrefixSafe m suffix f.size in
    let (u, e'', st) =
      inner_loop_lem m suffix (λ i h. f.small i (omega arith) h) f.size (m - 1) 0 t (omega arith)
        (record { move = move; outer = safe; inner = λ k h. absurd (omega arith) }) in
    (
      u,
      rw (e, e') e'',
      record {
        size = st.move.size;
        low = st.move.low;
        least = λ pi s inside low c. InnerState-least pattern suffix u pi s f st inside low c;
      },
    )
