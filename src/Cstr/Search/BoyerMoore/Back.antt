-- ===== src/Cstr/Search/BoyerMoore/Back.antt =====
-- One round of `boyer_moore_search_first`: where the pattern differs, and how far the tables move.
use tiny_utils.Base.{
  ℕ, zero, suc, ◌+◌, ◌-◌, ◌≤◌, ◌<◌, ◌≡◌, ◌≢◌, inl, inr, refl, sym, ap, ◌∙◌, subst, List, length,
  get_or, ok, ◌==◌, arith, load_lem, Bool-cases, ==_iff, ℕ_discrete, dec_lt,
}
use tiny_utils.Base.Int.{ℤ, pos, ◌-ℤ◌, -ℤ_parts}
use tiny_utils.Cstr.Search.Spec.{MatchAt, MatchAt-get_or}
use tiny_utils.Cstr.Search.BoyerMoore.{match_back, larger}
use tiny_utils.Cstr.Search.BoyerMoore.GoodSuffix.{Compatible, IsGoodSuffix}
use tiny_utils.Cstr.Search.BoyerMoore.BadChar.{last_place, IsLast}

module _ (str bytes : List ℕ) where
  abbrev byte : ℕ → ℕ
  byte x = get_or str x 0

  abbrev text : ℕ → ℕ
  text x = get_or bytes x 0

  -- From place `r` on the pattern stands at `ti`, and not from the place before.
  pub record StandsFrom (ti r : ℕ) : Type 0 where
    pub agrees : (x : ℕ) → r ≤ x → x < length str → text (ti + x) ≡ byte x
    pub differs : 0 < r → get_or bytes (ti + (r - 1)) 0 ≢ get_or str (r - 1) 0

  pub match_back_lem :
      (ti j : ℕ)
      → ti + length str ≤ length bytes
      → j ≤ length str
      → ((x : ℕ) → j ≤ x → x < length str → get_or bytes (ti + x) 0 ≡ get_or str x 0)
      → (r : ℕ) × (match_back str bytes ti j ≡ ok r) × (r ≤ j) × StandsFrom ti r
  unfolding match_back
  match_back_lem ti zero room h all =
      (0, refl, omega arith, record { agrees = all; differs = λ l. absurd (omega arith) })
  match_back_lem ti (suc j) room h all =
      let at_a = load_lem bytes (ti + j) 0 (omega arith) in
      let at_b = load_lem str j 0 (omega arith) in
      elim (Bool-cases (text (ti + j) == byte j)) [
        | inl equal ↦
            let (r, e, le, s) = match_back_lem ti j room (omega arith) (λ x low high.
              elim (ℕ_discrete j x) [
                | yes same ↦
                    ap (λ (n : ℕ). text (ti + n)) (sym same)
                    ∙ (==_iff (text (ti + j)) (byte j)).0 equal
                    ∙ ap byte same
                | no other ↦ all x (omega arith) high
              ]) in
            (r, rw (at_a, at_b, equal) e, omega arith, s)
        | inr different ↦
            let one : suc j - 1 ≡ j = omega arith in
            (
              suc j,
              rw (at_a, at_b, different),
              omega arith,
              record {
                agrees = all;
                differs = λ l. rw one (λ e. cc ((==_iff (text (ti + j)) (byte j)).1 e));
              },
            )
      ]

  -- A later match leaves the pattern compatible with what has been seen.
  MatchAt-Compatible :
      (ti pi s : ℕ)
      → StandsFrom ti (suc pi)
      → pi < length str
      → MatchAt str bytes (ti + s)
      → Compatible str s pi
  MatchAt-Compatible ti pi s seen inside m =
      let there : (x : ℕ) → x < length str → s ≤ x → byte (x - s) ≡ text (ti + x) = λ (x : ℕ) h low.
        (let e : ti + s + (x - s) ≡ ti + x = omega arith in
          sym (ap text (sym e) ∙ MatchAt-get_or str bytes (ti + s) (x - s) m (omega arith))) in
      record {
        after = λ x past h low. there x h low ∙ seen.agrees x past h;
        at_pi = λ low e.
            let one : suc pi - 1 ≡ pi = omega arith in
            seen.differs (omega arith) (
              ap (λ (n : ℕ). text (ti + n)) one
              ∙ sym (there pi inside low)
              ∙ e
              ∙ ap byte (sym one));
      }

-- How far the tables let the search move.
pub no_match_before :
    (str bytes : List ℕ) (bc : List ℤ) (gs : List ℕ) (ti pi k : ℕ)
    → IsLast str (length str) bc
    → IsGoodSuffix str gs
    → StandsFrom str bytes ti (suc pi)
    → pi < length str
    → get_or bytes (ti + pi) 0 < 128
    → ti < k
    → k < ti + larger (pos pi -ℤ last_place bc (get_or bytes (ti + pi) 0)) (get_or gs pi 0)
    → ¬ MatchAt str bytes k
no_match_before str bytes bc gs ti pi k l g seen inside small after before m =
    let s = k - ti in
    let place : ti + s ≡ k = omega arith in
    let here : MatchAt str bytes (ti + s) = subst (MatchAt str bytes) (sym place) m in
    let good =
      g.least pi s inside (omega arith) (MatchAt-Compatible str bytes ti pi s seen inside here) in
    let c = get_or bytes (ti + pi) 0 in
    elim (dec_lt pi s) [
      | yes beyond ↦ ground (arith, l.low c small, -ℤ_parts (pos pi) (last_place bc c))
      | no within ↦
          let e : ti + s + (pi - s) ≡ ti + pi = omega arith in
          let met : get_or str (pi - s) 0 ≡ c = sym (
            ap (λ (n : ℕ). get_or bytes n 0) (sym e)
            ∙ MatchAt-get_or str bytes (ti + s) (pi - s) here (omega arith)) in
          ground
            (arith, l.last c (pi - s) small (omega arith) met, -ℤ_parts (pos pi) (last_place bc c))
    ]
