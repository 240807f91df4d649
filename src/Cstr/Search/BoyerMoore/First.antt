-- ===== src/Cstr/Search/BoyerMoore/First.antt =====
-- The search loop of `boyer_moore_search_first` of c_utils/cstr.c, and the whole function.
use tiny_utils.Base.{
  ℕ, zero, suc, ◌+◌, ◌-◌, ◌^◌, ◌≤◌, ◌<◌, ◌≡◌, inl, inr, refl, sym, ap, ◌∙◌, subst, true, false,
  some, List, length, get_or, ok, ltb, leb, ◌==◌, ◌||◌, arith, load_lem, Bool-cases, lt→ltb,
  ℕ_discrete,
}
use tiny_utils.Base.Int.{ℤ, pos, negsuc, ◌-ℤ◌}
use tiny_utils.Cstr.Capacity.{u32}
use tiny_utils.Cstr.Memory.{Cstr, IsValid}
use tiny_utils.Cstr.Search.Spec.{FindsFirst, FindsFirst-later, MatchAt-get_or, MatchAt-of}
use tiny_utils.Cstr.Search.Sunday.{search_max_len}
use tiny_utils.Cstr.Search.Sunday.Shift.{IsAscii}
use tiny_utils.Cstr.Search.BoyerMoore.{match_back, larger, bm_scan, boyer_moore_search_first}
use tiny_utils.Cstr.Search.BoyerMoore.Back.{StandsFrom, match_back_lem, no_match_before}
use tiny_utils.Cstr.Search.BoyerMoore.GoodSuffix.{
  IsGoodSuffix, bm_good_suffix_shift_table-IsGoodSuffix,
}
use tiny_utils.Cstr.Search.BoyerMoore.BadChar.{last_place, IsLast, bm_bad_char_shift_table-IsLast}

-- What the text and the tables must be for the loop to be right.
record Searchable (str : List ℕ) (used : ℕ) (bytes : List ℕ) (bc : List ℤ) (gs : List ℕ)
    : Type 0 where
  last : IsLast str (length str) bc
  good : IsGoodSuffix str gs
  nonempty : 0 < length str
  short : length str ≤ used
  small : used < 2 ^ 31
  room : used < length bytes
  ascii : (k : ℕ) → k ≤ used → get_or bytes k 0 < 128

module _ {str : List ℕ} {used : ℕ} {bytes : List ℕ} {bc : List ℤ} {gs : List ℕ}
    (s : Searchable str used bytes bc gs) where
  open s use {last, good, nonempty, short, small, room, ascii}

  step_of : ℕ → ℕ → ℕ
  step_of ti pi = larger (pos pi -ℤ last_place bc (get_or bytes (ti + pi) 0)) (get_or gs pi 0)

  abbrev IsInside : ℕ → Type 0
  IsInside ti = leb ti (u32 (used + 2 ^ 32 - length str)) ≡ true

  fits : (ti : ℕ) → IsInside ti → ti + length str ≤ used
  fits ti more = ground arith

  forward : (ti pi : ℕ) → pi < length str → 1 ≤ step_of ti pi
  unfolding step_of
  forward ti pi h = ground (arith, good.low pi h)

  -- One round: the answer is at hand, or the search moves on by the tables.
  bm_scan_hit :
      (fuel ti : ℕ)
      → IsInside ti
      → match_back str bytes ti (length str) ≡ ok 0
      → bm_scan (suc fuel) str used bytes bc gs ti ≡ ok (pos ti)
  unfolding bm_scan
  bm_scan_hit fuel ti more hit = rw (more, hit) refl

  bm_scan_move :
      (fuel ti pi : ℕ)
      → IsInside ti
      → pi < length str
      → match_back str bytes ti (length str) ≡ ok (suc pi)
      → bm_scan (suc fuel) str used bytes bc gs ti
        ≡ bm_scan fuel str used bytes bc gs (ti + step_of ti pi)
  unfolding bm_scan step_of
  bm_scan_move fuel ti pi more inside miss =
      let order : pi + ti ≡ ti + pi = omega arith in
      let below = ascii (ti + pi) (omega (arith, fits ti more)) in
      rw
        (
          more,
          miss,
          order,
          load_lem bytes (ti + pi) 0 (omega (arith, fits ti more, room)),
          lt→ltb (get_or bytes (ti + pi) 0) 128 below,
          load_lem bc (get_or bytes (ti + pi) 0) (negsuc 0) (omega (arith, last.size)),
          load_lem gs pi 0 (omega (arith, good.size)),
        )
        refl

  bm_scan_lem :
      (fuel ti : ℕ)
      → used + 2 ≤ ti + fuel + length str
      → 0 < fuel
      → FindsFirst str used bytes ti (bm_scan fuel str used bytes bc gs ti)
  bm_scan_lem zero ti enough f = absurd (omega arith)
  bm_scan_lem (suc fuel) ti enough f =
      elim (Bool-cases (leb ti (u32 (used + 2 ^ 32 - length str)))) [
        | inr past ↦ inr (unfold bm_scan in rw past, λ k low inside. absurd (ground arith))
        | inl more ↦
            let (r, e, le, seen) =
              match_back_lem str bytes ti (length str) (omega (arith, fits ti more, room))
                (omega arith) (λ x low high. absurd (omega arith)) in
            elim (ℕ_discrete r 0) [
              | yes hit ↦ inl (
                ti,
                bm_scan_hit fuel ti more (e ∙ ap ok hit),
                omega arith,
                fits ti more,
                MatchAt-of str bytes ti (omega (arith, fits ti more, room))
                    (λ x h. seen.agrees x (omega arith) h),
                λ k low high. absurd (omega arith),
              )
              | no miss ↦
                  let pi = r - 1 in
                  let up : r ≡ suc pi = omega arith in
                  let inside : pi < length str = omega arith in
                  let further = forward ti pi inside in
                  let stands : StandsFrom str bytes ti (suc pi) =
                    subst (StandsFrom str bytes ti) up seen in
                  rw (bm_scan_move fuel ti pi more inside (e ∙ ap ok up)) (
                    FindsFirst-later str bytes used ti (ti + step_of ti pi) _ (omega arith)
                      (λ k low high. elim (ℕ_discrete ti k) [
                        | yes same ↦ λ m.
                            let x : ti + pi ≡ k + pi = omega arith in
                            let one : suc pi - 1 ≡ pi = omega arith in
                            stands.differs (omega arith) (
                              ap (λ (n : ℕ). get_or bytes (ti + n) 0) one
                              ∙ ap (λ (n : ℕ). get_or bytes n 0) x
                              ∙ MatchAt-get_or str bytes k pi m inside
                              ∙ ap (λ (n : ℕ). get_or str n 0) (sym one))
                        | no other ↦
                            no_match_before str bytes bc gs ti pi k last good stands inside
                              (ascii (ti + pi) (omega (arith, fits ti more))) (omega arith)
                              (unfold step_of in high)
                      ])
                      (bm_scan_lem fuel (ti + step_of ti pi) (omega arith)
                        (omega (arith, fits ti more))))
            ]
      ]

-- On a valid string of bytes below 128, the final byte included, and for a pattern of 1 to 255 such
-- bytes, whatever the array `suffix` holds before, the search returns the first position from `begin` on
-- where the pattern stands within the used bytes, or -1 if there is none.
pub boyer_moore_search_first-FindsFirst :
    (stack : List ℕ) (c : Cstr) (str : List ℕ) (begin : ℕ)
    → IsValid c
    → ((k : ℕ) → k ≤ c.used → get_or c.bytes k 0 < 128)
    → IsAscii str
    → length stack ≡ length str
    → 0 < length str
    → length str < search_max_len
    → FindsFirst str c.used c.bytes begin (boyer_moore_search_first stack (some c) (some str) begin)
unfolding boyer_moore_search_first
boyer_moore_search_first-FindsFirst stack c str begin v ascii a size nonempty short =
    elim (Bool-cases (ltb c.used begin || ltb c.used (u32 (begin + length str)))) [
      | inl far ↦ rw far (inr (refl, λ k low inside. absurd (ground arith)))
      | inr near ↦
          let (bc, e, last) = bm_bad_char_shift_table-IsLast str a in
          let (gs, e', good) = bm_good_suffix_shift_table-IsGoodSuffix stack str nonempty size in
          let ready : Searchable str c.used c.bytes bc gs = record {
            last = last;
            good = good;
            nonempty = nonempty;
            short = ground arith;
            small = omega arith;
            room = omega arith;
            ascii = ascii;
          } in
          rw (near, not_empty, not_long, e, e')
            (bm_scan_lem ready (c.used + 1) begin (omega arith) (omega arith))
    ]
  where
    not_empty : (length str == 0) ≡ false
    not_empty = ground arith

    not_long : leb search_max_len (length str) ≡ false
    not_long = ground arith
