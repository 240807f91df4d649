-- ===== src/Cstr/Search/Sunday/First.antt =====
-- The search loop of `sunday_search_first` of c_utils/cstr.c, and the whole function.
use tiny_utils.Base.{
  ℕ, zero, suc, ◌+◌, ◌-◌, ◌^◌, ◌≤◌, ◌<◌, ◌≡◌, refl, sym, ◌∙◌, ap, subst, inl, inr, true, false,
  ◌||◌, some, List, [], ◌∷◌, length, get_elem?, get_or, load, load_lem, ok, arith, ltb, leb, ◌==◌,
  ℕ_discrete, Bool-cases, lt→ltb, ==_iff, ◌↔◌, get_elem?-eq-get_or,
}
use tiny_utils.Base.Int.{pos}
use tiny_utils.Cstr.Capacity.{u32}
use tiny_utils.Cstr.Memory.{Cstr, IsValid}
use tiny_utils.Cstr.Search.Spec.{MatchAt, FindsFirst, FindsFirst-later}
use tiny_utils.Cstr.Search.Sunday.{advance, scan, sunday_search_first, search_max_len}
use tiny_utils.Cstr.Search.Sunday.Shift.{IsAscii, IsSafe, shift-IsSafe, moves_past}

reads :
    (bytes : List ℕ) (i c : ℕ)
    → i < length bytes
    → ((c == get_or bytes i 0) ≡ true) ↔ (get_elem? bytes i ≡ some c)
reads bytes i c h = (λ e. at_i ∙ ap some (sym ((==_iff c _).0 e)), λ e. (==_iff c _).1 (cc (at_i)))
  where
    at_i : get_elem? bytes i ≡ some (get_or bytes i 0)
    at_i = get_elem?-eq-get_or bytes i 0 h

-- `pi` stops at the pattern's length exactly when the pattern stands at the position.
advance_lem :
    (rest bytes : List ℕ) (ti pi : ℕ)
    → ti + pi + length rest ≤ length bytes
    → (p : ℕ) × (advance rest bytes ti pi ≡ ok p)
      × (p ≤ pi + length rest)
      × ((p ≡ pi + length rest) ↔ MatchAt rest bytes (ti + pi))
unfolding advance
advance_lem [] bytes ti pi h = (pi, refl, omega arith, (λ e. tt, λ m. omega arith))
advance_lem (c ∷ rest) bytes ti pi h = elim (Bool-cases (c == get_or bytes (ti + pi) 0)) [
  | inl eq ↦
      let (p, e, le, iff) = advance_lem rest bytes ti (pi + 1) (omega arith) in
      (
        p,
        rw (loaded, eq) e,
        omega arith,
        (
          λ q. (here.0 eq, subst (MatchAt rest bytes) (omega arith) (iff.0 (omega arith))),
          λ m. omega (arith, iff.1 (subst (MatchAt rest bytes) (omega arith) m.1)),
        ),
      )
  | inr ne ↦ (pi, rw (loaded, ne), omega arith, (λ e. absurd (omega arith), λ m. cc (here.1 m.0)))
]
  where
    loaded : load bytes (ti + pi) ≡ ok (get_or bytes (ti + pi) 0)
    loaded = load_lem bytes (ti + pi) 0 (omega arith)

    here : ((c == get_or bytes (ti + pi) 0) ≡ true) ↔ (get_elem? bytes (ti + pi) ≡ some c)
    here = reads bytes (ti + pi) c (omega arith)

advance_from_start :
    (str bytes : List ℕ) (ti : ℕ)
    → ti + length str ≤ length bytes
    → (p : ℕ) × (advance str bytes ti 0 ≡ ok p) × ((p ≡ length str) ↔ MatchAt str bytes ti)
advance_from_start str bytes ti h =
    let (p, e, le, iff) = advance_lem str bytes ti 0 (omega arith) in
    (
      p,
      e,
      (
        λ q. subst (MatchAt str bytes) (omega arith) (iff.0 (omega arith)),
        λ m. omega (arith, iff.1 (subst (MatchAt str bytes) (omega arith) m)),
      ),
    )

-- What the text and the table must be for the loop to be right.
record Searchable (str : List ℕ) (used : ℕ) (bytes shift : List ℕ) : Type 0 where
  safe : IsSafe str (length str) shift
  nonempty : 0 < length str
  short : length str ≤ used
  small : used < 2 ^ 31
  room : used < length bytes
  ascii : (k : ℕ) → k ≤ used → get_or bytes k 0 < 128

module _ {str : List ℕ} {used : ℕ} {bytes shift : List ℕ}
    (s : Searchable str used bytes shift) where
  open s use {safe, nonempty, short, small, room, ascii}

  next_byte : ℕ → ℕ
  next_byte ti = get_or bytes (ti + length str) 0

  abbrev IsInside : ℕ → Type 0
  IsInside ti = leb ti (u32 (used + 2 ^ 32 - length str)) ≡ true

  fits : (ti : ℕ) → IsInside ti → ti + length str ≤ used
  fits ti more = ground arith

  small_byte : (ti : ℕ) → IsInside ti → next_byte ti < 128
  unfolding next_byte
  small_byte ti more = ascii (ti + length str) (fits ti more)

  -- One round: the answer is at hand, or the search moves on by the table.
  scan_hit :
      (fuel ti : ℕ)
      → IsInside ti
      → advance str bytes ti 0 ≡ ok (length str)
      → scan (suc fuel) str used bytes shift ti ≡ ok (pos ti)
  unfolding scan
  scan_hit fuel ti more hit = rw (more, hit, (==_iff (length str) (length str)).1 refl)

  scan_move :
      (fuel ti p : ℕ)
      → IsInside ti
      → advance str bytes ti 0 ≡ ok p
      → (p == length str) ≡ false
      → scan (suc fuel) str used bytes shift ti
        ≡ scan fuel str used bytes shift (ti + get_or shift (next_byte ti) 0)
  unfolding scan next_byte
  scan_move fuel ti p more miss ne = rw (
    more,
    miss,
    ne,
    load_lem bytes (ti + length str) 0 (omega (arith, fits ti more)),
    lt→ltb (next_byte ti) 128 (small_byte ti more),
    load_lem shift (next_byte ti) 0 (omega (arith, safe.size, small_byte ti more)),
  )

  no_match_before :
      (ti k : ℕ)
      → IsInside ti
      → ¬ MatchAt str bytes ti
      → ti ≤ k
      → k < ti + get_or shift (next_byte ti) 0
      → ¬ MatchAt str bytes k
  unfolding next_byte
  no_match_before ti k more here low high = elim (ℕ_discrete ti k) [
    | yes e ↦ subst (λ (n : ℕ). ¬ MatchAt str bytes n) e here
    | no ne ↦
        moves_past str bytes shift ti k (next_byte ti) safe
          (get_elem?-eq-get_or bytes (ti + length str) 0 (omega (arith, fits ti more)))
          (ascii (ti + length str) (fits ti more)) (omega arith) high
  ]

  scan_lem :
      (fuel ti : ℕ)
      → used + 2 ≤ ti + fuel + length str
      → 0 < fuel
      → FindsFirst str used bytes ti (scan fuel str used bytes shift ti)
  scan_lem zero ti enough f = absurd (omega arith)
  scan_lem (suc fuel) ti enough f = elim (Bool-cases (leb ti (u32 (used + 2 ^ 32 - length str)))) [
    | inr past ↦ inr (unfold scan in rw past, λ k low inside. absurd (ground arith))
    | inl more ↦
        let (p, e, iff) = advance_from_start str bytes ti (omega (arith, fits ti more, room)) in
        let next = get_or shift (next_byte ti) 0 in
        elim (Bool-cases (p == length str)) [
          | inl hit ↦
              let full : p ≡ length str = (==_iff p _).0 hit in
              inl (
                ti,
                scan_hit fuel ti more (e ∙ ap ok full),
                omega arith,
                fits ti more,
                iff.0 full,
                λ k low high. absurd (omega arith),
              )
          | inr miss ↦
              let further : 1 ≤ next = safe.low (next_byte ti) (small_byte ti more) in
              rw (scan_move fuel ti p more e miss) (
                FindsFirst-later str bytes used ti (ti + next) _ (omega arith)
                  (λ k. no_match_before ti k more (λ m. cc ((==_iff p _).1 (iff.1 m))))
                  (scan_lem fuel (ti + next) (omega arith) (omega (arith, fits ti more))))
        ]
  ]

-- On a valid string of bytes below 128, the final byte included, and for a pattern of 1 to 255 such
-- bytes, the search returns the first position from `begin` on where the pattern stands within the
-- used bytes, or -1 if there is none.
pub sunday_search_first-FindsFirst :
    (c : Cstr) (str : List ℕ) (begin : ℕ)
    → IsValid c
    → ((k : ℕ) → k ≤ c.used → get_or c.bytes k 0 < 128)
    → IsAscii str
    → 0 < length str
    → length str < search_max_len
    → FindsFirst str c.used c.bytes begin (sunday_search_first (some c) (some str) begin)
unfolding sunday_search_first
sunday_search_first-FindsFirst c str begin v ascii a nonempty short =
    elim (Bool-cases (ltb c.used begin || ltb c.used (u32 (begin + length str)))) [
      | inl far ↦ rw far (inr (refl, λ k low inside. absurd (ground arith)))
      | inr near ↦
          let (t, e, safe) = shift-IsSafe str a in
          let ready : Searchable str c.used c.bytes t = record {
            safe = safe;
            nonempty = nonempty;
            short = ground arith;
            small = omega arith;
            room = omega arith;
            ascii = ascii;
          } in
          rw (near, not_empty, not_long, e)
            (scan_lem ready (c.used + 1) begin (omega arith) (omega arith))
    ]
  where
    not_empty : (length str == 0) ≡ false
    not_empty = ground arith

    not_long : leb search_max_len (length str) ≡ false
    not_long = ground arith
