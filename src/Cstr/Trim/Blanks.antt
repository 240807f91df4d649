-- ===== src/Cstr/Trim/Blanks.antt =====
-- What the trimming functions leave, and which bytes they cut off.
use tiny_utils.Base.{
  ℕ, zero, suc, ◌+◌, ◌-◌, ◌≤◌, ◌<◌, ◌≡◌, inl, inr, refl, ap, ◌∙◌, true, false, List, [], ◌∷◌,
  length, get_or, ok, ltb, ◌==◌, arith, load_lem, Bool-cases, ==_iff,
}
use tiny_utils.Cstr.Trim.{is_blank, skip_blanks, skip_back}

-- The bytes from `from` up to `to` are blank.
abbrev pub AllBlank : List ℕ → ℕ → ℕ → Type 0
AllBlank bytes from to = (i : ℕ) → from ≤ i → i < to → is_blank (get_or bytes i 0) ≡ true

-- What `skip_blanks` finds: the first byte from `from` on that is not blank, or `used`.
abbrev pub IsStart : List ℕ → ℕ → ℕ → ℕ → Type 0
IsStart bytes from used beg =
    (from ≤ beg)
    × (beg ≤ used)
    × AllBlank bytes from beg
    × (beg < used → is_blank (get_or bytes beg 0) ≡ false)

-- What `skip_back` finds.
abbrev pub IsEnd : List ℕ → ℕ → ℕ → ℕ → Type 0
IsEnd bytes beg used end =
    (beg ≤ end)
    × (end ≤ used)
    × AllBlank bytes end used
    × (beg < end → is_blank (get_or bytes (end - 1) 0) ≡ false)

pub skip_back-IsEnd :
    (bytes : List ℕ) (beg used : ℕ)
    → beg ≤ used
    → used ≤ length bytes
    → (end : ℕ) × (skip_back bytes beg used ≡ ok end) × IsEnd bytes beg used end
unfolding skip_back
skip_back-IsEnd bytes beg zero h k =
    (0, refl, (h, omega arith, λ i l m. absurd (omega arith), λ m. absurd (omega arith)))
skip_back-IsEnd bytes beg (suc used) h k = elim (Bool-cases (ltb beg (suc used))) [
  | inr done ↦
      rw done (
        suc used,
        refl,
        (h, omega arith, λ i l m. absurd (omega arith), λ m. absurd (ground arith)),
      )
  | inl more ↦ elim (Bool-cases (is_blank (get_or bytes used 0))) [
    | inr full ↦
        let last : suc used - 1 ≡ used = omega arith in
        rw (more, load_lem bytes used 0 (omega arith), full)
          (
            suc used,
            refl,
            (
              h,
              omega arith,
              λ i l m. absurd (omega arith),
              λ m. ap (λ (j : ℕ). is_blank (get_or bytes j 0)) last ∙ full,
            ),
          )
    | inl blank ↦
        let (end, e, (low, high, all, stop)) =
          skip_back-IsEnd bytes beg used (ground arith) (omega arith) in
        rw (more, load_lem bytes used 0 (omega arith), blank)
          (
            end,
            e,
            (
              low,
              omega arith,
              λ i l m. elim (Bool-cases (i == used)) [
                | inl last ↦
                    ap (λ (j : ℕ). is_blank (get_or bytes j 0)) ((==_iff i used).0 last) ∙ blank
                | inr before ↦ all i l (ground arith)
              ],
              stop,
            ),
          )
  ]
]

pub skip_blanks-IsStart :
    (rest bytes : List ℕ) (from used : ℕ)
    → ((i : ℕ) → get_or bytes (from + i) 0 ≡ get_or rest i 0)
    → from ≤ used
    → used ≤ from + length rest
    → (beg : ℕ) × (skip_blanks rest from used ≡ ok beg) × IsStart bytes from used beg
unfolding skip_blanks
skip_blanks-IsStart [] bytes from used same h k = rw stop (
  from,
  refl,
  (omega arith, omega arith, λ i l m. absurd (omega arith), λ m. absurd (omega arith)),
)
  where
    stop : ltb from used ≡ false
    stop = ground arith
skip_blanks-IsStart (b ∷ rest) bytes from used same h k = elim (Bool-cases (ltb from used)) [
  | inr done ↦
      rw done
        (from, refl, (omega arith, h, λ i l m. absurd (omega arith), λ m. absurd (ground arith)))
  | inl more ↦ elim (Bool-cases (is_blank b)) [
    | inr full ↦
        rw (more, full)
          (
            from,
            refl,
            (omega arith, h, λ i l m. absurd (omega arith), λ m. ap is_blank here ∙ full),
          )
    | inl blank ↦
        let (beg, e, (low, high, all, stop)) =
          skip_blanks-IsStart rest bytes (from + 1) used later (ground arith) (omega arith) in
        rw (more, blank)
          (
            beg,
            e,
            (
              omega arith,
              high,
              λ i l m. elim (Bool-cases (i == from)) [
                | inl first ↦
                    ap (λ (j : ℕ). is_blank (get_or bytes j 0)) ((==_iff i from).0 first)
                    ∙ ap is_blank here
                    ∙ blank
                | inr after ↦ all i (ground arith) m
              ],
              stop,
            ),
          )
  ]
]
  where
    here : get_or bytes from 0 ≡ b
    here = let e : from ≡ from + 0 = omega arith in ap (λ (j : ℕ). get_or bytes j 0) e ∙ same 0

    later : (i : ℕ) → get_or bytes (from + 1 + i) 0 ≡ get_or rest i 0
    later i =
        let e : from + 1 + i ≡ from + suc i = omega arith in
        ap (λ (j : ℕ). get_or bytes j 0) e ∙ same (suc i)
