-- ===== src/Cstr/Search/Spec.antt =====
-- What it means to find a pattern in the bytes of a string.
use tiny_utils.Base.{
  ℕ, zero, suc, ◌+◌, ◌≤◌, ◌<◌, ◌≡◌, ◌⊎◌, inl, inr, sym, ap, ◌∙◌, subst, some, List, [], ◌∷◌, length,
  get_or, get_elem?, Outcome, ok, fault, Fault, ltb, if◌then◌else◌, arith, Bool-cases, ltb→lt,
  get_elem?-eq-get_or, dec_lt,
}
use tiny_utils.Base.Int.{ℤ, pos, negsuc}
use native.Mathlib.Nat.{add-zero}

abbrev pub not_found : ℤ
not_found = negsuc 0

-- The pattern stands in the bytes at position `at`.
abbrev pub MatchAt : List ℕ → List ℕ → ℕ → Type 0
MatchAt [] bytes at = Unit
MatchAt (c ∷ rest) bytes at = (get_elem? bytes at ≡ some c) × MatchAt rest bytes (suc at)

-- The first match from `begin` on inside the first `used` bytes, or none at all.
abbrev pub FindsFirst : List ℕ → ℕ → List ℕ → ℕ → Outcome ℤ → Type 0
FindsFirst pattern used bytes begin r =
    ((i : ℕ) × (r ≡ ok (pos i))
      × (begin ≤ i)
      × (i + length pattern ≤ used)
      × MatchAt pattern bytes i
      × ((k : ℕ) → begin ≤ k → k < i → ¬ MatchAt pattern bytes k))
    ⊎ ((r ≡ ok not_found)
        × ((k : ℕ) → begin ≤ k → k + length pattern ≤ used → ¬ MatchAt pattern bytes k))

pub MatchAt-get_elem? :
    (pattern bytes : List ℕ) (at k c : ℕ)
    → MatchAt pattern bytes at
    → get_elem? pattern k ≡ some c
    → get_elem? bytes (at + k) ≡ some c
MatchAt-get_elem? [] bytes at k c m e = cc
MatchAt-get_elem? (x ∷ rest) bytes at zero c m e = rw add-zero (m.0 ∙ e)
MatchAt-get_elem? (x ∷ rest) bytes at (suc k) c m e =
    subst (λ (n : ℕ). get_elem? bytes n ≡ some c) (omega arith)
      (MatchAt-get_elem? rest bytes (suc at) k c m.1 e)

-- Plain `char` is signed on the platforms that the source names: as an array index a byte from 128
-- on is negative.
abbrev pub char_index : ℕ → Outcome ℕ
char_index c = if ltb c 128 then ok c else fault Fault.out_of_bounds

-- A match, place by place.
get_or_of_some : (xs : List ℕ) (i c : ℕ) → get_elem? xs i ≡ some c → get_or xs i 0 ≡ c
get_or_of_some [] i c e = cc
get_or_of_some (x ∷ xs) zero c e = cc
get_or_of_some (x ∷ xs) (suc i) c e = get_or_of_some xs i c e

pub MatchAt-get_or :
    (str bytes : List ℕ) (k x : ℕ)
    → MatchAt str bytes k
    → x < length str
    → get_or bytes (k + x) 0 ≡ get_or str x 0
MatchAt-get_or [] bytes k x m h = absurd (omega arith)
MatchAt-get_or (c ∷ rest) bytes k zero m h =
    let e : k + 0 ≡ k = omega arith in
    ap (λ (j : ℕ). get_or bytes j 0) e ∙ get_or_of_some bytes k c m.0
MatchAt-get_or (c ∷ rest) bytes k (suc x) m h =
    let e : k + suc x ≡ suc k + x = omega arith in
    ap (λ (j : ℕ). get_or bytes j 0) e ∙ MatchAt-get_or rest bytes (suc k) x m.1 (omega arith)

pub MatchAt-of :
    (str bytes : List ℕ) (k : ℕ)
    → k + length str ≤ length bytes
    → ((x : ℕ) → x < length str → get_or bytes (k + x) 0 ≡ get_or str x 0)
    → MatchAt str bytes k
MatchAt-of [] bytes k h all = tt
MatchAt-of (c ∷ rest) bytes k h all =
    let e : k ≡ k + 0 = omega arith in
    (
      get_elem?-eq-get_or bytes k 0 (omega arith)
          ∙ ap some (ap (λ (j : ℕ). get_or bytes j 0) e ∙ all 0 (omega arith)),
      MatchAt-of rest bytes (suc k) (omega arith) (λ x l.
          let q : suc k + x ≡ k + suc x = omega arith in
          ap (λ (j : ℕ). get_or bytes j 0) q ∙ all (suc x) (omega arith)),
    )

pub FindsFirst-unique :
    (str bytes : List ℕ) (used begin : ℕ) (r r' : Outcome ℤ)
    → FindsFirst str used bytes begin r
    → FindsFirst str used bytes begin r'
    → r ≡ r'
FindsFirst-unique str bytes used begin r r' (inl (i, e, b, f, m, first))
      (inl (i', e', b', f', m', first')) =
    elim (Bool-cases (ltb i i')) [
      | inl before ↦ absurd (first' i b (ltb→lt i i' before) m)
      | inr not_before ↦ elim (Bool-cases (ltb i' i)) [
        | inl after ↦ absurd (first i' b' (ltb→lt i' i after) m')
        | inr not_after ↦
            let same : i ≡ i' = ground arith in e ∙ ap (λ (k : ℕ). ok (pos k)) same ∙ sym e'
      ]
    ]
FindsFirst-unique str bytes used begin r r' (inl (i, e, b, f, m, first)) (inr (e', none_at)) =
    absurd (none_at i b f m)
FindsFirst-unique str bytes used begin r r' (inr (e, none_at)) (inl (i', e', b', f', m', first')) =
    absurd (none_at i' b' f' m')
FindsFirst-unique str bytes used begin r r' (inr (e, none_at)) (inr (e', none_at')) = e ∙ sym e'

-- A search may go on from a later place that no match comes before.
pub FindsFirst-later :
    (str bytes : List ℕ) (used from to : ℕ) (r : Outcome ℤ)
    → from ≤ to
    → ((k : ℕ) → from ≤ k → k < to → ¬ MatchAt str bytes k)
    → FindsFirst str used bytes to r
    → FindsFirst str used bytes from r
FindsFirst-later str bytes used from to r le none_before (inl (i, e, b, fits, m, first)) = inl (
  i,
  e,
  omega arith,
  fits,
  m,
  λ k low high. elim (dec_lt k to) [
    | yes q ↦ none_before k low q
    | no q ↦ first k (omega arith) high
  ],
)
FindsFirst-later str bytes used from to r le none_before (inr (e, all)) = inr (
  e,
  λ k low fits. elim (dec_lt k to) [
    | yes q ↦ none_before k low q
    | no q ↦ all k (omega arith) fits
  ],
)
