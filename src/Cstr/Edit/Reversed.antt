-- ===== src/Cstr/Edit/Reversed.antt =====
-- The text that `cstr_reverse` of c_utils/cstr.c leaves.
use tiny_utils.Base.{
  ℕ, suc, ◌+◌, ◌-◌, ◌≡◌, inl, inr, refl, sym, ap, ◌∙◌, true, false, some, List, [], ◌∷◌, length,
  take, get_or, ok, ◌>>=◌, ltb, if◌then◌else◌, arith, length-take, Bool-cases, dec_lt, get_or_ext,
  get_or-take,
}
use mathlib.Core.List.{reverse, reverse_aux}
use tiny_utils.Cstr.Memory.{Cstr, IsValid, text}
use tiny_utils.Cstr.Trim.Trimmed.{Leaves}
use tiny_utils.Cstr.Edit.{cstr_reverse}
use tiny_utils.Cstr.Edit.Mirrored.{cstr_reverse-Mirrored}

length-reverse_aux : (xs ys : List ℕ) → length (reverse_aux xs ys) ≡ length xs + length ys
length-reverse_aux [] ys = omega arith
length-reverse_aux (x ∷ xs) ys = omega (arith, length-reverse_aux xs (x ∷ ys))

get_or-reverse_aux :
    (xs ys : List ℕ) (k : ℕ)
    → get_or (reverse_aux xs ys) k 0
      ≡ (if ltb k (length xs) then get_or xs (length xs - 1 - k) 0 else get_or ys (k - length xs) 0)
get_or-reverse_aux [] ys k =
    let all : k ≡ k - 0 = omega arith in
    let past : ltb k 0 ≡ false = ground arith in rw past (ap (λ (n : ℕ). get_or ys n 0) all)
get_or-reverse_aux (x ∷ xs) ys k = elim (Bool-cases (ltb k (length xs))) [
  | inl inside ↦
      let below : ltb k (suc (length xs)) ≡ true = ground arith in
      let place : suc (length xs) - 1 - k ≡ suc (length xs - 1 - k) = ground arith in
      rw (below, place) (get_or-reverse_aux xs (x ∷ ys) k ∙ rw inside refl)
  | inr past ↦ elim (Bool-cases (ltb k (suc (length xs)))) [
    | inl here ↦
        let first : suc (length xs) - 1 - k ≡ 0 = ground arith in
        let spot : k - length xs ≡ 0 = ground arith in
        rw (here, first) (get_or-reverse_aux xs (x ∷ ys) k ∙ rw (past, spot) refl)
    | inr beyond ↦
        let spot : k - length xs ≡ suc (k - suc (length xs)) = ground arith in
        rw beyond (get_or-reverse_aux xs (x ∷ ys) k ∙ rw (past, spot) refl)
  ]
]

-- For a valid string, `cstr_reverse` runs without a fault and leaves a valid string,
-- whose text is the text in the reverse order.
pub cstr_reverse-Leaves : (c : Cstr) → IsValid c → Leaves (reverse (text c)) (cstr_reverse (some c))
cstr_reverse-Leaves c v =
    let (b, e, m) = cstr_reverse-Mirrored c (omega (arith, v.fits, v.backed)) in
    let long : length (take c.used b) ≡ c.used =
      omega (arith, length-take c.used b, m.size, v.fits, v.backed) in
    let old : length (text c) ≡ c.used =
      omega (arith, length-take c.used c.bytes, v.fits, v.backed) in
    let turned : take c.used b ≡ reverse (text c) =
      get_or_ext (take c.used b) (reverse (text c)) 0
        (omega (arith, long, old, length-reverse_aux (text c) []))
        (λ k h.
          let below : ltb k (length (text c)) ≡ true = ground (arith, old, long) in
          let place : 0 + c.used - 1 - k ≡ length (text c) - 1 - k = omega (arith, old) in
          get_or-take c.used b k 0 (omega (arith, long))
          ∙ m.inside k (omega arith) (omega (arith, long))
          ∙ ap (λ (n : ℕ). get_or c.bytes n 0) place
          ∙ sym (get_or-take c.used c.bytes (length (text c) - 1 - k) 0 (omega (arith, old, long)))
          ∙ sym (get_or-reverse_aux (text c) [] k ∙ rw below refl)) in
    (
      record c { bytes = b },
      e,
      record { fits = v.fits; backed = omega (arith, m.size, v.backed); small = v.small },
      turned,
    )

-- For a valid string, `cstr_reverse` twice gives back the very same string, the bytes behind the
-- text included.
cstr_reverse-cstr_reverse :
    (c : Cstr) → IsValid c → (cstr_reverse (some c) >>= λ d. cstr_reverse (some d)) ≡ ok c
cstr_reverse-cstr_reverse c v =
    let (b, e, m) = cstr_reverse-Mirrored c (omega (arith, v.fits, v.backed)) in
    let d : Cstr = record c { bytes = b } in
    let (b', e', m') = cstr_reverse-Mirrored d (omega (arith, v.fits, v.backed, m.size)) in
    let back : b' ≡ c.bytes = get_or_ext b' c.bytes 0 (m'.size ∙ m.size) (λ k h.
      elim (dec_lt k c.used) [
        | yes inside ↦
            let place : 0 + c.used - 1 - (0 + c.used - 1 - k) ≡ k = omega arith in
            m'.inside k (omega arith) inside
            ∙ m.inside (0 + c.used - 1 - k) (omega arith) (omega arith)
            ∙ ap (λ (n : ℕ). get_or c.bytes n 0) place
        | no behind ↦ m'.after k (omega arith) ∙ m.after k (omega arith)
      ]) in
    rw e (e' ∙ ap (λ (bytes : List ℕ). ok (record c { bytes = bytes })) back)
