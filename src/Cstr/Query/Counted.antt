-- ===== src/Cstr/Query/Counted.antt =====
-- Counting and finding a character, prefixes, and tests of all characters in c_utils/cstr.c.
use tiny_utils.Base.{
  ℕ, zero, suc, ◌+◌, ◌-◌, ◌^◌, ◌≤◌, ◌<◌, ◌≡◌, inl, inr, min, refl, sym, ap, ◌∙◌, Bool, true, false,
  Option, none, some, List, [], ◌∷◌, length, take, drop, ok, ltb, ◌==◌, ◌||◌, ◌&&◌, if◌then◌else◌,
  arith, length-take, length-drop, take_of_pos, take-nil, take-drop_of_take, drop-take, take_whole,
  Bool-cases, ==_iff,
}
use tiny_utils.Base.Int.{ℤ, pos}
use tiny_utils.Cstr.Capacity.{u32}
use tiny_utils.Cstr.Memory.{Cstr, IsValid, text}
use tiny_utils.Cstr.Search.Spec.{not_found}
use tiny_utils.Cstr.Query.{
  starts_loop, cstr_is_start_with, count_loop, cstr_count_char, find_loop, cstr_find_char, all_loop,
  cstr_is_hex, is_hex_char,
}

ok_if : (b x y : Bool) → (if b then ok x else ok y) ≡ ok (if b then x else y)
ok_if true x y = refl
ok_if false x y = refl

if_false : (b : Bool) → (if b then false else false) ≡ false
if_false true = refl
if_false false = refl

-- How often a character stands in a text.
abbrev pub occurrences : ℕ → List ℕ → ℕ
occurrences c [] = 0
occurrences c (b ∷ rest) = if b == c then occurrences c rest + 1 else occurrences c rest

count_loop_lem :
    (rest : List ℕ) (c i end used : ℕ)
    → min end used ≤ i + length rest
    → count_loop rest c i end used ≡ ok (occurrences c (take (min end used - i) rest))
unfolding count_loop
count_loop_lem [] c i end used h =
    let stop : (ltb i end && ltb i used) ≡ false = ground arith in
    rw (stop, take-nil {A = ℕ} (min end used - i)) refl
count_loop_lem (b ∷ rest) c i end used h = elim (Bool-cases (ltb i end && ltb i used)) [
  | inr done ↦ let none : min end used - i ≡ 0 = ground arith in rw (done, none) refl
  | inl more ↦
      let later : min end used - i - 1 ≡ min end used - (i + 1) = omega arith in
      rw
        (
          more,
          take_of_pos (min end used - i) b rest (ground arith),
          later,
          count_loop_lem rest c (i + 1) end used (omega arith),
        )
        (elim (b == c) [ true ↦ refl | false ↦ refl ])
]

-- On a valid string, `cstr_count_char` counts the character in the text from `begin` up to `end`,
-- where an `end` of 0, or one beyond the text, is the end of the text.
cstr_count_char-occurrences :
    (s : Cstr) (c begin end : ℕ)
    → IsValid s
    → let stop = (if end == 0 then s.used else min end s.used) in
      cstr_count_char (some s) c begin end
      ≡ ok (occurrences c (take (stop - begin) (drop begin (text s))))
unfolding cstr_count_char
cstr_count_char-occurrences s c begin end v =
    let end' = if end == 0 then s.used else end in
    let stop = if end == 0 then s.used else min end s.used in
    let reach : min (stop - begin) (s.used - begin) ≡ min end' s.used - begin = ground arith in
    count_loop_lem (drop begin s.bytes) c begin end' s.used
      (omega (arith, length-drop begin s.bytes, v.fits, v.backed))
    ∙ ap (λ t. ok (occurrences c t))
        (ap (λ (k : ℕ). take k (drop begin s.bytes)) (sym reach)
          ∙ take-drop_of_take (stop - begin) begin s.used s.bytes)

-- A place that is counted from one byte earlier.
abbrev pub one_later : Option ℕ → Option ℕ
one_later none = none
one_later (some k) = some (k + 1)

-- The place of a character in a text.
abbrev pub index_of : ℕ → List ℕ → Option ℕ
index_of c [] = none
index_of c (b ∷ rest) = if b == c then some 0 else one_later (index_of c rest)

abbrev pub index_from : ℕ → Option ℕ → ℤ
index_from begin none = not_found
index_from begin (some k) = pos (begin + k)

index_from_suc : (i : ℕ) (o : Option ℕ) → index_from (i + 1) o ≡ index_from i (one_later o)
index_from_suc i none = refl
index_from_suc i (some k) = let e : i + 1 + k ≡ i + (k + 1) = omega arith in ap pos e

find_loop_lem :
    (rest : List ℕ) (c i end used : ℕ)
    → min end used ≤ i + length rest
    → find_loop rest c i end used ≡ ok (index_from i (index_of c (take (min end used - i) rest)))
unfolding find_loop
find_loop_lem [] c i end used h =
    let stop : (ltb i used && ltb i end) ≡ false = ground arith in
    rw (stop, take-nil {A = ℕ} (min end used - i)) refl
find_loop_lem (b ∷ rest) c i end used h = elim (Bool-cases (ltb i used && ltb i end)) [
  | inr done ↦ let none_left : min end used - i ≡ 0 = ground arith in rw (done, none_left) refl
  | inl more ↦
      let later : min end used - i - 1 ≡ min end used - (i + 1) = omega arith in
      rw (more, take_of_pos (min end used - i) b rest (ground arith), later)
        (elim (Bool-cases (b == c)) [
          | inl here ↦ let e : i ≡ i + 0 = omega arith in rw here (ap (λ (k : ℕ). ok (pos k)) e)
          | inr other ↦
              rw (other, find_loop_lem rest c (i + 1) end used (omega arith))
                (ap ok (index_from_suc i (index_of c (take (min end used - (i + 1)) rest))))
        ])
]

-- On a valid string, `cstr_find_char` returns the first position of the character in the text from
-- `begin` up to `end`, or -1; an `end` of 0, or one beyond the text, is the end of the text.
cstr_find_char-index_of :
    (s : Cstr) (c begin end : ℕ)
    → IsValid s
    → let stop = (if end == 0 then s.used else min end s.used) in
      cstr_find_char (some s) c begin end
      ≡ ok (index_from begin (index_of c (take (stop - begin) (drop begin (text s)))))
unfolding cstr_find_char
cstr_find_char-index_of s c begin end v =
    let end' = if end == 0 then s.used else end in
    let stop = if end == 0 then s.used else min end s.used in
    let reach : min (stop - begin) (s.used - begin) ≡ min end' s.used - begin = ground arith in
    find_loop_lem (drop begin s.bytes) c begin end' s.used
      (omega (arith, length-drop begin s.bytes, v.fits, v.backed))
    ∙ ap (λ t. ok (index_from begin (index_of c t)))
        (ap (λ (k : ℕ). take k (drop begin s.bytes)) (sym reach)
          ∙ take-drop_of_take (stop - begin) begin s.used s.bytes)

-- Whether a text begins with another.
abbrev pub is_prefix : List ℕ → List ℕ → Bool
is_prefix [] xs = true
is_prefix (c ∷ str) [] = false
is_prefix (c ∷ str) (x ∷ xs) = if x == c then is_prefix str xs else false

starts_loop_lem :
    (bytes str : List ℕ) (n : ℕ)
    → length str ≤ n
    → n ≤ length bytes
    → starts_loop bytes str ≡ ok (is_prefix str (take n bytes))
unfolding starts_loop
starts_loop_lem bytes [] n h k = refl
starts_loop_lem [] (c ∷ str) n h k = absurd (omega arith)
starts_loop_lem (b ∷ bytes) (c ∷ str) zero h k = absurd (omega arith)
starts_loop_lem (b ∷ bytes) (c ∷ str) (suc n) h k =
    rw (starts_loop_lem bytes str n (omega arith) (omega arith))
      (ok_if (b == c) (is_prefix str (take n bytes)) false)

is_prefix_of_longer : (str xs : List ℕ) → length xs < length str → is_prefix str xs ≡ false
is_prefix_of_longer [] xs h = absurd (omega arith)
is_prefix_of_longer (c ∷ str) [] h = refl
is_prefix_of_longer (c ∷ str) (x ∷ xs) h =
    rw (is_prefix_of_longer str xs (omega arith)) (if_false (x == c))

-- On a valid string, and for a text shorter than 2^32 bytes, `cstr_is_start_with` tells whether the
-- text of the string begins with that text.
cstr_is_start_with-is_prefix :
    (s : Cstr) (str : List ℕ)
    → IsValid s
    → length str < 2 ^ 32
    → cstr_is_start_with (some s) (some str) ≡ ok (is_prefix str (text s))
unfolding cstr_is_start_with
cstr_is_start_with-is_prefix s str v h =
    let wide : u32 (length str) ≡ length str = omega arith in
    rw (wide, take_whole str)
      (elim (Bool-cases (ltb s.used (length str))) [
        | inl longer ↦
            rw
              (
                longer,
                is_prefix_of_longer str (text s) (ground (arith, length-take s.used s.bytes)),
              )
              refl
        | inr fits ↦ elim (Bool-cases (length str == 0)) [
          | inl empty ↦
              rw (fits, empty)
                (ap ok (sym (no_text str ((==_iff (length str) 0).0 empty) (text s))))
          | inr more ↦
              rw (fits, more)
                (starts_loop_lem s.bytes str s.used (ground arith)
                  (omega (arith, v.fits, v.backed)))
        ]
      ])
  where
    no_text : (str : List ℕ) → length str ≡ 0 → (xs : List ℕ) → is_prefix str xs ≡ true
    no_text [] e xs = refl
    no_text (c ∷ str) e xs = absurd (omega arith)

abbrev pub all_of : (ℕ → Bool) → List ℕ → Bool
all_of test [] = true
all_of test (b ∷ rest) = if test b then all_of test rest else false

all_loop_lem :
    (test : ℕ → Bool) (rest : List ℕ) (i used : ℕ)
    → used ≤ i + length rest
    → all_loop test rest i used ≡ ok (all_of test (take (used - i) rest))
unfolding all_loop
all_loop_lem test [] i used h =
    let stop : ltb i used ≡ false = ground arith in rw (stop, take-nil {A = ℕ} (used - i)) refl
all_loop_lem test (b ∷ rest) i used h = elim (Bool-cases (ltb i used)) [
  | inr done ↦ let none_left : used - i ≡ 0 = ground arith in rw (done, none_left) refl
  | inl more ↦
      let later : used - i - 1 ≡ used - (i + 1) = omega arith in
      rw
        (
          more,
          take_of_pos (used - i) b rest (ground arith),
          later,
          all_loop_lem test rest (i + 1) used (omega arith),
        )
        (ok_if (test b) (all_of test (take (used - (i + 1)) rest)) false)
]

-- On a valid string, `cstr_is_hex` tells whether the text begins with 0x or 0X and has hexadecimal
-- digits only behind that, possibly none.
cstr_is_hex-all_of :
    (s : Cstr)
    → IsValid s
    → cstr_is_hex (some s)
      ≡ ok (
          (is_prefix (b'0' ∷ b'x' ∷ []) (text s) || is_prefix (b'0' ∷ b'X' ∷ []) (text s))
          && all_of is_hex_char (drop 2 (text s)))
unfolding cstr_is_hex
cstr_is_hex-all_of s v = elim (Bool-cases (s.used == 0)) [
  | inl empty ↦
      let short : length (text s) < 2 = ground (arith, length-take s.used s.bytes) in
      rw
        (
          empty,
          is_prefix_of_longer (b'0' ∷ b'x' ∷ []) (text s) short,
          is_prefix_of_longer (b'0' ∷ b'X' ∷ []) (text s) short,
        )
        refl
  | inr more ↦
      rw
        (
          more,
          cstr_is_start_with-is_prefix s (b'0' ∷ b'x' ∷ []) v (omega arith),
          cstr_is_start_with-is_prefix s (b'0' ∷ b'X' ∷ []) v (omega arith),
          all_loop_lem is_hex_char (drop 2 s.bytes) 2 s.used
              (omega (arith, length-drop 2 s.bytes, v.fits, v.backed)),
          drop-take 2 s.used s.bytes,
        )
        (ok_and _ _)
]
  where
    ok_and : (b x : Bool) → (if b then ok x else ok false) ≡ ok (b && x)
    ok_and true x = refl
    ok_and false x = refl
