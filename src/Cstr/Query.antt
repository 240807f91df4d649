-- ===== src/Cstr/Query.antt =====
-- The functions of c_utils/cstr.c that look at a string and do not change it. A loop goes over the
-- bytes from its index on: the list is `data + i`.
pub mod Compared
pub mod Counted
pub mod CompareStr
mod Tests
use tiny_utils.Base.{
  ℕ, zero, suc, ◌+◌, ◌-◌, ◌*◌, ◌%◌, ◌^◌, ◌≤◌, ◌<◌, ◌≡◌, ◌≢◌, ◌↔◌, ◌⊎◌, inl, inr, min, refl, sym, ap,
  ◌∙◌, subst, Bool, true, false, not, Option, none, some, List, [], ◌∷◌, ◌++◌, map, length, take,
  drop, set, replicate, get_or, get_elem?, Outcome, ok, fault, Fault, ◌>>=◌, from_option, load,
  store, ltb, leb, ◌==◌, ◌||◌, ◌&&◌, if◌then◌else◌, arith, length-append, length-take, length-drop,
  length-set, length-replicate, take-append-drop, take-append, drop-append, take-append_le,
  take-append_ge, take-take, take-set_le, load_lem, store_lem, Bool-cases, Option-cases, ltb→lt,
  lt→ltb, leb→le, ==_iff,
}
use tiny_utils.Base.Int.{ℤ, pos, negsuc, ◌-ℤ◌}
use tiny_utils.Cstr.Capacity.{u32}
use tiny_utils.Cstr.Memory.{Cstr, assert_valid}
use tiny_utils.Cstr.Search.Spec.{not_found}

-- A byte as a signed `char`.
abbrev pub as_char : ℕ → ℤ
as_char b = if ltb b 128 then pos b else negsuc (255 - b)

-- The result of `cstr_compare` when one of the strings ends at `i`.
abbrev pub compared_to_end : ℕ → ℕ → ℕ → ℤ
compared_to_end i used1 used2 =
    if i == used1 && i == used2 then pos 0 else if i == used1 then negsuc 0 else pos 1

-- The loop and the result of `cstr_compare`, from `i` on.
unfoldable pub compare_loop : List ℕ → List ℕ → ℕ → ℕ → ℕ → Outcome ℤ
compare_loop [] ys i used1 used2 =
    if ltb i used1 && ltb i used2
    then fault Fault.out_of_bounds
    else ok (compared_to_end i used1 used2)
compare_loop (x ∷ xs) [] i used1 used2 =
    if ltb i used1 && ltb i used2
    then fault Fault.out_of_bounds
    else ok (compared_to_end i used1 used2)
compare_loop (x ∷ xs) (y ∷ ys) i used1 used2 =
    let rest = compare_loop xs ys (i + 1) used1 used2 in
    if ltb i used1 && ltb i used2
    then (if x == y then rest else ok (as_char x -ℤ as_char y))
    else ok (compared_to_end i used1 used2)

unfoldable pub cstr_compare : Option Cstr → Option Cstr → Outcome ℤ
cstr_compare p q = do
  cstr1 ← assert_valid p
  cstr2 ← assert_valid q
  compare_loop cstr1.bytes cstr2.bytes 0 cstr1.used cstr2.used

-- The loop of `cstr_is_start_with`; the second list is `str + i`.
unfoldable pub starts_loop : List ℕ → List ℕ → Outcome Bool
starts_loop bytes [] = ok true
starts_loop [] (c ∷ str) = fault Fault.out_of_bounds
starts_loop (b ∷ bytes) (c ∷ str) =
    let rest = starts_loop bytes str in if b == c then rest else ok false

unfoldable pub cstr_is_start_with : Option Cstr → Option (List ℕ) → Outcome Bool
cstr_is_start_with p q = do
  cstr ← assert_valid p
  str ← from_option q Fault.assertion
  let len = u32 (length str)
  let compared = starts_loop cstr.bytes (take len str)
  if ltb cstr.used len then ok false else if len == 0 then ok true else compared

unfoldable pub count_loop : List ℕ → ℕ → ℕ → ℕ → ℕ → Outcome ℕ
count_loop [] c i end used = if ltb i end && ltb i used then fault Fault.out_of_bounds else ok 0
count_loop (b ∷ rest) c i end used =
    let more = (do n ← count_loop rest c (i + 1) end used; ok (if b == c then n + 1 else n)) in
    if ltb i end && ltb i used then more else ok 0

unfoldable pub cstr_count_char : Option Cstr → ℕ → ℕ → ℕ → Outcome ℕ
cstr_count_char p c begin end = do
  cstr ← assert_valid p
  count_loop (drop begin cstr.bytes) c begin (if end == 0 then cstr.used else end) cstr.used

unfoldable pub find_loop : List ℕ → ℕ → ℕ → ℕ → ℕ → Outcome ℤ
find_loop [] c i end used =
    if ltb i used && ltb i end then fault Fault.out_of_bounds else ok not_found
find_loop (b ∷ rest) c i end used =
    let more = find_loop rest c (i + 1) end used in
    if ltb i used && ltb i end then (if b == c then ok (pos i) else more) else ok not_found

-- For `begin` and `end` that are not negative.
unfoldable pub cstr_find_char : Option Cstr → ℕ → ℕ → ℕ → Outcome ℤ
cstr_find_char p c begin end = do
  cstr ← assert_valid p
  find_loop (drop begin cstr.bytes) c begin (if end == 0 then cstr.used else end) cstr.used

-- The loops of `cstr_is_hex` and `cstr_is_alphabet`, for their tests of a byte.
unfoldable pub all_loop : (ℕ → Bool) → List ℕ → ℕ → ℕ → Outcome Bool
all_loop test [] i used = if ltb i used then fault Fault.out_of_bounds else ok true
all_loop test (b ∷ rest) i used =
    let more = all_loop test rest (i + 1) used in
    if ltb i used then (if test b then more else ok false) else ok true

abbrev pub within : ℕ → ℕ → ℕ → Bool
within low b high = leb low b && leb b high

abbrev pub is_hex_char : ℕ → Bool
is_hex_char b = within b'0' b b'9' || within b'a' b b'f' || within b'A' b b'F'

abbrev pub is_letter : ℕ → Bool
is_letter b = within b'a' b b'z' || within b'A' b b'Z'

-- A null pointer is not valid, and the result is false.
unfoldable pub cstr_is_hex : Option Cstr → Outcome Bool
cstr_is_hex none = ok false
cstr_is_hex (some cstr) =
    let checked = (do
      lower ← cstr_is_start_with (some cstr) (some (b'0' ∷ b'x' ∷ []))
      upper ← cstr_is_start_with (some cstr) (some (b'0' ∷ b'X' ∷ []))
      let digits = all_loop is_hex_char (drop 2 cstr.bytes) 2 cstr.used
      if lower || upper then digits else ok false) in
    if cstr.used == 0 then ok false else checked

unfoldable pub cstr_is_alphabet : Option Cstr → Outcome Bool
cstr_is_alphabet none = ok false
cstr_is_alphabet (some cstr) =
    let checked = all_loop is_letter cstr.bytes 0 cstr.used in
    if cstr.used == 0 then ok false else checked

-- The loop of `cstr_is_digit`: whether it ends, and with which `dot_num` and `d_num`.
unfoldable pub digit_loop : List ℕ → ℕ → ℕ → ℕ → ℕ → Outcome (Option (ℕ × ℕ))
digit_loop [] i used dot_num d_num =
    if ltb i used then fault Fault.out_of_bounds else ok (some (dot_num, d_num))
digit_loop (b ∷ rest) i used dot_num d_num =
    let dot = digit_loop rest (i + 1) used (dot_num + 1) d_num in
    let digit = digit_loop rest (i + 1) used dot_num (d_num + 1) in
    if ltb i used
    then (if (ltb b b'0' || ltb b'9' b) && not (b == b'.')
        then ok none
        else if b == b'.'
        then dot
        else digit)
    else ok (some (dot_num, d_num))

unfoldable pub cstr_is_digit : Option Cstr → Outcome Bool
cstr_is_digit none = ok false
cstr_is_digit (some cstr) =
    let checked = (do
      r ← digit_loop cstr.bytes 0 cstr.used 0 0
      elim r [
        | none ↦ ok false
        | some (dot_num, d_num) ↦ ok (not (ltb 1 dot_num) && not (dot_num == 1 && d_num == 0))
      ]) in
    if cstr.used == 0 then ok false else checked

unfoldable pub cstr_length : Option Cstr → Outcome ℕ
cstr_length p = do cstr ← assert_valid p; ok cstr.used

unfoldable pub cstr_unused_size : Option Cstr → Outcome ℕ
cstr_unused_size p = do cstr ← assert_valid p; ok (u32 (cstr.cap + 2 ^ 32 - cstr.used))

unfoldable pub cstr_empty : Option Cstr → Outcome Bool
cstr_empty p = do cstr ← assert_valid p; ok (cstr.used == 0)

-- `used-1` wraps for an empty string.
unfoldable pub at : Option Cstr → ℕ → Outcome ℤ
at p i = do
  cstr ← assert_valid p
  let byte = (do b ← load cstr.bytes i; ok (as_char b))
  if ltb (u32 (cstr.used + 2 ^ 32 - 1)) i then ok not_found else byte
