-- ===== src/Cstr/Search/Sunday.antt =====
-- `sunday_search_first` of c_utils/cstr.c, and `cstr_find_first`, which calls it.
-- `int` variables that count positions are numbers: the strings are below 2^29 bytes long.
pub mod Shift
pub mod First
use tiny_utils.Base.{
  ℕ, zero, suc, ◌+◌, ◌-◌, ◌%◌, ◌^◌, Option, none, some, List, [], ◌∷◌, length, replicate, Outcome,
  ok, fault, Fault, ◌>>=◌, load, store, ltb, leb, ◌==◌, if◌then◌else◌, ◌||◌, from_option,
}
use tiny_utils.Base.Int.{ℤ, pos}
use tiny_utils.Cstr.Capacity.{u32}
use tiny_utils.Cstr.Memory.{Cstr, assert_valid}
use tiny_utils.Cstr.Search.Spec.{not_found, char_index}

abbrev pub search_max_len : ℕ
search_max_len = 256

-- `for(int i = 0; i < pat_len; ++i) shift[str[i]] = pat_len-i;`, from `i` on; the list is `str + i`.
unfoldable pub fill_shift : ℕ → ℕ → List ℕ → List ℕ → Outcome (List ℕ)
fill_shift pat_len i [] shift = ok shift
fill_shift pat_len i (c ∷ rest) shift = do
  k ← char_index c
  shift' ← store shift k (pat_len - i)
  fill_shift pat_len (i + 1) rest shift'

-- `while(pi < pat_len && str[pi] == cstr->data[ti+pi]) ++pi;`: the final `pi`; the list is
-- `str + pi`.
unfoldable pub advance : List ℕ → List ℕ → ℕ → ℕ → Outcome ℕ
advance [] bytes ti pi = ok pi
advance (c ∷ rest) bytes ti pi = do
  d ← load bytes (ti + pi)
  let next = advance rest bytes ti (pi + 1)
  if c == d then next else ok pi

-- `while(ti <= cstr->used - pat_len)`, on fuel.
unfoldable pub scan : ℕ → List ℕ → ℕ → List ℕ → List ℕ → ℕ → Outcome ℤ
scan zero str used bytes shift ti = fault Fault.no_fuel
scan (suc fuel) str used bytes shift ti =
    let pat_len = length str in
    let next = (do
      c ← load bytes (ti + pat_len)
      k ← char_index c
      s ← load shift k
      scan fuel str used bytes shift (ti + s)) in
    let round = (do pi ← advance str bytes ti 0; if pi == pat_len then ok (pos ti) else next) in
    if leb ti (u32 (used + 2 ^ 32 - pat_len)) then round else ok not_found

unfoldable pub sunday_search_first : Option Cstr → Option (List ℕ) → ℕ → Outcome ℤ
sunday_search_first p q begin = do
  cstr ← assert_valid p
  str ← from_option q Fault.assertion
  let pat_len = length str
  let search = (do
    shift ← fill_shift pat_len 0 str (replicate search_max_len (pat_len + 1))
    scan (cstr.used + 1) str cstr.used cstr.bytes shift begin)
  let too_far = ltb cstr.used begin || ltb cstr.used (u32 (begin + pat_len))
  if too_far || pat_len == 0 || leb search_max_len pat_len then ok not_found else search

-- `begin` is an `int` that becomes a `uint32_t`.
unfoldable pub cstr_find_first : Option Cstr → Option (List ℕ) → ℕ → Outcome ℤ
cstr_find_first p q begin = sunday_search_first p q begin
