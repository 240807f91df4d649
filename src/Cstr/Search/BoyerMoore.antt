-- ===== src/Cstr/Search/BoyerMoore.antt =====
-- `bm_bad_char_shift_table`, `bm_suffix`, `bm_good_suffix_shift_table` and `boyer_moore_search_first` of
-- c_utils/cstr.c. An index that runs down to -1 is kept as one more; the other `int` variables that count
-- positions are numbers. What `cstr_show` prints is left out.
pub mod Suffix
pub mod Prefix
pub mod GoodSuffix
pub mod BadChar
pub mod Back
pub mod First
use tiny_utils.Base.{
  ℕ, zero, suc, ◌+◌, ◌-◌, ◌^◌, Option, List, [], ◌∷◌, length, replicate, Outcome, ok, fault, Fault,
  ◌>>=◌, load, store, from_option, ltb, leb, ◌==◌, if◌then◌else◌, ◌||◌,
}
use tiny_utils.Base.Int.{ℤ, pos, negsuc, pos_part, ◌-ℤ◌, ltb_ℤ}
use tiny_utils.Cstr.Capacity.{u32}
use tiny_utils.Cstr.Memory.{Cstr, assert_valid}
use tiny_utils.Cstr.Search.Spec.{not_found, char_index}
use tiny_utils.Cstr.Search.Sunday.{search_max_len}

-- `shift_table[pattern[i]] = i`, from `i` on; the list is `pattern + i`.
unfoldable pub bad_char_loop : ℕ → List ℕ → List ℤ → Outcome (List ℤ)
bad_char_loop i [] shift_table = ok shift_table
bad_char_loop i (c ∷ rest) shift_table = do
  k ← char_index c
  t ← store shift_table k (pos i)
  bad_char_loop (i + 1) rest t

unfoldable pub bm_bad_char_shift_table : List ℕ → Outcome (List ℤ)
bm_bad_char_shift_table pattern = bad_char_loop 0 pattern (replicate search_max_len (negsuc 0))

-- `while(j >= 0 && pattern[pat_len-1-i+j] == pattern[j])`, with `pat_len-1-i` as `ahead`: the final
-- `j + 1`, from this one on.
unfoldable pub suffix_back : List ℕ → ℕ → ℕ → Outcome ℕ
suffix_back pattern ahead zero = ok zero
suffix_back pattern ahead (suc j) = do
  a ← load pattern (ahead + j)
  b ← load pattern j
  let more = suffix_back pattern ahead j
  if a == b then more else ok (suc j)

-- `for(i = pat_len-2; i >= 0; --i)`, from `i + 1` on.
unfoldable pub suffix_loop : List ℕ → ℕ → List ℕ → Outcome (List ℕ)
suffix_loop pattern zero suffix = ok suffix
suffix_loop pattern (suc i) suffix = do
  j ← suffix_back pattern (length pattern - 1 - i) (suc i)
  s ← store suffix i (suc i - j)
  suffix_loop pattern i s

unfoldable pub bm_suffix : List ℕ → List ℕ → Outcome (List ℕ)
bm_suffix pattern suffix = do
  s ← store suffix (length pattern - 1) (length pattern)
  suffix_loop pattern (length pattern - 1) s

-- `for(; j < pat_len-1-i; ++j)`, with `pat_len-1-i` as `value`, for the given number of rounds.
unfoldable pub prefix_fill : ℕ → ℕ → ℕ → ℕ → List ℕ → Outcome (List ℕ)
prefix_fill pat_len value zero j shift_table = ok shift_table
prefix_fill pat_len value (suc n) j shift_table = do
  old ← load shift_table j
  t ← store shift_table j (if old == pat_len then value else old)
  prefix_fill pat_len value n (j + 1) t

-- `for(i = pat_len-1; i >= 0; --i)`, from `i + 1` on.
unfoldable pub prefix_loop : ℕ → List ℕ → ℕ → ℕ → List ℕ → Outcome (List ℕ)
prefix_loop pat_len suffix zero j shift_table = ok shift_table
prefix_loop pat_len suffix (suc i) j shift_table = do
  s ← load suffix i
  let value = pat_len - 1 - i
  let filled = (do
    t ← prefix_fill pat_len value (value - j) j shift_table
    prefix_loop pat_len suffix i (if ltb j value then value else j) t)
  let skipped = prefix_loop pat_len suffix i j shift_table
  if s == suc i then filled else skipped

-- `for(i = 0; i <= pat_len-2; ++i)`, from `i` on, for the given number of rounds.
unfoldable pub inner_loop : ℕ → List ℕ → ℕ → ℕ → List ℕ → Outcome (List ℕ)
inner_loop pat_len suffix zero i shift_table = ok shift_table
inner_loop pat_len suffix (suc n) i shift_table = do
  s ← load suffix i
  t ← store shift_table (pat_len - 1 - s) (pat_len - 1 - i)
  inner_loop pat_len suffix n (i + 1) t

-- `stack` is what the array `suffix` holds before.
unfoldable pub bm_good_suffix_shift_table : List ℕ → List ℕ → Outcome (List ℕ)
bm_good_suffix_shift_table stack pattern = do
  let pat_len = length pattern
  suffix ← bm_suffix pattern stack
  t ← prefix_loop pat_len suffix pat_len 0 (replicate pat_len pat_len)
  inner_loop pat_len suffix (pat_len - 1) 0 t

-- `while(pi >= 0 && cstr->data[ti+pi] == str[pi])`: the final `pi + 1`, from this one on.
unfoldable pub match_back : List ℕ → List ℕ → ℕ → ℕ → Outcome ℕ
match_back str bytes ti zero = ok zero
match_back str bytes ti (suc pi) = do
  a ← load bytes (ti + pi)
  b ← load str pi
  let more = match_back str bytes ti pi
  if a == b then more else ok (suc pi)

-- `MAX(pi-bm_bc[...],bm_gs[pi])`
abbrev pub larger : ℤ → ℕ → ℕ
larger a b = if ltb_ℤ (pos b) a then pos_part a else b

-- `while(ti <= cstr->used - pat_len)`, on fuel.
unfoldable pub bm_scan : ℕ → List ℕ → ℕ → List ℕ → List ℤ → List ℕ → ℕ → Outcome ℤ
bm_scan zero str used bytes bm_bc bm_gs ti = fault Fault.no_fuel
bm_scan (suc fuel) str used bytes bm_bc bm_gs ti =
    let pat_len = length str in
    let next = λ (pi : ℕ). (do
      c ← load bytes (pi + ti)
      k ← char_index c
      last ← load bm_bc k
      good ← load bm_gs pi
      bm_scan fuel str used bytes bm_bc bm_gs (ti + larger (pos pi -ℤ last) good)) in
    let round = (do
      left ← match_back str bytes ti pat_len
      elim left [ zero ↦ ok (pos ti) | suc pi ↦ next pi ]) in
    if leb ti (u32 (used + 2 ^ 32 - pat_len)) then round else ok not_found

unfoldable pub boyer_moore_search_first : List ℕ → Option Cstr → Option (List ℕ) → ℕ → Outcome ℤ
boyer_moore_search_first stack p q begin = do
  cstr ← assert_valid p
  str ← from_option q Fault.assertion
  let pat_len = length str
  let search = (do
    bm_bc ← bm_bad_char_shift_table str
    bm_gs ← bm_good_suffix_shift_table stack str
    bm_scan (cstr.used + 1) str cstr.used cstr.bytes bm_bc bm_gs begin)
  let too_far = ltb cstr.used begin || ltb cstr.used (u32 (begin + pat_len))
  if too_far || pat_len == 0 || leb search_max_len pat_len then ok not_found else search
