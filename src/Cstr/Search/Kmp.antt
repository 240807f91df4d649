-- ===== src/Cstr/Search/Kmp.antt =====
-- `kmp_next_table` and `kmp_search_first` of c_utils/cstr.c. `int` variables that count positions are
-- numbers; what they print is left out.
pub mod Border
pub mod Table
pub mod First
use tiny_utils.Base.{
  ℕ, zero, suc, ◌+◌, ◌-◌, ◌*◌, Option, none, some, List, ◌++◌, length, drop, replicate, Outcome, ok,
  fault, Fault, ◌>>=◌, load, store, ltb, leb, ◌==◌, if◌then◌else◌, ◌||◌, ◌&&◌,
}
use tiny_utils.Base.Int.{ℤ, pos}
use tiny_utils.Cstr.Capacity.{u32}
use tiny_utils.Cstr.Memory.{Cstr, assert_valid}
use tiny_utils.Cstr.Search.Spec.{not_found}
use tiny_utils.Cstr.Search.Sunday.{search_max_len}

-- `while(i < pat_len)` of `kmp_next_table`, on fuel.
unfoldable pub table_loop : ℕ → List ℕ → ℕ → ℕ → List ℕ → Outcome (List ℕ)
table_loop zero pattern i k next_table = fault Fault.no_fuel
table_loop (suc fuel) pattern i k next_table =
    let longer = (do t ← store next_table i (k + 1); table_loop fuel pattern (i + 1) (k + 1) t) in
    let empty = (do t ← store next_table i 0; table_loop fuel pattern (i + 1) k t) in
    let shorter = (do k' ← load next_table (k - 1); table_loop fuel pattern i k' next_table) in
    let round = (do
      a ← load pattern i
      b ← load pattern k
      if a == b then longer else if k == 0 then empty else shorter) in
    if ltb i (length pattern) then round else ok next_table

unfoldable pub kmp_next_table : List ℕ → List ℕ → Outcome (List ℕ)
kmp_next_table pattern next_table = do
  t ← store next_table 0 0
  table_loop (2 * length pattern) pattern 1 0 t

-- `while(i < cstr->used && j < pat_len)`, on fuel.
unfoldable pub kmp_loop : ℕ → List ℕ → ℕ → List ℕ → List ℕ → ℕ → ℕ → Outcome ℤ
kmp_loop zero pattern used bytes next_table i j = fault Fault.no_fuel
kmp_loop (suc fuel) pattern used bytes next_table i j =
    let pat_len = length pattern in
    let both = kmp_loop fuel pattern used bytes next_table (i + 1) (j + 1) in
    let text = kmp_loop fuel pattern used bytes next_table (i + 1) j in
    let shorter = (do
      j' ← load next_table (j - 1)
      kmp_loop fuel pattern used bytes next_table i j') in
    let round = (do
      a ← load bytes i
      b ← load pattern j
      if a == b
          then (if j == pat_len - 1 then ok (pos (i - (pat_len - 1))) else both)
          else if j == 0
          then text
          else shorter) in
    if ltb i used && ltb j pat_len then round else ok not_found

-- `stack` is what the array holds before: `memset` clears 256 of its bytes, which are 64 entries.
unfoldable pub kmp_search_first : List ℕ → Option Cstr → Option (List ℕ) → ℕ → Outcome ℤ
kmp_search_first stack p none begin = do cstr ← assert_valid p; ok not_found
kmp_search_first stack p (some pattern) begin = do
  cstr ← assert_valid p
  let pat_len = u32 (length pattern)
  let search = (do
    next_table ← kmp_next_table pattern (replicate 64 0 ++ drop 64 stack)
    kmp_loop (2 * cstr.used + 1) pattern cstr.used cstr.bytes next_table begin 0)
  if ltb cstr.used begin
      then ok not_found
      else if ltb cstr.used (u32 (begin + pat_len)) || pat_len == 0
      then ok not_found
      else if leb search_max_len pat_len
      then ok not_found
      else search
