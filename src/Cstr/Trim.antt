-- ===== src/Cstr/Trim.antt =====
-- `cstr_trim`, `cstr_trim_hdr` and `cstr_trim_tail` of c_utils/cstr.c. They return the pointer that
-- they are given, which is the string after the call.
pub mod Blanks
pub mod Trimmed
mod Tests
use tiny_utils.Base.{
  ℕ, zero, suc, ◌+◌, ◌-◌, Bool, Option, List, [], ◌∷◌, Outcome, ok, fault, Fault, ◌>>=◌, load, ltb,
  leb, ◌==◌, ◌||◌, if◌then◌else◌,
}
use tiny_utils.Cstr.Memory.{Cstr, assert_valid}
use tiny_utils.Cstr.Block.{read_block, write_block, write_zeros}

abbrev pub is_blank : ℕ → Bool
is_blank b = b == 9 || b == 32

-- `for(; beg < cstr->used; ++beg)`: the final `beg`; the list is `data + beg`.
unfoldable pub skip_blanks : List ℕ → ℕ → ℕ → Outcome ℕ
skip_blanks [] beg used = if ltb beg used then fault Fault.out_of_bounds else ok beg
skip_blanks (b ∷ rest) beg used =
    let more = skip_blanks rest (beg + 1) used in
    if ltb beg used then (if is_blank b then more else ok beg) else ok beg

-- `for(;end > beg; --end)`: the final `end`.
unfoldable pub skip_back : List ℕ → ℕ → ℕ → Outcome ℕ
skip_back bytes beg zero = ok zero
skip_back bytes beg (suc end) =
    let more = skip_back bytes beg end in
    let round = (do b ← load bytes end; if is_blank b then more else ok (suc end)) in
    if ltb beg (suc end) then round else ok (suc end)

-- `used = 0; memset(data,0,used)`
unfoldable pub empty_out : Cstr → Outcome Cstr
empty_out c = do b ← write_zeros c.bytes 0 0; ok (record { cap = c.cap; used = 0; bytes = b })

-- Cuts the string at `end`, and sets what was used behind it to zero.
unfoldable pub cut_end : Cstr → ℕ → Outcome Cstr
cut_end c end = do
  b ← write_zeros c.bytes end (c.used - end)
  ok (record { cap = c.cap; used = end; bytes = b })

-- Moves the bytes from `beg` to `end` to the front, and sets the rest of what was used to zero.
unfoldable pub move_front : Cstr → ℕ → ℕ → Outcome Cstr
move_front c beg end = do
  part ← read_block c.bytes beg (end - beg)
  b₁ ← write_block c.bytes 0 part
  b₂ ← write_zeros b₁ (end - beg) (c.used - (end - beg))
  ok (record { cap = c.cap; used = end - beg; bytes = b₂ })

unfoldable pub cstr_trim : Option Cstr → Outcome Cstr
cstr_trim p = do
  cstr ← assert_valid p
  let trimmed = (do
    beg ← skip_blanks cstr.bytes 0 cstr.used
    let rest = (do
      end ← skip_back cstr.bytes beg cstr.used
      let shorter = if beg == 0 then cut_end cstr end else move_front cstr beg end
      if beg == 0 then (if end == cstr.used then ok cstr else shorter) else shorter)
    if beg == cstr.used then empty_out cstr else rest)
  if cstr.used == 0 then ok cstr else trimmed

unfoldable pub cstr_trim_hdr : Option Cstr → Outcome Cstr
cstr_trim_hdr p = do
  cstr ← assert_valid p
  let trimmed = (do
    beg ← skip_blanks cstr.bytes 0 cstr.used
    if beg == cstr.used then empty_out cstr else move_front cstr beg cstr.used)
  if cstr.used == 0 then ok cstr else trimmed

-- `end` here is one more than the `end` of the source, which runs down to -1.
unfoldable pub cstr_trim_tail : Option Cstr → Outcome Cstr
cstr_trim_tail p = do
  cstr ← assert_valid p
  let trimmed = (do
    end ← skip_back cstr.bytes 0 cstr.used
    if end == 1 then empty_out cstr else cut_end cstr end)
  if cstr.used == 0 then ok cstr else trimmed
