-- ===== src/Cstr/Search/CountStr.antt =====
-- `cstr_count_str` of c_utils/cstr.c.
pub mod Greedy
use tiny_utils.Base.{
  ℕ, zero, suc, ◌+◌, ◌-◌, ◌^◌, Option, some, List, length, Outcome, ok, fault, Fault, ◌>>=◌,
  from_option, ltb, ◌==◌, ◌||◌, if◌then◌else◌,
}
use tiny_utils.Base.Int.{ℤ, pos, negsuc}
use tiny_utils.Cstr.Capacity.{u32}
use tiny_utils.Cstr.Memory.{Cstr, assert_valid}
use tiny_utils.Cstr.Search.Sunday.{cstr_find_first}

-- A result of the search as a `uint32_t`.
abbrev pub as_u32 : ℤ → ℕ
as_u32 (pos n) = u32 n
as_u32 (negsuc n) = 2 ^ 32 - 1 - n

-- The loop, on fuel.
unfoldable pub count_str_loop : ℕ → Cstr → List ℕ → ℕ → ℕ → ℕ → Outcome ℕ
count_str_loop zero cstr str len begin count = fault Fault.no_fuel
count_str_loop (suc fuel) cstr str len begin count =
    let round = (do
      r ← cstr_find_first (some cstr) (some str) begin
      let found = as_u32 r
      let more = count_str_loop fuel cstr str len (u32 (found + len + 1)) (count + 1)
      if found == as_u32 (negsuc 0) then ok count else more) in
    if ltb begin cstr.used then round else ok count

unfoldable pub cstr_count_str : Option Cstr → Option (List ℕ) → ℕ → Outcome ℕ
cstr_count_str p q begin = do
  cstr ← assert_valid p
  str ← from_option q Fault.assertion
  let len = u32 (length str)
  let counted = count_str_loop (cstr.used + 1) cstr str len begin 0
  if ltb (u32 (cstr.used + 2 ^ 32 - begin)) len || len == 0 then ok 0 else counted
