-- ===== src/Cstr/Shared.antt =====
-- `cstr_append`, `cstr_free` and `cstr_data` of c_utils/cstr.c on strings that live in a store, where both
-- parameters of `cstr_append` may be one string and `realloc` may move it.
pub mod Appended
mod Tests
use tiny_utils.Base.{
  ℕ, ◌+◌, ◌-◌, ◌^◌, Option, none, some, List, Outcome, ok, fault, ◌>>=◌, from_option, Fault, ltb,
  ◌==◌, ◌||◌, if◌then◌else◌,
}
use tiny_utils.Cstr.Capacity.{u32, min_size, max_size, overhead, cal_fit_cap}
use tiny_utils.Cstr.Memory.{Cstr, total_size, total_used}
use tiny_utils.Cstr.Block.{Allocator, read_block, write_block, write_zeros}

-- The strings by their addresses.
abbrev pub Store : Type 0
Store = ℕ → Option Cstr

-- `*p`: a string that was freed, or moved away, is not in use.
abbrev pub deref : Store → ℕ → Outcome Cstr
deref m p = from_option (m p) Fault.out_of_bounds

abbrev pub put : Store → ℕ → Cstr → Store
put m p c x = if p == x then some c else m x

-- `realloc` has freed `p`, and the block stands at `new`, which may be `p` again.
abbrev pub moved : Store → ℕ → ℕ → Cstr → Store
moved m p new c x = if new == x then some c else if p == x then none else m x

-- `free` of a pointer that may be null.
unfoldable pub cstr_free : Option ℕ → Store → Outcome Store
cstr_free none m = ok m
cstr_free (some p) m = do d ← deref m p; ok (λ x. if p == x then none else m x)

-- The bytes that the returned pointer leads to.
unfoldable pub cstr_data : Option ℕ → Store → Outcome (List ℕ)
cstr_data none m = fault Fault.assertion
cstr_data (some p) m = do d ← deref m p; ok d.bytes

-- `memcpy` to the final `memset`, on the destination with its new block.
unfoldable pub copied : Cstr → Cstr → ℕ → Outcome (Option Cstr)
copied dst str new_cap = do
  part ← read_block str.bytes 0 str.used
  b₁ ← write_block dst.bytes dst.used part
  let cap = new_cap - overhead
  let used = u32 (dst.used + str.used)
  b₂ ← write_zeros b₁ used (u32 (cap + 2 ^ 32 - used))
  ok (some (record { cap = cap; used = used; bytes = b₂ }))

-- From `memcpy` on: both pointers are followed again.
unfoldable pub copy_at : ℕ → ℕ → ℕ → Store → Outcome (Option ℕ × Store)
copy_at p str new_cap m = do
  d ← deref m p
  s ← deref m str
  r ← copied d s new_cap
  elim r [ none ↦ ok (none, m) | some c ↦ ok (some p, put m p c) ]

module _ (a : Allocator) where
  -- `new` is where `realloc` puts a block that it enlarges.
  unfoldable pub grow_at : ℕ → ℕ → ℕ → Cstr → ℕ → Store → Outcome (Option ℕ × Store)
  grow_at dst str new d new_cap m = elim (a.realloc d.bytes new_cap) [
    | none ↦ ok (none, m)
    | some b ↦ copy_at new str new_cap (moved m dst new (record d { bytes = b }))
  ]

  unfoldable pub append_at : ℕ → ℕ → ℕ → Store → Outcome (Option ℕ × Store)
  append_at dst str new m = do
    d ← deref m dst
    s ← deref m str
    let total_cap = u32 (total_size d + s.used)
    let new_cap = cal_fit_cap (u32 (total_size d)) (u32 (total_used d + s.used))
    let grown = grow_at dst str new d new_cap m
    let kept = copy_at dst str new_cap m
    let appended = if ltb d.cap (new_cap - overhead) then grown else kept
    let checked = if ltb max_size total_cap || ltb new_cap min_size then ok (none, m) else appended
    if s.used == 0 then ok (some dst, m) else checked
