-- ===== src/Cstr/Create.antt =====
-- The constructors of c_utils/cstr.c. A result of `none` is NULL. The functions take the allocator
-- that they call.
use tiny_utils.Base.{
  ℕ, ◌+◌, ◌-◌, Option, none, some, List, length, Outcome, ok, Fault, ◌>>=◌, from_option, store, ltb,
  ◌==◌, ◌||◌, if◌then◌else◌,
}
use tiny_utils.Cstr.Capacity.{u32, min_size, max_size, overhead, round_up_power_2}
use tiny_utils.Cstr.Memory.{Cstr, set_end}
use tiny_utils.Cstr.Block.{Allocator, read_block, write_block, write_zeros}

-- `if(NULL == p) return NULL;`
abbrev pub unless_null {ℓ κ} :
    {A : Type ℓ} {B : Type κ} → Option A → (A → Outcome (Option B)) → Outcome (Option B)
unless_null none f = ok none
unless_null (some a) f = f a

module _ (a : Allocator) where
  -- The capacity that `cstr_new_size` allocates, or 0 if it is too large.
  unfoldable pub new_size : ℕ → ℕ
  new_size cap =
      let cap' = round_up_power_2 (u32 (cap + overhead)) in
      if cap' == 0 || ltb max_size cap' then 0 else if ltb cap' min_size then min_size else cap'

  unfoldable pub cstr_new_size : ℕ → Outcome (Option Cstr)
  cstr_new_size cap =
      let cap' = new_size cap in
      let allocated = unless_null (a.malloc cap') (λ bytes. do
        c ← set_end (record { cap = cap' - overhead; used = 0; bytes = bytes })
        ok (some c)) in
      if cap' == 0 then ok none else allocated

  -- The result of `cstr_new_size` is used without a test for NULL.
  unfoldable pub cstr_new_str : Option (List ℕ) → Outcome (Option Cstr)
  cstr_new_str none = unless_null (a.malloc min_size) (λ bytes. do
    bytes' ← store bytes 0 0
    c ← set_end (record { cap = min_size - overhead; used = 0; bytes = bytes' })
    ok (some c))
  cstr_new_str (some str) = do
    let size = u32 (length str)
    p ← cstr_new_size size
    c ← from_option p Fault.null_pointer
    src ← read_block str 0 size
    bytes ← write_block c.bytes 0 src
    c' ← set_end (record c { used = size; bytes = bytes })
    ok (some c')

  unfoldable pub cstr_new : Option Cstr → Outcome (Option Cstr)
  cstr_new none = unless_null (a.malloc min_size) (λ bytes. do
    bytes' ← write_zeros bytes 0 (min_size - overhead + 1)
    ok (some (record { cap = min_size - overhead; used = 0; bytes = bytes' })))
  cstr_new (some cstr) = unless_null (a.malloc (u32 (cstr.cap + overhead))) (λ bytes. do
    src ← read_block cstr.bytes 0 (cstr.cap + 1)
    bytes' ← write_block bytes 0 src
    c ← set_end (record { cap = cstr.cap; used = cstr.used; bytes = bytes' })
    ok (some c))
