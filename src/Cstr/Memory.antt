-- ===== src/Cstr/Memory.antt =====
-- `struct _cstr_` of c_utils/cstr.h and its macros.
-- `bytes` is the member `data`: it holds the bytes of the allocated block behind the two header fields, so its length is
-- the size of the block less 8. Bytes are numbers below 256.
use tiny_utils.Base.{
  ℕ, ◌+◌, ◌≤◌, Bool, true, false, Option, none, some, List, length, take, Outcome, ok, ◌>>=◌,
  from_option, store, Fault,
}
use tiny_utils.Cstr.Capacity.{max_size, overhead}

pub record Cstr : Type 0 where
  pub cap : ℕ
  pub used : ℕ
  pub bytes : List ℕ

-- CSTR_TOTAL_SIZE and CSTR_TOTAL_USED
abbrev pub total_size : Cstr → ℕ
total_size c = c.cap + overhead

abbrev pub total_used : Cstr → ℕ
total_used c = c.used + overhead

-- CSTR_SET_END
abbrev pub set_end : Cstr → Outcome Cstr
set_end c = do bytes ← store c.bytes c.used 0; ok (record c { bytes = bytes })

abbrev pub cstr_is_valid : Option Cstr → Bool
cstr_is_valid none = false
cstr_is_valid (some c) = true

-- `assert(cstr_is_valid(cstr))`, and the object that the pointer leads to.
abbrev pub assert_valid : Option Cstr → Outcome Cstr
assert_valid p = from_option p Fault.assertion

-- What the functions keep: the used bytes and the final one fit in the capacity, which fits in the
-- block, and the whole fits in the maximum.
pub record IsValid (c : Cstr) : Type 0 where
  pub fits : c.used ≤ c.cap
  pub backed : c.cap + 1 ≤ length c.bytes
  pub small : c.cap + overhead ≤ max_size

-- The string that a value stands for.
abbrev pub text : Cstr → List ℕ
text c = take c.used c.bytes
