-- ===== src/Cstr/Assign.antt =====
-- The functions of c_utils/cstr.c that make a string hold a text: whole strings, parts, copies, and
-- appended ones. The source and the destination are different objects.
use tiny_utils.Base.{
  ℕ, ◌+◌, ◌-◌, ◌^◌, Option, none, some, List, [], length, ◌++◌, ◌∷◌, Outcome, ok, Fault, ◌>>=◌,
  from_option, ltb, ◌==◌, ◌||◌, if◌then◌else◌,
}
use tiny_utils.Cstr.Capacity.{u32, min_size, max_size, overhead, cal_fit_cap}
use tiny_utils.Cstr.Memory.{Cstr, set_end, assert_valid, total_size, total_used}
use tiny_utils.Cstr.Block.{Allocator, read_block, write_block, write_zeros}
use tiny_utils.Cstr.Create.{unless_null}

-- The length that `cstr_copy` and `cstr_copy_str` copy, of `available` bytes.
abbrev pub copy_len : ℕ → ℕ → ℕ
copy_len available len = if len == 0 || ltb available len then available else len

module _ (a : Allocator) where
  -- The part that six functions share: a new capacity for the total size that is used, and the block
  -- that has it. `used` is as before.
  unfoldable pub refit : Cstr → ℕ → Option Cstr
  refit dst total =
      let new_cap = cal_fit_cap (u32 (total_size dst)) total in
      let bytes =
        if new_cap == total_size dst then some dst.bytes else a.realloc dst.bytes new_cap in
      if ltb new_cap min_size || ltb max_size new_cap then none else elim bytes [
        | none ↦ none
        | some b ↦ some (record { cap = new_cap - overhead; used = dst.used; bytes = b })
      ]

  -- What follows in `cstr_assign` and `cstr_assign_str`.
  unfoldable pub fill_with : Cstr → List ℕ → ℕ → Outcome (Option Cstr)
  fill_with c src used = do
    part ← read_block src 0 used
    b₁ ← write_block c.bytes 0 part
    b₂ ← write_zeros b₁ used (c.cap - used)
    c' ← set_end (record c { used = used; bytes = b₂ })
    ok (some c')

  unfoldable pub cstr_assign : Option Cstr → Option Cstr → Outcome (Option Cstr)
  cstr_assign d s = do
    src ← assert_valid s
    dst ← assert_valid d
    unless_null (refit dst (u32 (total_used src))) (λ c. fill_with c src.bytes src.used)

  unfoldable pub cstr_assign_str : Option Cstr → Option (List ℕ) → Outcome (Option Cstr)
  cstr_assign_str d s = do
    dst ← assert_valid d
    elim s [
      | none ↦ ok none
      | some src ↦
          (let src_len = u32 (length src) in
            unless_null (refit dst (u32 (src_len + overhead))) (λ c. fill_with c src src_len))
    ]

  -- What follows in `cstr_sub_cstr` and `cstr_sub_str`: `len` bytes from `begin` on.
  unfoldable pub take_part : Cstr → List ℕ → ℕ → ℕ → Outcome (Option Cstr)
  take_part substr src begin len = unless_null (refit substr (u32 (len + overhead))) (λ c. do
    part ← read_block src begin len
    b ← write_block c.bytes 0 part
    c' ← set_end (record c { used = len; bytes = b })
    ok (some c'))

  unfoldable pub cstr_sub_cstr : Option Cstr → Option Cstr → ℕ → ℕ → Outcome (Option Cstr)
  cstr_sub_cstr d s begin len = do
    substr ← assert_valid d
    cstr ← assert_valid s
    let len' = if ltb cstr.used (u32 (len + begin)) then u32 (cstr.used + 2 ^ 32 - begin) else len
    if ltb (u32 (cstr.used + 2 ^ 32 - 1)) begin || len == 0 || ltb cstr.used len
        then ok none
        else take_part substr cstr.bytes begin len'

  -- What the two do with the capacity and the bytes; `used` stays where it is larger.
  unfoldable pub copy_bytes : Cstr → List ℕ → ℕ → ℕ → Outcome (Option Cstr)
  copy_bytes dst src begin len = unless_null (refit dst (u32 (len + overhead))) (λ c. do
    part ← read_block src begin len
    b ← write_block c.bytes 0 part
    ok (some (record c { used = if ltb c.used len then len else c.used; bytes = b })))

  unfoldable pub cstr_copy : Option Cstr → Option Cstr → ℕ → ℕ → Outcome (Option Cstr)
  cstr_copy d s begin len = do
    dst ← assert_valid d
    src ← assert_valid s
    p ← copy_bytes dst src.bytes begin (copy_len src.used len)
    elim p [ none ↦ ok none | some c ↦ (do c' ← set_end c; ok (some c')) ]

  -- Here no final byte is written.
  unfoldable pub cstr_copy_str : Option Cstr → Option (List ℕ) → ℕ → ℕ → Outcome (Option Cstr)
  cstr_copy_str d none begin len = do dst ← assert_valid d; ok (some dst)
  cstr_copy_str d (some src) begin len = do
    dst ← assert_valid d
    let src_len = u32 (length src)
    let copied = copy_bytes dst (src ++ (0 ∷ [])) begin (copy_len src_len len)
    if src_len == 0 then ok (some dst) else copied

  -- The text of a C string is followed by its final zero byte.
  unfoldable pub cstr_sub_str : Option Cstr → Option (List ℕ) → ℕ → ℕ → Outcome (Option Cstr)
  cstr_sub_str d s begin len = do
    substr ← assert_valid d
    str ← from_option s Fault.assertion
    let src_len = u32 (length str)
    let len' = if ltb src_len (u32 (len + begin)) then u32 (src_len + 2 ^ 32 - begin) else len
    if ltb (u32 (src_len + 2 ^ 32 - 1)) begin || len == 0 || ltb src_len len
        then ok none
        else take_part substr (str ++ (0 ∷ [])) begin len'

  -- What `cstr_append` and `cstr_append_str` do with `n` bytes, not none.
  unfoldable pub append_bytes : Cstr → List ℕ → ℕ → Outcome (Option Cstr)
  append_bytes dst src n =
      let total_cap = u32 (total_size dst + n) in
      let new_cap = cal_fit_cap (u32 (total_size dst)) (u32 (total_used dst + n)) in
      let grown =
        if ltb dst.cap (new_cap - overhead) then a.realloc dst.bytes new_cap else some dst.bytes in
      let copied = unless_null grown (λ b. do
        part ← read_block src 0 n
        b₁ ← write_block b dst.used part
        let cap = new_cap - overhead
        let used = u32 (dst.used + n)
        b₂ ← write_zeros b₁ used (u32 (cap + 2 ^ 32 - used))
        ok (some (record { cap = cap; used = used; bytes = b₂ }))) in
      if ltb max_size total_cap || ltb new_cap min_size then ok none else copied

  unfoldable pub cstr_append : Option Cstr → Option Cstr → Outcome (Option Cstr)
  cstr_append d s = do
    dst ← assert_valid d
    str ← assert_valid s
    let appended = append_bytes dst str.bytes str.used
    if str.used == 0 then ok (some dst) else appended

  -- Here a null pointer is looked for before the assertion.
  unfoldable pub cstr_append_str : Option Cstr → Option (List ℕ) → Outcome (Option Cstr)
  cstr_append_str d none = ok none
  cstr_append_str d (some str) = do
    dst ← assert_valid d
    let append_len = u32 (length str)
    let appended = append_bytes dst str append_len
    if append_len == 0 then ok (some dst) else appended
