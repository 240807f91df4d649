-- ===== src/Cstr/Edit.antt =====
-- The functions of c_utils/cstr.c that change the bytes in place, and the insertions. The source and the
-- destination of an insertion are different objects.
pub mod Inserted
pub mod Cased
pub mod Mirrored
pub mod Reversed
mod Tests
use tiny_utils.Base.{
  ℕ, zero, suc, ◌+◌, ◌-◌, ◌*◌, ◌%◌, ◌^◌, ◌≤◌, ◌<◌, ◌≡◌, ◌≢◌, ◌↔◌, ◌⊎◌, inl, inr, min, refl, sym, ap,
  ◌∙◌, subst, Bool, true, false, not, Option, none, some, List, [], ◌∷◌, ◌++◌, map, length, take,
  drop, set, replicate, get_or, get_elem?, Outcome, ok, fault, Fault, ◌>>=◌, from_option, load,
  store, ltb, leb, ◌==◌, ◌||◌, ◌&&◌, if◌then◌else◌, arith, length-append, length-take, length-drop,
  length-set, length-replicate, take-append-drop, take-append, drop-append, take-append_le,
  take-append_ge, take-take, take-set_le, load_lem, store_lem, Bool-cases, Option-cases, ltb→lt,
  lt→ltb, leb→le, ==_iff,
}
use tiny_utils.Cstr.Capacity.{u32, min_size, max_size, overhead, cal_fit_cap}
use tiny_utils.Cstr.Memory.{Cstr, set_end, assert_valid, total_size}
use tiny_utils.Cstr.Block.{Allocator, read_block, write_block, write_zeros}
use tiny_utils.Cstr.Create.{unless_null}
use tiny_utils.Cstr.Query.{within}

-- 'a' - 'A'
abbrev pub diff : ℕ
diff = b'a' - b'A'

abbrev pub to_lower : ℕ → ℕ
to_lower b = if within b'A' b b'Z' then b + diff else b

abbrev pub to_upper : ℕ → ℕ
to_upper b = if within b'a' b b'z' then b - diff else b

-- The loops of `cstr_tolower` and `cstr_toupper`: each used byte is replaced.
unfoldable pub case_loop : (ℕ → ℕ) → ℕ → List ℕ → ℕ → Outcome (List ℕ)
case_loop f zero bytes i = ok bytes
case_loop f (suc n) bytes i = do
  b ← load bytes i
  bytes' ← store bytes i (f b)
  case_loop f n bytes' (i + 1)

unfoldable pub cstr_tolower : Option Cstr → Outcome Cstr
cstr_tolower p = do
  cstr ← assert_valid p
  b ← case_loop to_lower cstr.used cstr.bytes 0
  ok (record cstr { bytes = b })

unfoldable pub cstr_toupper : Option Cstr → Outcome Cstr
cstr_toupper p = do
  cstr ← assert_valid p
  b ← case_loop to_upper cstr.used cstr.bytes 0
  ok (record cstr { bytes = b })

-- The block keeps its capacity, all of it zero.
unfoldable pub cstr_clear : Option Cstr → Outcome Cstr
cstr_clear p = do
  cstr ← assert_valid p
  b ← write_zeros cstr.bytes 0 cstr.cap
  ok (record { cap = cstr.cap; used = 0; bytes = b })

-- `while(beg < end-1)`, on fuel: the first and the last byte of a range change places.
unfoldable pub swap_loop : ℕ → List ℕ → ℕ → ℕ → Outcome (List ℕ)
swap_loop zero bytes beg end = if ltb (beg + 1) end then fault Fault.no_fuel else ok bytes
swap_loop (suc fuel) bytes beg end =
    let round = (do
      tmp ← load bytes beg
      last ← load bytes (end - 1)
      b₁ ← store bytes beg last
      b₂ ← store b₁ (end - 1) tmp
      swap_loop fuel b₂ (beg + 1) (end - 1)) in
    if ltb (beg + 1) end then round else ok bytes

unfoldable pub cstr_reverse : Option Cstr → Outcome Cstr
cstr_reverse p = do
  cstr ← assert_valid p
  let turned = (do b ← swap_loop cstr.used cstr.bytes 0 cstr.used; ok (record cstr { bytes = b }))
  if cstr.used == 1 then ok cstr else turned

module _ (a : Allocator) where
  -- A string whose capacity is enough for `total_used` bytes.
  unfoldable pub reserve : Cstr → ℕ → Outcome (Option Cstr)
  reserve dst total_used =
      let new_cap = cal_fit_cap (u32 (total_size dst)) (u32 (total_used + overhead)) in
      let grown = if new_cap == dst.cap then some dst.bytes else a.realloc dst.bytes new_cap in
      let larger =
        unless_null grown
          (λ b. ok (some (record { cap = new_cap - overhead; used = dst.used; bytes = b }))) in
      if ltb dst.cap total_used
      then (if ltb new_cap min_size then ok none else larger)
      else ok (some dst)

  -- The part that both insertions share, with the final `len`.
  unfoldable pub insert_bytes : Cstr → ℕ → List ℕ → ℕ → ℕ → Outcome (Option Cstr)
  insert_bytes dst pos src begin len = do
    let total_used = u32 (dst.used + len)
    p ← reserve dst total_used
    unless_null p (λ c. do
      tail ← read_block c.bytes pos (u32 (dst.used + 2 ^ 32 - pos))
      b₁ ← write_block c.bytes (pos + len) tail
      part ← read_block src begin len
      b₂ ← write_block b₁ pos part
      c' ← set_end (record { cap = c.cap; used = total_used; bytes = b₂ })
      ok (some c'))

  -- The length that is inserted, from `available` bytes.
  unfoldable pub insert_len : ℕ → ℕ → ℕ → ℕ
  insert_len available begin len =
      let len' = if len == 0 then available else len in
      if ltb available (u32 (begin + len')) then u32 (available + 2 ^ 32 - begin) else len'

  unfoldable pub cstr_insert : Option Cstr → ℕ → Option Cstr → ℕ → ℕ → Outcome (Option Cstr)
  cstr_insert d pos s begin len = do
    dst ← assert_valid d
    istr ← assert_valid s
    let inserted = insert_bytes dst pos istr.bytes begin (insert_len istr.used begin len)
    if ltb (u32 (istr.used + 2 ^ 32 - 1)) begin then ok (some dst) else inserted

  unfoldable pub cstr_insert_str : Option Cstr → ℕ → Option (List ℕ) → ℕ → ℕ → Outcome (Option Cstr)
  cstr_insert_str d pos none begin len = do dst ← assert_valid d; ok (some dst)
  cstr_insert_str d pos (some str) begin len = do
    dst ← assert_valid d
    let src_len = u32 (length str)
    let inserted = insert_bytes dst pos (str ++ (0 ∷ [])) begin (insert_len src_len begin len)
    if ltb (u32 (src_len + 2 ^ 32 - 1)) begin then ok (some dst) else inserted
