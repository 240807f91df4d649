-- ===== src/Cstr/Block.antt =====
-- Reads and writes of several bytes, as `memcpy`, `memmove` and `memset` do them for c_utils/cstr.c,
-- and the allocator. The two blocks of a `memcpy` are different ones.
use tiny_utils.Base.{
  ℕ, ◌+◌, ◌-◌, ◌≤◌, ◌≡◌, ap, ◌∙◌, Option, some, List, ◌++◌, length, take, drop, replicate, Outcome,
  ok, fault, Fault, leb, if◌then◌else◌, arith, length-append, length-take, length-drop,
  take-append_le, take-append_ge, drop-append, take-take, take-append,
}

-- `len` bytes from `from` on.
unfoldable pub read_block : List ℕ → ℕ → ℕ → Outcome (List ℕ)
read_block bytes from len =
    if leb (from + len) (length bytes)
    then ok (take len (drop from bytes))
    else fault Fault.out_of_bounds

abbrev pub overwrite : List ℕ → ℕ → List ℕ → List ℕ
overwrite bytes to src = take to bytes ++ (src ++ drop (to + length src) bytes)

-- The bytes `src` at `to`.
unfoldable pub write_block : List ℕ → ℕ → List ℕ → Outcome (List ℕ)
write_block bytes to src =
    if leb (to + length src) (length bytes)
    then ok (overwrite bytes to src)
    else fault Fault.out_of_bounds

-- `memset(data + to, 0, n)`
abbrev pub write_zeros : List ℕ → ℕ → ℕ → Outcome (List ℕ)
write_zeros bytes to n = write_block bytes to (replicate n 0)

-- `malloc` and `realloc` of C: they take the size of the whole block, and give what stands behind the
-- header of 8 bytes, or fail. What `malloc` gives is not initialised; `realloc` keeps what fits.
pub record Allocator : Type 0 where
  pub malloc : ℕ → Option (List ℕ)
  pub realloc : List ℕ → ℕ → Option (List ℕ)
  pub malloc_size : (n : ℕ) (b : List ℕ) → malloc n ≡ some b → length b ≡ n - 8
  pub realloc_size : (b b' : List ℕ) (n : ℕ) → realloc b n ≡ some b' → length b' ≡ n - 8
  pub realloc_keeps :
      (b b' : List ℕ) (n k : ℕ)
      → realloc b n ≡ some b'
      → k ≤ length b
      → k ≤ n - 8
      → take k b' ≡ take k b

pub read_block_lem :
    (bytes : List ℕ) (from len : ℕ)
    → from + len ≤ length bytes
    → read_block bytes from len ≡ ok (take len (drop from bytes))
unfolding read_block
read_block_lem bytes from len h = ground arith

pub write_block_lem :
    (bytes src : List ℕ) (to : ℕ)
    → to + length src ≤ length bytes
    → write_block bytes to src ≡ ok (overwrite bytes to src)
unfolding write_block
write_block_lem bytes src to h = ground arith

pub length-overwrite :
    (bytes src : List ℕ) (to : ℕ)
    → to + length src ≤ length bytes
    → length (overwrite bytes to src) ≡ length bytes
length-overwrite bytes src to h = omega (
  arith,
  length-append (take to bytes) (src ++ drop (to + length src) bytes),
  length-append src (drop (to + length src) bytes),
  length-take to bytes,
  length-drop (to + length src) bytes,
)

-- Before the place that is written nothing changes.
pub take-overwrite_before :
    (bytes src : List ℕ) (to k : ℕ)
    → k ≤ to
    → to ≤ length bytes
    → take k (overwrite bytes to src) ≡ take k bytes
take-overwrite_before bytes src to k h fits =
    take-append_le k (take to bytes) _ (omega (arith, length-take to bytes))
    ∙ take-take k to bytes h

-- Up to its end stand the old bytes and then the new ones.
pub take-overwrite_end :
    (bytes src : List ℕ) (to k : ℕ)
    → k ≡ to + length src
    → to + length src ≤ length bytes
    → take k (overwrite bytes to src) ≡ take to bytes ++ src
take-overwrite_end bytes src to k e h =
    take-append_ge k (take to bytes) (src ++ drop (to + length src) bytes)
      (omega (arith, length-take to bytes))
    ∙ ap (λ t. take to bytes ++ t)
        (ap (λ (j : ℕ). take j (src ++ drop (to + length src) bytes))
            (omega (arith, length-take to bytes))
          ∙ take-append src _)

-- Up to `m` bytes behind the new ones.
pub take-overwrite_after :
    (bytes src : List ℕ) (to m k : ℕ)
    → k ≡ to + (length src + m)
    → to ≤ length bytes
    → take k (overwrite bytes to src)
      ≡ take to bytes ++ (src ++ take m (drop (to + length src) bytes))
take-overwrite_after bytes src to m k e h =
    let before : length (take to bytes) ≡ to = omega (arith, length-take to bytes) in
    let rest : k - length (take to bytes) ≡ length src + m = omega (arith, before) in
    let behind : length src + m - length src ≡ m = omega arith in
    take-append_ge k (take to bytes) (src ++ drop (to + length src) bytes) (omega (arith, before))
    ∙ ap (λ t. take to bytes ++ t)
        (ap (λ (j : ℕ). take j (src ++ drop (to + length src) bytes)) rest
          ∙ take-append_ge (length src + m) src (drop (to + length src) bytes) (omega arith)
          ∙ ap (λ (j : ℕ). src ++ take j (drop (to + length src) bytes)) behind)

pub drop-overwrite :
    (bytes src : List ℕ) (to : ℕ)
    → to ≤ length bytes
    → drop to (overwrite bytes to src) ≡ src ++ drop (to + length src) bytes
drop-overwrite bytes src to h =
    let before : to ≡ length (take to bytes) = omega (arith, length-take to bytes) in
    ap (λ (j : ℕ). drop j (overwrite bytes to src)) before
    ∙ drop-append (take to bytes) (src ++ drop (to + length src) bytes)
