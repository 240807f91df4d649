-- ===== src/Cstr/Stored/Tests.antt =====
-- Runs of the functions of c_utils/cstr.c that allocate, and the theorems at concrete strings.
use tiny_utils.Base.{
  ◌≡◌, ◌≤◌, ◌<◌, ◌⊎◌, refl, none, some, [], ◌∷◌, ◌++◌, take, drop, replicate, ok, fault, Fault,
  ◌>>=◌, arith, ℕ,
}
use tiny_utils.Cstr.Capacity.{cal_fit_cap, fresh_cap, round_up_power_2, double_until}
use tiny_utils.Cstr.Memory.{Cstr, IsValid, text}
use tiny_utils.Cstr.Block.{read_block, write_block}
use tiny_utils.Cstr.Assign.{
  cstr_sub_cstr, append_bytes, cstr_append, copy_bytes, cstr_copy, cstr_copy_str, refit,
}
use tiny_utils.Cstr.Stored.Copied.{copied_cap, cstr_copy_lem}
use tiny_utils.Cstr.Stored.RoundTrip.{cstr_append-cstr_sub_cstr}
use tiny_utils.Cstr.Stored.{Stores}
use tiny_utils.Cstr.Stored.Heap.{heap_block, heap, heap-HasMemory}

-- "abc" in 3 of 4 bytes, and "de" in 2 of 2, which leaves room for the final byte only.
abbrev abc : Cstr
abc = record { cap = 4; used = 3; bytes = b'a' ∷ b'b' ∷ b'c' ∷ 0 ∷ 7 ∷ [] }

abbrev de : Cstr
de = record { cap = 2; used = 2; bytes = b'd' ∷ b'e' ∷ 0 ∷ [] }

abc-IsValid : IsValid abc
abc-IsValid = omega arith

de-IsValid : IsValid de
de-IsValid = omega arith

appends :
    (cstr_append heap (some abc) (some de) >>= λ p. elim p [ none ↦ ok [] | some c ↦ ok (text c) ])
    ≡ ok (b'a' ∷ b'b' ∷ b'c' ∷ b'd' ∷ b'e' ∷ [])
unfolding cstr_append append_bytes cal_fit_cap fresh_cap round_up_power_2 double_until read_block
    write_block heap_block
appends = refl

copies :
    (cstr_copy heap (some abc) (some de) 0 0 >>= λ p. elim p [
      | none ↦ ok []
      | some c ↦ ok (text c)
    ])
    ≡ ok (b'd' ∷ b'e' ∷ b'c' ∷ [])
unfolding cstr_copy copy_bytes refit cal_fit_cap fresh_cap round_up_power_2 double_until read_block
    write_block heap_block
copies = refl

copies_str :
    (cstr_copy_str heap (some abc) (some (b'd' ∷ b'e' ∷ [])) 1 1 >>= λ p. elim p [
      | none ↦ ok []
      | some c ↦ ok (text c)
    ])
    ≡ ok (b'e' ∷ b'b' ∷ b'c' ∷ [])
unfolding cstr_copy_str copy_bytes refit cal_fit_cap fresh_cap round_up_power_2 double_until
    read_block write_block heap_block
copies_str = refl

-- 40 used bytes of 291: the copy of a short text shrinks the block to 32 bytes.
abbrev long : Cstr
long = record { cap = 291; used = 40; bytes = replicate 292 7 }

copy_breaks : cstr_copy heap (some long) (some de) 0 0 ≡ fault Fault.out_of_bounds
unfolding cstr_copy copy_bytes refit cal_fit_cap fresh_cap round_up_power_2 double_until read_block
    write_block heap_block
copy_breaks = refl

cstr_copy_lem_example :
    ((3 ≤ copied_cap abc 2)
      × Stores
          (take 2 (drop 0 (text de)) ++ drop 2 (text abc))
          (cstr_copy heap (some abc) (some de) 0 2))
    ⊎ ((copied_cap abc 2 < 3)
        × (cstr_copy heap (some abc) (some de) 0 2 ≡ fault Fault.out_of_bounds))
cstr_copy_lem_example =
    cstr_copy_lem heap heap-HasMemory abc de 0 2 abc-IsValid de-IsValid (omega arith)

cstr_append-cstr_sub_cstr_example :
    (c : Cstr) × (cstr_append heap (some abc) (some de) ≡ ok (some c))
    × Stores (text de) (cstr_sub_cstr heap (some de) (some c) 3 2)
    × ((◌≡◌ {A = ℕ} 3 0) ⊎ Stores (text abc) (cstr_sub_cstr heap (some de) (some c) 0 3))
cstr_append-cstr_sub_cstr_example =
    cstr_append-cstr_sub_cstr heap heap-HasMemory abc de de abc-IsValid de-IsValid de-IsValid
      (omega arith) (omega arith)
