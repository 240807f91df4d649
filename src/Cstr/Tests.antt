-- ===== src/Cstr/Tests.antt =====
-- Runs of c_utils/cstr.c, and the theorems at concrete sizes.
use tiny_utils.Base.{◌≡◌, ◌≤◌, ◌⊎◌, refl, arith, none, some, List, [], ◌∷◌, ok, ◌>>=◌}
use tiny_utils.Cstr.Memory.{Cstr, IsValid, text}
use tiny_utils.Cstr.Block.{read_block, write_block}
use tiny_utils.Cstr.Assign.{append_bytes, cstr_append_str}
use tiny_utils.Cstr.Edit.{swap_loop, cstr_reverse, case_loop, cstr_toupper}
use tiny_utils.Cstr.Stored.{Stores}
use tiny_utils.Cstr.Stored.Heap.{heap_block, heap, heap-HasMemory}
use tiny_utils.Cstr.Program.{
  Edit, append, turn, upper, run_on_text, apply, run, Refused, run_refines,
}
use tiny_utils.Cstr.Capacity.{
  round_up_power_2, cal_fit_cap, min_size, max_size, double_until, fresh_cap,
}
use tiny_utils.Cstr.Capacity.Laws.{cal_fit_cap_bounds}

shrinks_beyond_tiny : cal_fit_cap 1024 40 ≡ 64
unfolding cal_fit_cap fresh_cap round_up_power_2 double_until
shrinks_beyond_tiny = refl

cal_fit_cap_bounds_example :
    (min_size ≤ cal_fit_cap 1024 40) × (40 ≤ cal_fit_cap 1024 40) × (cal_fit_cap 1024 40 ≤ max_size)
cal_fit_cap_bounds_example = cal_fit_cap_bounds 1024 40 (omega arith) (omega arith)

-- "abc" in 3 of 4 bytes.
abbrev abc : Cstr
abc = record { cap = 4; used = 3; bytes = b'a' ∷ b'b' ∷ b'c' ∷ 0 ∷ 7 ∷ [] }

abc-IsValid : IsValid abc
abc-IsValid = omega arith

abbrev some_edits : List Edit
some_edits = append (b'd' ∷ b'e' ∷ []) ∷ turn ∷ upper ∷ []

runs :
    (run heap some_edits abc >>= λ p. elim p [ none ↦ ok [] | some c ↦ ok (text c) ])
    ≡ ok (b'E' ∷ b'D' ∷ b'C' ∷ b'B' ∷ b'A' ∷ [])
unfolding run apply cstr_append_str append_bytes cstr_reverse swap_loop cstr_toupper case_loop
    cal_fit_cap fresh_cap round_up_power_2 double_until read_block write_block heap_block
runs = refl

run_refines_example :
    Stores (run_on_text some_edits (text abc)) (run heap some_edits abc)
    ⊎ ((run heap some_edits abc ≡ ok none) × Refused heap some_edits abc)
run_refines_example = run_refines heap heap-HasMemory some_edits abc abc-IsValid (omega arith)
