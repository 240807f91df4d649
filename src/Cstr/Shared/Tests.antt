-- ===== src/Cstr/Shared/Tests.antt =====
-- `cstr_append` of c_utils/cstr.c on a store of two strings, and the theorems there.
use tiny_utils.Base.{
  ℕ, ◌-◌, ◌<◌, ◌≡◌, ◌≢◌, refl, none, some, [], ◌∷◌, ◌++◌, ◌==◌, if◌then◌else◌, ◌>>=◌, fault, Fault,
  arith,
}
use tiny_utils.Cstr.Capacity.{overhead, cal_fit_cap, fresh_cap, round_up_power_2, double_until}
use tiny_utils.Cstr.Memory.{Cstr, IsValid, text}
use tiny_utils.Cstr.Stored.Heap.{heap, heap-HasMemory}
use tiny_utils.Cstr.Shared.{Store, cstr_free, cstr_data, append_at}
use tiny_utils.Cstr.Shared.Appended.{Appended, chosen, append_at-Appended, append_at-fault}

-- "abc" in 3 of 4 bytes at 10, and "de" at 20.
abbrev abc : Cstr
abc = record { cap = 4; used = 3; bytes = b'a' ∷ b'b' ∷ b'c' ∷ 0 ∷ 7 ∷ [] }

abbrev de : Cstr
de = record { cap = 2; used = 2; bytes = b'd' ∷ b'e' ∷ 0 ∷ [] }

abbrev two : Store
two x = if x == 10 then some abc else if x == 20 then some de else none

abc-IsValid : IsValid abc
abc-IsValid = omega arith

de-IsValid : IsValid de
de-IsValid = omega arith

apart : ◌≢◌ {A = ℕ} 10 20
apart e = omega arith

not_there : ◌≢◌ {A = ℕ} 30 20
not_there e = omega arith

grows : abc.cap < chosen abc abc - overhead
unfolding cal_fit_cap fresh_cap round_up_power_2 double_until
grows = omega arith

moves_away : ◌≢◌ {A = ℕ} 10 30
moves_away e = omega arith

-- A string that was freed cannot be read, nor freed again.
freed_twice : (cstr_free (some 10) two >>= cstr_free (some 10)) ≡ fault Fault.out_of_bounds
unfolding cstr_free
freed_twice = refl

read_after_free : (cstr_free (some 10) two >>= cstr_data (some 10)) ≡ fault Fault.out_of_bounds
unfolding cstr_free cstr_data
read_after_free = refl

append_at-Appended_example : Appended two 10 30 (text abc ++ text de) (append_at heap 10 20 30 two)
append_at-Appended_example =
    append_at-Appended heap heap-HasMemory 10 20 30 two abc de refl refl abc-IsValid de-IsValid
      (omega arith) apart not_there

append_at-fault_example : append_at heap 10 10 30 two ≡ fault Fault.out_of_bounds
append_at-fault_example =
    append_at-fault heap heap-HasMemory 10 30 two abc refl abc-IsValid (omega arith) (omega arith)
      grows moves_away
