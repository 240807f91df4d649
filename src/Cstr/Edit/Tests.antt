-- ===== src/Cstr/Edit/Tests.antt =====
-- Runs of the editing functions of c_utils/cstr.c, and the theorems at concrete strings.
use tiny_utils.Base.{◌≡◌, refl, some, [], ◌∷◌, take, drop, ok, ◌>>=◌, arith}
use tiny_utils.Cstr.Memory.{Cstr, IsValid, text}
use mathlib.Core.List.{reverse}
use tiny_utils.Cstr.Trim.Trimmed.{Leaves}
use tiny_utils.Cstr.Block.{write_block}
use tiny_utils.Cstr.Edit.{swap_loop, cstr_reverse, cstr_clear, cstr_insert}
use tiny_utils.Cstr.Stored.{Stores}
use tiny_utils.Cstr.Stored.Heap.{heap, heap-HasMemory}
use tiny_utils.Cstr.Edit.Reversed.{cstr_reverse-Leaves}
use tiny_utils.Cstr.Edit.Inserted.{inserted, cstr_insert-Stores}

-- "aBc" in 3 of 8 bytes, and "xy".
abbrev letters : Cstr
letters = record { cap = 8; used = 3; bytes = b'a' ∷ b'B' ∷ b'c' ∷ 0 ∷ 7 ∷ 7 ∷ 7 ∷ 7 ∷ 7 ∷ [] }

abbrev xy : Cstr
xy = record { cap = 2; used = 2; bytes = b'x' ∷ b'y' ∷ 0 ∷ [] }

letters-IsValid : IsValid letters
letters-IsValid = omega arith

xy-IsValid : IsValid xy
xy-IsValid = omega arith

reverses : (cstr_reverse (some letters) >>= λ c. ok (text c)) ≡ ok (b'c' ∷ b'B' ∷ b'a' ∷ [])
unfolding cstr_reverse swap_loop
reverses = refl

clears : (cstr_clear (some xy) >>= λ c. ok c.bytes) ≡ ok (0 ∷ 0 ∷ 0 ∷ [])
unfolding cstr_clear write_block
clears = refl

cstr_insert-Stores_example :
    Stores
      (inserted (text letters) 1 (take 2 (drop 0 (text xy))))
      (cstr_insert heap (some letters) 1 (some xy) 0 0)
cstr_insert-Stores_example =
    cstr_insert-Stores heap heap-HasMemory letters xy 1 0 0 letters-IsValid xy-IsValid (omega arith)
      (omega arith) (omega arith) (omega arith)

cstr_reverse-Leaves_example : Leaves (reverse (text letters)) (cstr_reverse (some letters))
cstr_reverse-Leaves_example = cstr_reverse-Leaves letters letters-IsValid
