-- ===== src/Cstr/Trim/Tests.antt =====
-- Runs of the trimming functions of c_utils/cstr.c, and the theorems at concrete strings.
use tiny_utils.Base.{ℕ, ◌-◌, ◌≡◌, refl, some, [], ◌∷◌, take, drop, ok, ◌>>=◌, arith}
use tiny_utils.Cstr.Memory.{Cstr, IsValid, text}
use tiny_utils.Cstr.Block.{read_block, write_block}
use tiny_utils.Cstr.Trim.{
  skip_blanks, skip_back, empty_out, cut_end, move_front, cstr_trim, cstr_trim_tail,
}
use tiny_utils.Cstr.Trim.Blanks.{IsStart, IsEnd}
use tiny_utils.Cstr.Trim.Trimmed.{Leaves, cstr_trim-Leaves}

-- " ab " and "a ".
abbrev padded : Cstr
padded = record { cap = 4; used = 4; bytes = 32 ∷ b'a' ∷ b'b' ∷ 32 ∷ 0 ∷ [] }

abbrev one_letter : Cstr
one_letter = record { cap = 2; used = 2; bytes = b'a' ∷ 32 ∷ 0 ∷ [] }

padded-IsValid : IsValid padded
padded-IsValid = omega arith

one_letter-IsValid : IsValid one_letter
one_letter-IsValid = omega arith

trims : (cstr_trim (some padded) >>= λ c. ok (text c)) ≡ ok (b'a' ∷ b'b' ∷ [])
unfolding cstr_trim skip_blanks skip_back cut_end move_front empty_out read_block write_block
trims = refl

-- The letter is lost.
loses_letter : (cstr_trim_tail (some one_letter) >>= λ c. ok (text c)) ≡ ok []
unfolding cstr_trim_tail skip_back cut_end empty_out write_block
loses_letter = refl

cstr_trim-Leaves_example :
    (beg end : ℕ) × IsStart padded.bytes 0 padded.used beg
    × IsEnd padded.bytes beg padded.used end
    × Leaves (take (end - beg) (drop beg (text padded))) (cstr_trim (some padded))
cstr_trim-Leaves_example = cstr_trim-Leaves padded padded-IsValid
