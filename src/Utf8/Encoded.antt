-- ===== src/Utf8/Encoded.antt =====
-- Characters in UTF-8, and the loops of c_utils/utf8_substr.cpp at the beginning of one.
use mathlib.Core.List.{append_assoc, append-nil}
use tiny_utils.Base.{
  ℕ, suc, ◌+◌, ◌≡◌, ◌<◌, ◌≤◌, sym, ap, ◌∙◌, List, [], ◌∷◌, ◌++◌, length, take, drop, ok, Fault,
  load, ◌==◌, arith, length-append, drop-append, take-append, get_elem?-append, from_option, true,
  false,
}
use tiny_utils.Utf8.{char_len}

-- 0b10xxxxxx.
abbrev pub IsTrail : ℕ → Type 0
IsTrail b = (0x80 ≤ b) × (b < 0xC0)

-- One character as UTF-8 encodes it, in up to six bytes as it was first defined: its first byte and the bytes behind it.
abbrev pub IsChar : List ℕ → Type 0
IsChar (a ∷ []) = a < 0x80
IsChar (a ∷ b ∷ []) = (0xC0 ≤ a) × (a < 0xE0) × IsTrail b
IsChar (a ∷ b ∷ c ∷ []) = (0xE0 ≤ a) × (a < 0xF0) × IsTrail b × IsTrail c
IsChar (a ∷ b ∷ c ∷ d ∷ []) = (0xF0 ≤ a) × (a < 0xF8) × IsTrail b × IsTrail c × IsTrail d
IsChar (a ∷ b ∷ c ∷ d ∷ e ∷ []) =
    (0xF8 ≤ a) × (a < 0xFC) × IsTrail b × IsTrail c × IsTrail d × IsTrail e
IsChar (a ∷ b ∷ c ∷ d ∷ e ∷ f ∷ []) =
    (0xFC ≤ a) × (a < 0xFE) × IsTrail b × IsTrail c × IsTrail d × IsTrail e × IsTrail f
IsChar _ = ⊥

abbrev pub AreChars : List (List ℕ) → Type 0
AreChars [] = Unit
AreChars (c ∷ cs) = IsChar c × AreChars cs

-- Each string has the length that the code reads off its first byte.
abbrev pub AreLed : List (List ℕ) → Type 0
AreLed [] = Unit
AreLed ([] ∷ cs) = ⊥
AreLed ((b ∷ r) ∷ cs) = (char_len b ≡ suc (length r)) × AreLed cs

char_len-IsChar : (b : ℕ) (r : List ℕ) → IsChar (b ∷ r) → char_len b ≡ suc (length r)
unfolding char_len
char_len-IsChar b [] h = ground arith
char_len-IsChar b (c ∷ []) h = ground arith
char_len-IsChar b (c ∷ d ∷ []) h = ground arith
char_len-IsChar b (c ∷ d ∷ e ∷ []) h = ground arith
char_len-IsChar b (c ∷ d ∷ e ∷ f ∷ []) h = ground arith
char_len-IsChar b (c ∷ d ∷ e ∷ f ∷ g ∷ []) h = ground arith
char_len-IsChar b (c ∷ d ∷ e ∷ f ∷ g ∷ x ∷ r) h = absurd h

pub AreChars-AreLed : (cs : List (List ℕ)) → AreChars cs → AreLed cs
AreChars-AreLed [] a = tt
AreChars-AreLed ([] ∷ cs) a = absurd a.0
AreChars-AreLed ((b ∷ r) ∷ cs) a = (char_len-IsChar b r a.0, AreChars-AreLed cs a.1)

-- A string at the beginning of a character: its first byte, the character, and where it ends.
pub record IsCut (input pre : List ℕ) (b : ℕ) (r s : List ℕ) : Type 0 where
  pub inside : (length pre == length input) ≡ false
  pub byte_here : load input (length pre) ≡ ok b
  pub char_here : take (suc (length r)) (drop (length pre) input) ≡ b ∷ r
  pub next_pos : length pre + suc (length r) ≡ length (pre ++ (b ∷ r))
  pub next_input : input ≡ (pre ++ (b ∷ r)) ++ s

pub cut :
    (input pre : List ℕ) (b : ℕ) (r s : List ℕ)
    → input ≡ pre ++ ((b ∷ r) ++ s)
    → IsCut input pre b r s
cut input pre b r s e = record {
  inside = ground (arith, ap length e, length-append pre ((b ∷ r) ++ s));
  byte_here = rw e (ap (λ o. from_option o Fault.out_of_bounds) (get_elem?-append pre (r ++ s) b));
  char_here = rw (e, drop-append pre ((b ∷ r) ++ s)) (take-append (b ∷ r) s);
  next_pos = omega (arith, length-append pre (b ∷ r));
  next_input = e ∙ sym (append_assoc pre (b ∷ r) s);
}

pub at_end : (input pre : List ℕ) → input ≡ pre ++ [] → (length pre == length input) ≡ true
at_end input pre e = ground (arith, ap length (e ∙ append-nil pre))
