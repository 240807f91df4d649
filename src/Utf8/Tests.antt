-- ===== src/Utf8/Tests.antt =====
-- Runs of c_utils/utf8_substr.cpp, and the theorems at concrete strings.
use mathlib.Core.List.{flatten}
use tiny_utils.Base.{◌++◌, length, arith, ℕ, ◌-◌, ◌≡◌, refl, List, [], ◌∷◌, take, drop, ok}
use tiny_utils.Utf8.{utf8_to_charset, char_len, substr_loop, utf8_substr}
use tiny_utils.Utf8.Encoded.{AreChars}
use tiny_utils.Utf8.Charset.{utf8_to_charset-flatten}
use tiny_utils.Utf8.Chars.{utf8_substr-flatten}

-- "a", "é", "字".
abbrev three_chars : List (List ℕ)
three_chars = (b'a' ∷ []) ∷ (0xC3 ∷ 0xA9 ∷ []) ∷ (0xE5 ∷ 0xAD ∷ 0x97 ∷ []) ∷ []

three_chars-AreChars : AreChars three_chars
three_chars-AreChars = omega arith

second_char : utf8_substr (flatten three_chars) 2 1 ≡ ok (0xC3 ∷ 0xA9 ∷ [])
unfolding utf8_substr substr_loop char_len flatten
second_char = refl

utf8_substr-flatten_example :
    utf8_substr (flatten three_chars) 2 2 ≡ ok (flatten (take 2 (drop (2 - 1) three_chars)))
utf8_substr-flatten_example = utf8_substr-flatten three_chars 2 2 three_chars-AreChars

utf8_to_charset-flatten_example :
    utf8_to_charset (flatten three_chars) ((b'x' ∷ []) ∷ [])
    ≡ ok (((b'x' ∷ []) ∷ []) ++ three_chars, length (((b'x' ∷ []) ∷ []) ++ three_chars))
utf8_to_charset-flatten_example =
    utf8_to_charset-flatten three_chars ((b'x' ∷ []) ∷ []) three_chars-AreChars
