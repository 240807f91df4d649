-- ===== src/Utf8.antt =====
-- c_utils/utf8_substr.cpp: splitting a string of bytes into UTF-8 characters, and substrings that
-- are counted in characters. `size_t` positions do not wrap.
pub mod Encoded
pub mod Charset
pub mod Chars
mod Tests
use tiny_utils.Base.{
  ℕ, zero, suc, ◌+◌, List, [], ◌∷◌, ◌++◌, length, take, drop, Outcome, ok, fault, Fault, ◌>>=◌,
  load, ltb, leb, ◌==◌, if◌then◌else◌,
}

-- The length of the character that a byte begins.
unfoldable pub char_len : ℕ → ℕ
char_len byte =
    if leb 0xFC byte
    then 6
    else if leb 0xF8 byte
    then 5
    else if leb 0xF0 byte
    then 4
    else if leb 0xE0 byte
    then 3
    else if leb 0xC0 byte
    then 2
    else 1

-- `input.substr(i,len)`, for `i` up to the length.
abbrev pub substr : List ℕ → ℕ → ℕ → List ℕ
substr input i len = take len (drop i input)

-- The loop of `utf8_to_charset` on fuel: the strings that it pushes.
unfoldable pub charset_loop : ℕ → List ℕ → ℕ → Outcome (List (List ℕ))
charset_loop zero input i = fault Fault.no_fuel
charset_loop (suc fuel) input i =
    let round = (do
      byte ← load input i
      let len = char_len byte
      rest ← charset_loop fuel input (i + len)
      ok (substr input i len ∷ rest)) in
    if i == length input then ok [] else round

-- What `output` holds afterwards, and its size.
unfoldable pub utf8_to_charset : List ℕ → List (List ℕ) → Outcome (List (List ℕ) × ℕ)
utf8_to_charset input output = do
  chars ← charset_loop (length input + 1) input 0
  ok (output ++ chars, length (output ++ chars))

-- The loop of `utf8_substr` on fuel: what it appends to `returnStr`.
unfoldable pub substr_loop : ℕ → List ℕ → ℕ → ℕ → ℕ → ℕ → ℕ → Outcome (List ℕ)
substr_loop zero input pos len_wanted i cur_pos added_len = fault Fault.no_fuel
substr_loop (suc fuel) input pos len_wanted i cur_pos added_len =
    let round = (do
      byte ← load input i
      let len = char_len byte
      let skip = substr_loop fuel input pos len_wanted (i + len) (cur_pos + 1) added_len
      let more = (do
        rest ← substr_loop fuel input pos len_wanted (i + len) (cur_pos + 1) (added_len + 1)
        ok (substr input i len ++ rest))
      let here = if added_len + 1 == len_wanted then ok (substr input i len) else more
      if ltb (cur_pos + 1) pos then skip else here) in
    if i == length input then ok [] else round

unfoldable pub utf8_substr : List ℕ → ℕ → ℕ → Outcome (List ℕ)
utf8_substr input pos len_wanted =
    let search = substr_loop (length input + 1) input pos len_wanted 0 0 0 in
    if len_wanted == 0 then ok [] else search
