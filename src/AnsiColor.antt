-- ===== src/AnsiColor.antt =====
-- c_utils/ansi_color.cpp: the numbers of fonts and colours, and the macros that put text between escape
-- sequences. A string is its bytes; a macro's number stands in it in decimal.
pub mod Decimal
pub mod Terminal
pub mod Codes
pub mod Shown
mod Tests
use tiny_utils.Base.{
  ℕ, zero, suc, ◌+◌, ◌/◌, ◌%◌, ◌<◌, Bool, List, [], ◌∷◌, ◌++◌, ltb, if◌then◌else◌,
}

-- `FONT_...`
pub data Font : Type 0 where
  bold_or_incr faint italic underline blink_slow blink_rapid image conceal crossed_out : Font
  attr_default bold_off normal italic_off underline_off blink_off reversed image_positive : Font
  reveal crossed_out_off : Font

abbrev pub font : Font → ℕ
font bold_or_incr = 1
font faint = 2
font italic = 3
font underline = 4
font blink_slow = 5
font blink_rapid = 6
font image = 7
font conceal = 8
font crossed_out = 9
font attr_default = 10
font bold_off = 21
font normal = 22
font italic_off = 23
font underline_off = 24
font blink_off = 25
font reversed = 26
font image_positive = 27
font reveal = 28
font crossed_out_off = 29

-- The colours of `FG_...` and `BG_...`
pub data Color : Type 0 where
  black red green yellow blue magenta cyan light_gray default_color dark_gray : Color
  light_red light_green light_yellow light_blue light_magenta light_cyan white : Color

abbrev pub fg : Color → ℕ
fg black = 30
fg red = 31
fg green = 32
fg yellow = 33
fg blue = 34
fg magenta = 35
fg cyan = 36
fg light_gray = 37
fg default_color = 39
fg dark_gray = 90
fg light_red = 91
fg light_green = 92
fg light_yellow = 93
fg light_blue = 94
fg light_magenta = 95
fg light_cyan = 96
fg white = 97

abbrev pub bg : Color → ℕ
bg black = 40
bg red = 41
bg green = 42
bg yellow = 43
bg blue = 44
bg magenta = 45
bg cyan = 46
bg light_gray = 47
bg default_color = 49
bg dark_gray = 100
bg light_red = 101
bg light_green = 102
bg light_yellow = 103
bg light_blue = 104
bg light_magenta = 105
bg light_cyan = 106
bg white = 107

-- The decimal digits of a number, on fuel, in front of `rest`.
unfoldable pub digits : ℕ → ℕ → List ℕ → List ℕ
digits zero n rest = rest
digits (suc fuel) n rest =
    let rest' = (48 + n % 10) ∷ rest in
    let more = digits fuel (n / 10) rest' in if ltb n 10 then rest' else more

-- `STRFY` of a number.
unfoldable pub stringify : ℕ → List ℕ
stringify n = digits (suc n) n []

-- `"\033[01;"` and `"\033[0m"`
abbrev pub opening : List ℕ
opening = 27 ∷ 91 ∷ 48 ∷ 49 ∷ 59 ∷ []

abbrev pub closing : List ℕ
closing = 27 ∷ 91 ∷ 48 ∷ 109 ∷ []

unfoldable pub colored_text : List ℕ → ℕ → List ℕ
colored_text text color = opening ++ (stringify color ++ ((109 ∷ []) ++ (text ++ closing)))

unfoldable pub colored_text_with_attr : List ℕ → (fgcolor bgcolor attr : ℕ) → List ℕ
colored_text_with_attr text fgcolor bgcolor attr =
    opening
    ++ (stringify fgcolor
        ++ ((59 ∷ [])
            ++ (stringify bgcolor
                ++ ((59 ∷ []) ++ (stringify attr ++ ((109 ∷ []) ++ (text ++ closing)))))))
