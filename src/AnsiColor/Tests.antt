-- ===== src/AnsiColor/Tests.antt =====
-- Texts of c_utils/ansi_color.cpp, and the theorem for a concrete text.
use tiny_utils.Base.{ℕ, ◌≡◌, refl, List, [], ◌∷◌, map, arith}
use tiny_utils.AnsiColor.{
  red, light_gray, underline, fg, bg, font, digits, stringify, colored_text, colored_text_with_attr,
}
use tiny_utils.AnsiColor.Terminal.{write, NoEscape}
use tiny_utils.AnsiColor.Shown.{screen, colored_text_shows}

-- "Hi"
abbrev hi : List ℕ
hi = 72 ∷ 105 ∷ []

-- `ESC [01;31m`, the text, `ESC [0m`
red_hi :
    colored_text hi 31 ≡ 27 ∷ 91 ∷ 48 ∷ 49 ∷ 59 ∷ 51 ∷ 49 ∷ 109 ∷ 72 ∷ 105 ∷ 27 ∷ 91 ∷ 48 ∷ 109 ∷ []
unfolding colored_text stringify digits
red_hi = refl

hi-NoEscape : NoEscape hi
hi-NoEscape = (λ e. omega (arith, e), (λ e. omega (arith, e), tt))

colored_text_shows_example :
    (write (screen []) (colored_text hi (fg red)) ≡ screen (map (λ x. (x, 1 ∷ 31 ∷ [])) hi))
    × (write (screen []) (colored_text_with_attr hi (fg red) (bg light_gray) (font underline))
        ≡ screen (map (λ x. (x, 1 ∷ 31 ∷ 47 ∷ 4 ∷ [])) hi))
colored_text_shows_example = colored_text_shows hi red light_gray underline [] hi-NoEscape
