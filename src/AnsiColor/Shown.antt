-- ===== src/AnsiColor/Shown.antt =====
-- What a terminal shows of the macros of c_utils/ansi_color.cpp.
use tiny_utils.Base.{ℕ, ◌≤◌, ◌≡◌, ap, ◌∙◌, List, [], ◌∷◌, ◌++◌, map, arith}
use tiny_utils.AnsiColor.{
  Font, Color, font, fg, bg, stringify, closing, colored_text, colored_text_with_attr,
}
use tiny_utils.AnsiColor.Decimal.{stringify-AllDigits, value_from-stringify}
use tiny_utils.AnsiColor.Codes.{fg_high, bg-fg, attrs_with, turn_on-font}
use tiny_utils.AnsiColor.Terminal.{
  plain, numbers, Screen, turn_on, write, write-append, write_digits, NoEscape, write_text,
}

abbrev pub screen : List (ℕ × List ℕ) → Screen
screen shown = record { mode = plain; attrs = []; shown = shown }

-- A number behind `ESC [` or `;`
write_number :
    (before attrs : List ℕ) (shown : List (ℕ × List ℕ)) (n : ℕ) (cs : List ℕ)
    → write (record { mode = numbers before 0; attrs = attrs; shown = shown }) (stringify n ++ cs)
      ≡ write (record { mode = numbers before n; attrs = attrs; shown = shown }) cs
write_number before attrs shown n cs =
    write-append _ (stringify n) cs
    ∙ ap (λ (s : Screen). write s cs)
        (write_digits before attrs shown 0 (stringify n) (stringify-AllDigits n)
          ∙ ap (λ (v : ℕ). record { mode = numbers before v; attrs = attrs; shown = shown })
              (value_from-stringify n))

-- The text and the closing sequence.
write_rest :
    (attrs : List ℕ) (shown : List (ℕ × List ℕ)) (text : List ℕ)
    → NoEscape text
    → write (record { mode = plain; attrs = attrs; shown = shown }) (text ++ closing)
      ≡ screen (shown ++ map (λ c. (c, attrs)) text)
write_rest attrs shown text a =
    write-append _ text closing
    ∙ ap (λ (s : Screen). write s closing) (write_text attrs shown text a)

-- `m` behind 01 and a colour.
turn_on-colour : (n : ℕ) → 30 ≤ n → turn_on (1 ∷ []) (n ∷ []) ≡ 1 ∷ n ∷ []
turn_on-colour n h = ground arith

-- A terminal in its default state shows, of what the macros give, each byte of the text with bold (1), the
-- foreground and, in the second macro, the background and the font attribute, and nothing else; a font
-- from 21 on is not shown but ends what it is to end, so that FONT_BOLD_OFF and FONT_NORMAL show the text
-- without bold. The terminal is in its default state again behind it. The text has no escape byte in it.
pub colored_text_shows :
    (text : List ℕ) (c : Color) (b : Color) (f : Font) (shown : List (ℕ × List ℕ))
    → NoEscape text
    → (write (screen shown) (colored_text text (fg c))
        ≡ screen (shown ++ map (λ x. (x, 1 ∷ fg c ∷ [])) text))
      × (write (screen shown) (colored_text_with_attr text (fg c) (bg b) (font f))
          ≡ screen (shown ++ map (λ x. (x, attrs_with f (fg c) (bg b))) text))
unfolding colored_text colored_text_with_attr
colored_text_shows text c b f shown a = (
  write_number (1 ∷ []) [] shown (fg c) ((109 ∷ []) ++ (text ++ closing))
      ∙ ap
          (λ (on : List ℕ).
            write (record { mode = plain; attrs = on; shown = shown }) (text ++ closing))
          (turn_on-colour (fg c) (fg_high c))
      ∙ write_rest (1 ∷ fg c ∷ []) shown text a,
  write_number (1 ∷ []) [] shown (fg c) _
      ∙ write_number (1 ∷ fg c ∷ []) [] shown (bg b) _
      ∙ write_number (1 ∷ fg c ∷ bg b ∷ []) [] shown (font f) _
      ∙ ap
          (λ (on : List ℕ).
            write (record { mode = plain; attrs = on; shown = shown }) (text ++ closing))
          (turn_on-font f (fg c) (bg b) (fg_high c) bg_high)
      ∙ write_rest (attrs_with f (fg c) (bg b)) shown text a,
)
  where
    bg_high : 30 ≤ bg b
    bg_high = omega (arith, bg-fg b, fg_high b)
