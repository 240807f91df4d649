-- ===== src/AnsiColor/Codes.antt =====
-- The numbers of c_utils/ansi_color.cpp.
use tiny_utils.Base.{◌+◌, ◌≤◌, ℕ, List, [], ◌∷◌, ◌≡◌, refl, arith}
use tiny_utils.AnsiColor.{
  Font, Color, font, fg, bg, black, red, green, yellow, blue, magenta, cyan, light_gray,
  default_color, dark_gray, light_red, light_green, light_yellow, light_blue, light_magenta,
  light_cyan, white, bold_or_incr, faint, italic, underline, blink_slow, blink_rapid, image,
  conceal, crossed_out, attr_default, bold_off, normal, italic_off, underline_off, blink_off,
  reversed, image_positive, reveal, crossed_out_off,
}
use tiny_utils.AnsiColor.Terminal.{turn_on}

pub fg_high : (c : Color) → 30 ≤ fg c
fg_high black = omega arith
fg_high red = omega arith
fg_high green = omega arith
fg_high yellow = omega arith
fg_high blue = omega arith
fg_high magenta = omega arith
fg_high cyan = omega arith
fg_high light_gray = omega arith
fg_high default_color = omega arith
fg_high dark_gray = omega arith
fg_high light_red = omega arith
fg_high light_green = omega arith
fg_high light_yellow = omega arith
fg_high light_blue = omega arith
fg_high light_magenta = omega arith
fg_high light_cyan = omega arith
fg_high white = omega arith

-- The two tables name the same colours in the same order.
pub bg-fg : (c : Color) → bg c ≡ fg c + 10
bg-fg black = refl
bg-fg red = refl
bg-fg green = refl
bg-fg yellow = refl
bg-fg blue = refl
bg-fg magenta = refl
bg-fg cyan = refl
bg-fg light_gray = refl
bg-fg default_color = refl
bg-fg dark_gray = refl
bg-fg light_red = refl
bg-fg light_green = refl
bg-fg light_yellow = refl
bg-fg light_blue = refl
bg-fg light_magenta = refl
bg-fg light_cyan = refl
bg-fg white = refl

-- What bold text with a foreground and a background has on, by the font that is given behind them: a font that
-- is switched on, that ends bold, or that ends something that is not on.
abbrev pub attrs_with : Font → (fgcolor bgcolor : ℕ) → List ℕ
attrs_with bold_or_incr fgcolor bgcolor = 1 ∷ fgcolor ∷ bgcolor ∷ 1 ∷ []
attrs_with faint fgcolor bgcolor = 1 ∷ fgcolor ∷ bgcolor ∷ 2 ∷ []
attrs_with italic fgcolor bgcolor = 1 ∷ fgcolor ∷ bgcolor ∷ 3 ∷ []
attrs_with underline fgcolor bgcolor = 1 ∷ fgcolor ∷ bgcolor ∷ 4 ∷ []
attrs_with blink_slow fgcolor bgcolor = 1 ∷ fgcolor ∷ bgcolor ∷ 5 ∷ []
attrs_with blink_rapid fgcolor bgcolor = 1 ∷ fgcolor ∷ bgcolor ∷ 6 ∷ []
attrs_with image fgcolor bgcolor = 1 ∷ fgcolor ∷ bgcolor ∷ 7 ∷ []
attrs_with conceal fgcolor bgcolor = 1 ∷ fgcolor ∷ bgcolor ∷ 8 ∷ []
attrs_with crossed_out fgcolor bgcolor = 1 ∷ fgcolor ∷ bgcolor ∷ 9 ∷ []
attrs_with attr_default fgcolor bgcolor = 1 ∷ fgcolor ∷ bgcolor ∷ 10 ∷ []
attrs_with bold_off fgcolor bgcolor = fgcolor ∷ bgcolor ∷ []
attrs_with normal fgcolor bgcolor = fgcolor ∷ bgcolor ∷ []
attrs_with italic_off fgcolor bgcolor = 1 ∷ fgcolor ∷ bgcolor ∷ []
attrs_with underline_off fgcolor bgcolor = 1 ∷ fgcolor ∷ bgcolor ∷ []
attrs_with blink_off fgcolor bgcolor = 1 ∷ fgcolor ∷ bgcolor ∷ []
attrs_with reversed fgcolor bgcolor = 1 ∷ fgcolor ∷ bgcolor ∷ []
attrs_with image_positive fgcolor bgcolor = 1 ∷ fgcolor ∷ bgcolor ∷ []
attrs_with reveal fgcolor bgcolor = 1 ∷ fgcolor ∷ bgcolor ∷ []
attrs_with crossed_out_off fgcolor bgcolor = 1 ∷ fgcolor ∷ bgcolor ∷ []

pub turn_on-font :
    (f : Font) (n m : ℕ) → 30 ≤ n → 30 ≤ m → turn_on [] (1 ∷ n ∷ m ∷ font f ∷ []) ≡ attrs_with f n m
turn_on-font bold_or_incr n m hn hm = ground arith
turn_on-font faint n m hn hm = ground arith
turn_on-font italic n m hn hm = ground arith
turn_on-font underline n m hn hm = ground arith
turn_on-font blink_slow n m hn hm = ground arith
turn_on-font blink_rapid n m hn hm = ground arith
turn_on-font image n m hn hm = ground arith
turn_on-font conceal n m hn hm = ground arith
turn_on-font crossed_out n m hn hm = ground arith
turn_on-font attr_default n m hn hm = ground arith
turn_on-font bold_off n m hn hm = ground arith
turn_on-font normal n m hn hm = ground arith
turn_on-font italic_off n m hn hm = ground arith
turn_on-font underline_off n m hn hm = ground arith
turn_on-font blink_off n m hn hm = ground arith
turn_on-font reversed n m hn hm = ground arith
turn_on-font image_positive n m hn hm = ground arith
turn_on-font reveal n m hn hm = ground arith
turn_on-font crossed_out_off n m hn hm = ground arith
