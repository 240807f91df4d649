-- ===== src/AnsiColor/Terminal.antt =====
-- A terminal that shows bytes with the attributes of ANSI escape sequences: what the macros of
-- c_utils/ansi_color.cpp are for.
use tiny_utils.Base.{
  ℕ, ◌+◌, ◌*◌, ◌-◌, ◌≡◌, ◌≢◌, refl, sym, ap, ◌∙◌, List, [], ◌∷◌, ◌++◌, map, ltb, leb, ◌==◌, ◌&&◌,
  ◌||◌, Bool, false, if◌then◌else◌, arith,
}
use mathlib.Core.List.{append-nil, append_assoc}
use tiny_utils.AnsiColor.Decimal.{value_from, AllDigits}

-- Between sequences; behind ESC; and behind `ESC [`, with the numbers before the last `;` and the one
-- after it.
pub data Mode : Type 0 where
  plain escaped : Mode
  numbers : List ℕ → ℕ → Mode

-- The attributes that are on, and the bytes shown so far, each with its attributes.
pub record Screen : Type 0 where
  pub mode : Mode
  pub attrs : List ℕ
  pub shown : List (ℕ × List ℕ)

-- The attributes that a number from 21 to 29 turns off: bold, bold and faint, italic, underline, blink, the
-- negative image, conceal and crossed-out; 26 is reserved.
abbrev pub turns_off : ℕ → ℕ → Bool
turns_off n a =
    if n == 21
    then a == 1
    else if n == 22
    then a == 1 || a == 2
    else if n == 25
    then a == 5 || a == 6
    else if n == 26
    then false
    else a + 20 == n

-- What is left of the attributes.
abbrev pub left_on : ℕ → List ℕ → List ℕ
left_on n [] = []
left_on n (a ∷ rest) = if turns_off n a then left_on n rest else a ∷ left_on n rest

-- 0 turns all attributes off.
abbrev pub turn_on : List ℕ → List ℕ → List ℕ
turn_on attrs [] = attrs
turn_on attrs (n ∷ ns) =
    turn_on
      (if n == 0 then [] else if leb 21 n && ltb n 30 then left_on n attrs else attrs ++ (n ∷ []))
      ns

abbrev pub feed : Screen → ℕ → Screen
feed s c = elim s.mode [
  | plain ↦
      if c == 27
      then record s { mode = escaped }
      else record s { shown = s.shown ++ ((c, s.attrs) ∷ []) }
  | escaped ↦ if c == 91 then record s { mode = numbers [] 0 } else record s { mode = plain }
  | numbers before n ↦
      if leb 48 c && ltb c 58
      then record s { mode = numbers before (n * 10 + (c - 48)) }
      else if c == 59
      then record s { mode = numbers (before ++ (n ∷ [])) 0 }
      else if c == 109
      then record s { mode = plain; attrs = turn_on s.attrs (before ++ (n ∷ [])) }
      else record s { mode = plain }
]

abbrev pub write : Screen → List ℕ → Screen
write s [] = s
write s (c ∷ cs) = write (feed s c) cs

pub write-append : (s : Screen) (xs ys : List ℕ) → write s (xs ++ ys) ≡ write (write s xs) ys
write-append s [] ys = refl
write-append s (c ∷ xs) ys = write-append (feed s c) xs ys

-- Digits add up to a number.
pub write_digits :
    (before attrs : List ℕ) (shown : List (ℕ × List ℕ)) (n : ℕ) (cs : List ℕ)
    → AllDigits cs
    → write (record { mode = numbers before n; attrs = attrs; shown = shown }) cs
      ≡ record { mode = numbers before (value_from n cs); attrs = attrs; shown = shown }
write_digits before attrs shown n [] a = refl
write_digits before attrs shown n (c ∷ cs) (low, high, a) =
    ap (λ (s : Screen). write s cs) here ∙ write_digits before attrs shown (n * 10 + (c - 48)) cs a
  where
    here :
        feed (record { mode = numbers before n; attrs = attrs; shown = shown }) c
        ≡ record { mode = numbers before (n * 10 + (c - 48)); attrs = attrs; shown = shown }
    here = ground arith

-- No byte starts a sequence.
abbrev pub NoEscape : List ℕ → Type 0
NoEscape [] = Unit
NoEscape (c ∷ cs) = (c ≢ 27) × NoEscape cs

pub write_text :
    (attrs : List ℕ) (shown : List (ℕ × List ℕ)) (cs : List ℕ)
    → NoEscape cs
    → write (record { mode = plain; attrs = attrs; shown = shown }) cs
      ≡ record { mode = plain; attrs = attrs; shown = shown ++ map (λ c. (c, attrs)) cs }
write_text attrs shown [] a =
    ap (λ (x : List (ℕ × List ℕ)). record { mode = plain; attrs = attrs; shown = x })
      (sym (append-nil shown))
write_text attrs shown (c ∷ cs) (ne, a) =
    ap (λ (s : Screen). write s cs) here
    ∙ write_text attrs (shown ++ ((c, attrs) ∷ [])) cs a
    ∙ ap (λ (x : List (ℕ × List ℕ)). record { mode = plain; attrs = attrs; shown = x })
        (append_assoc shown ((c, attrs) ∷ []) (map (λ c. (c, attrs)) cs))
  where
    here :
        feed (record { mode = plain; attrs = attrs; shown = shown }) c
        ≡ record { mode = plain; attrs = attrs; shown = shown ++ ((c, attrs) ∷ []) }
    here = ground arith
