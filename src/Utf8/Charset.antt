-- ===== src/Utf8/Charset.antt =====
-- What `utf8_to_charset` of c_utils/utf8_substr.cpp gives.
use mathlib.Core.List.{flatten, append_assoc, append-nil}
use tiny_utils.Base.{
  ℕ, zero, suc, ◌+◌, ◌≡◌, ◌<◌, refl, sym, ap, ◌∙◌, List, [], ◌∷◌, ◌++◌, length, ok, fault, Fault,
  ◌==◌, arith, length-append, false, load-fault,
}
use tiny_utils.Utf8.{char_len, charset_loop, utf8_to_charset}
use tiny_utils.Utf8.Encoded.{AreChars, AreLed, AreChars-AreLed, cut, at_end}

charset_loop_lem :
    (fuel : ℕ) (input pre : List ℕ) (cs : List (List ℕ))
    → AreLed cs
    → input ≡ pre ++ flatten cs
    → length (flatten cs) < fuel
    → charset_loop fuel input (length pre) ≡ ok cs
unfolding charset_loop flatten
charset_loop_lem zero input pre cs a e f = absurd (omega arith)
charset_loop_lem (suc fuel) input pre [] a e f = rw (at_end input pre e)
charset_loop_lem (suc fuel) input pre ([] ∷ cs) a e f = absurd a
charset_loop_lem (suc fuel) input pre ((b ∷ r) ∷ cs) a e f =
    let c = cut input pre b r (flatten cs) e in
    let next =
      charset_loop_lem fuel input (pre ++ (b ∷ r)) cs a.1 c.next_input
        (omega (arith, length-append (b ∷ r) (flatten cs))) in
    rw (c.inside, c.byte_here, a.0, c.next_pos, next, c.char_here)

utf8_to_charset-AreLed :
    (cs output : List (List ℕ))
    → AreLed cs
    → utf8_to_charset (flatten cs) output ≡ ok (output ++ cs, length (output ++ cs))
unfolding utf8_to_charset
utf8_to_charset-AreLed cs output a =
    rw (charset_loop_lem (length (flatten cs) + 1) (flatten cs) [] cs a refl (omega arith))

-- On a string of whole characters, each encoded in UTF-8 in one to six bytes, the result is those characters,
-- in order, behind what `output` held, and the number of all of them.
pub utf8_to_charset-flatten :
    (cs output : List (List ℕ))
    → AreChars cs
    → utf8_to_charset (flatten cs) output ≡ ok (output ++ cs, length (output ++ cs))
utf8_to_charset-flatten cs output a = utf8_to_charset-AreLed cs output (AreChars-AreLed cs a)

past_end :
    (fuel : ℕ) (input : List ℕ) (i : ℕ)
    → length input < i
    → 0 < fuel
    → charset_loop fuel input i ≡ fault Fault.out_of_bounds
unfolding charset_loop
past_end zero input i h f = absurd (omega arith)
past_end (suc fuel) input i h f = rw (not_end, load-fault input i (omega arith))
  where
    not_end : (i == length input) ≡ false
    not_end = ground arith

-- A string that ends inside a character.
charset_loop-fault :
    (fuel : ℕ) (input pre : List ℕ) (cs : List (List ℕ)) (b : ℕ) (r : List ℕ)
    → AreLed cs
    → input ≡ pre ++ (flatten cs ++ (b ∷ r))
    → suc (length r) < char_len b
    → length (flatten cs ++ (b ∷ r)) < fuel
    → charset_loop fuel input (length pre) ≡ fault Fault.out_of_bounds
unfolding charset_loop flatten
charset_loop-fault zero input pre cs b r a e short f = absurd (omega arith)
charset_loop-fault (suc fuel) input pre [] b r a e short f =
    let c = cut input pre b r [] (e ∙ ap (λ t. pre ++ t) (sym (append-nil (b ∷ r)))) in
    rw (
      c.inside,
      c.byte_here,
      past_end fuel input (length pre + char_len b)
          (omega (arith, ap length e, length-append pre (b ∷ r))) (omega arith),
    )
charset_loop-fault (suc fuel) input pre ([] ∷ cs) b r a e short f = absurd a
charset_loop-fault (suc fuel) input pre ((b' ∷ r') ∷ cs) b r a e short f =
    let c =
      cut input pre b' r' (flatten cs ++ (b ∷ r))
        (e ∙ ap (λ t. pre ++ t) (append_assoc (b' ∷ r') (flatten cs) (b ∷ r))) in
    let next = charset_loop-fault fuel input (pre ++ (b' ∷ r')) cs b r a.1 c.next_input short (
      omega (
        arith,
        ap length (append_assoc (b' ∷ r') (flatten cs) (b ∷ r)),
        length-append (b' ∷ r') (flatten cs ++ (b ∷ r)),
      )) in
    rw (c.inside, c.byte_here, a.0, c.next_pos, next)

-- On strings of such lengths followed by bytes that begin one more and do not complete it, the
-- function reads past the end of the string.
utf8_to_charset-fault :
    (cs output : List (List ℕ)) (b : ℕ) (r : List ℕ)
    → AreLed cs
    → suc (length r) < char_len b
    → utf8_to_charset (flatten cs ++ (b ∷ r)) output ≡ fault Fault.out_of_bounds
unfolding utf8_to_charset
utf8_to_charset-fault cs output b r a short = rw (
    charset_loop-fault (length (flatten cs ++ (b ∷ r)) + 1) (flatten cs ++ (b ∷ r)) [] cs b r a refl
      short (omega arith))
