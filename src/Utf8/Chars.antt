-- ===== src/Utf8/Chars.antt =====
-- What `utf8_substr` of c_utils/utf8_substr.cpp gives on a string of whole characters.
use mathlib.Core.List.{flatten, append-nil}
use mathlib.Core.Path.{ap₂}
use tiny_utils.Base.{
  ℕ, zero, suc, ◌+◌, ◌-◌, ◌≡◌, ◌<◌, refl, sym, ap, ◌∙◌, List, [], ◌∷◌, ◌++◌, length, take, drop, ok,
  ltb, ◌==◌, arith, length-append, true, false, Bool-cases, take_of_pos, drop_of_pos, take-nil,
  drop-nil, inl, inr,
}
use tiny_utils.Utf8.{substr_loop, utf8_substr}
use tiny_utils.Utf8.Encoded.{AreChars, AreLed, AreChars-AreLed, cut, at_end}

module _ {A : Type 0} (c : A) (cs : List A) (k n : ℕ) where
  pick_later : 0 < k → take n (drop k (c ∷ cs)) ≡ take n (drop (k - 1) cs)
  pick_later h = ap (take n) (drop_of_pos k c cs h)

  pick_here : k ≡ 0 → 0 < n → take n (drop k (c ∷ cs)) ≡ c ∷ take (n - 1) (drop (k - 1) cs)
  pick_here e h =
      let none_before : 0 ≡ k - 1 = omega arith in
      ap (λ t. take n (drop t (c ∷ cs))) e
      ∙ take_of_pos n c cs h
      ∙ ap (λ t. c ∷ take (n - 1) (drop t cs)) none_before

substr_loop_lem :
    (fuel : ℕ) (input pre : List ℕ) (cs : List (List ℕ)) (pos n cur_pos added_len : ℕ)
    → AreLed cs
    → input ≡ pre ++ flatten cs
    → length (flatten cs) < fuel
    → added_len < n
    → substr_loop fuel input pos n (length pre) cur_pos added_len
      ≡ ok (flatten (take (n - added_len) (drop (pos - 1 - cur_pos) cs)))
unfolding substr_loop flatten
substr_loop_lem zero input pre cs pos n cur_pos added_len a e f lt = absurd (omega arith)
substr_loop_lem (suc fuel) input pre [] pos n cur_pos added_len a e f lt =
    rw (at_end input pre e, drop-nil (pos - 1 - cur_pos), take-nil (n - added_len))
substr_loop_lem (suc fuel) input pre ([] ∷ cs) pos n cur_pos added_len a e f lt = absurd a
substr_loop_lem (suc fuel) input pre ((b ∷ r) ∷ cs) pos n cur_pos added_len a e f lt =
    let c = cut input pre b r (flatten cs) e in
    let next = λ (k : ℕ).
      substr_loop_lem fuel input (pre ++ (b ∷ r)) cs pos n (cur_pos + 1) k a.1 c.next_input
        (omega (arith, length-append (b ∷ r) (flatten cs))) in
    elim (Bool-cases (ltb (cur_pos + 1) pos)) [
      | inl before ↦
          rw (c.inside, c.byte_here, a.0, before, c.next_pos, next added_len lt)
            (ap ok (
              ap flatten (
                ap (λ k. take (n - added_len) (drop k cs)) (omega arith)
                ∙ sym (pick_later (b ∷ r) cs (pos - 1 - cur_pos) (n - added_len) (ground arith)))))
      | inr inside ↦ elim (Bool-cases (added_len + 1 == n)) [
        | inl last ↦
            rw (c.inside, c.byte_here, a.0, inside, last, c.char_here)
              (ap ok (
                sym (append-nil (b ∷ r))
                ∙ ap flatten (
                    ap (λ k. (b ∷ r) ∷ take k (drop (pos - 1 - cur_pos - 1) cs)) (zero_left last)
                    ∙ sym (
                        pick_here (b ∷ r) cs (pos - 1 - cur_pos) (n - added_len) (ground arith)
                          (omega arith)))))
        | inr more ↦
            rw
              (
                c.inside,
                c.byte_here,
                a.0,
                inside,
                more,
                c.char_here,
                c.next_pos,
                next (added_len + 1) (ground arith),
              )
              (ap ok (
                ap flatten (
                  picked inside
                  ∙ sym (
                      pick_here (b ∷ r) cs (pos - 1 - cur_pos) (n - added_len) (ground arith)
                        (omega arith)))))
      ]
    ]
  where
    zero_left : (added_len + 1 == n) ≡ true → 0 ≡ n - added_len - 1
    zero_left last = ground arith

    picked :
        ltb (cur_pos + 1) pos ≡ false
        → (b ∷ r) ∷ take (n - (added_len + 1)) (drop (pos - 1 - (cur_pos + 1)) cs)
          ≡ (b ∷ r) ∷ take (n - added_len - 1) (drop (pos - 1 - cur_pos - 1) cs)
    picked h = ap₂ (λ k j. (b ∷ r) ∷ take k (drop j cs)) (omega arith) (omega arith)

utf8_substr-AreLed :
    (cs : List (List ℕ)) (pos n : ℕ)
    → AreLed cs
    → utf8_substr (flatten cs) pos n ≡ ok (flatten (take n (drop (pos - 1) cs)))
unfolding utf8_substr flatten
utf8_substr-AreLed cs pos zero a = refl
utf8_substr-AreLed cs pos (suc n) a =
    rw
      (
        wanted,
        substr_loop_lem (length (flatten cs) + 1) (flatten cs) [] cs pos (suc n) 0 0 a refl
            (omega arith) (omega arith),
      )
      (ap₂ (λ k j. ok (flatten (take k (drop j cs)))) all_wanted from_pos)
  where
    all_wanted : suc n - 0 ≡ suc n
    all_wanted = omega arith

    from_pos : pos - 1 - 0 ≡ pos - 1
    from_pos = omega arith

    wanted : (suc n == 0) ≡ false
    wanted = ground arith

-- On a string of whole characters, each encoded in UTF-8 in one to six bytes, the result is `n` characters, or
-- as many as there are, from the `pos`-th on, counted from 1; a `pos` of 0 counts as 1.
pub utf8_substr-flatten :
    (cs : List (List ℕ)) (pos n : ℕ)
    → AreChars cs
    → utf8_substr (flatten cs) pos n ≡ ok (flatten (take n (drop (pos - 1) cs)))
utf8_substr-flatten cs pos n a = utf8_substr-AreLed cs pos n (AreChars-AreLed cs a)
