-- ===== src/Cstr/Search/BoyerMoore/BadChar.antt =====
-- The table of `bm_bad_char_shift_table` of c_utils/cstr.c.
use tiny_utils.Base.{
  ℕ, suc, ◌+◌, ◌<◌, ◌≡◌, refl, sym, ap, ◌∙◌, subst, List, [], ◌∷◌, length, set, replicate, get_or,
  ok, arith, length-set, length-replicate, store_lem, lt→ltb, get_or-set_self, get_or-set_ne,
  get_or-replicate, ℕ_discrete, dec_lt,
}
use tiny_utils.Base.Int.{ℤ, pos, negsuc, ◌≤ℤ◌}
use tiny_utils.Cstr.Search.Sunday.{search_max_len}
use tiny_utils.Cstr.Search.Sunday.Shift.{IsAscii}
use tiny_utils.Cstr.Search.BoyerMoore.{bad_char_loop, bm_bad_char_shift_table}

abbrev pub last_place : List ℤ → ℕ → ℤ
last_place t c = get_or t c (negsuc 0)

-- For each byte the table holds -1 or more, and no place before `n` where the byte stands is later than
-- what it holds.
pub record IsLast (pattern : List ℕ) (n : ℕ) (t : List ℤ) : Type 0 where
  pub size : length t ≡ search_max_len
  pub low : (c : ℕ) → c < 128 → negsuc 0 ≤ℤ last_place t c
  pub last : (c j : ℕ) → c < 128 → j < n → get_or pattern j 0 ≡ c → pos j ≤ℤ last_place t c

set-IsLast :
    (pattern : List ℕ) (i : ℕ) (t : List ℤ)
    → IsLast pattern i t
    → get_or pattern i 0 < 128
    → IsLast pattern (i + 1) (set t (get_or pattern i 0) (pos i))
set-IsLast pattern i t s small =
    let k = get_or pattern i 0 in
    let self = get_or-set_self t k (pos i) (negsuc 0) (omega (arith, s.size)) in
    record {
      size = length-set t k (pos i) ∙ s.size;
      low = λ c q. elim (ℕ_discrete k c) [
        | yes e ↦
            subst (λ (n : ℕ). negsuc 0 ≤ℤ last_place (set t k (pos i)) n) e (rw self (omega arith))
        | no ne ↦ rw (get_or-set_ne t (pos i) (negsuc 0) ne) (s.low c q)
      ];
      last = λ c j q lt e. elim (ℕ_discrete k c) [
        | yes same ↦
            subst (λ (n : ℕ). pos j ≤ℤ last_place (set t k (pos i)) n) same (rw self (omega arith))
        | no ne ↦ rw (get_or-set_ne t (pos i) (negsuc 0) ne) (
            s.last c j q
              (elim (ℕ_discrete j i) [
                | yes now ↦ absurd (ne (ap (λ (n : ℕ). get_or pattern n 0) (sym now) ∙ e))
                | no before ↦ omega arith
              ])
              e)
      ];
    }

bad_char_loop_lem :
    (pattern : List ℕ) (i : ℕ) (rest : List ℕ) (t : List ℤ)
    → i + length rest ≡ length pattern
    → ((k : ℕ) → get_or rest k 0 ≡ get_or pattern (i + k) 0)
    → IsAscii rest
    → IsLast pattern i t
    → (u : List ℤ) × (bad_char_loop i rest t ≡ ok u) × IsLast pattern (length pattern) u
unfolding bad_char_loop
bad_char_loop_lem pattern i [] t e view a s =
    let all : i ≡ length pattern = omega arith in
    (t, refl, subst (λ (n : ℕ). IsLast pattern n t) all s)
bad_char_loop_lem pattern i (c ∷ rest) t e view a s =
    let here : i + 0 ≡ i = omega arith in
    let same : get_or pattern i 0 ≡ c =
      ap (λ (n : ℕ). get_or pattern n 0) (sym here) ∙ sym (view 0) in
    let (u, eq, s') =
      bad_char_loop_lem pattern (i + 1) rest (set t c (pos i)) (omega arith)
        (λ k.
          let next : i + suc k ≡ i + 1 + k = omega arith in
          view (suc k) ∙ ap (λ (n : ℕ). get_or pattern n 0) next)
        a.1
        (subst (λ (n : ℕ). IsLast pattern (i + 1) (set t n (pos i))) same
          (set-IsLast pattern i t s (omega (arith, same, a.0)))) in
    (u, rw (lt→ltb c 128 a.0, store_lem t c (pos i) (omega (arith, s.size, a.0))) eq, s')

pub bm_bad_char_shift_table-IsLast :
    (pattern : List ℕ)
    → IsAscii pattern
    → (t : List ℤ) × (bm_bad_char_shift_table pattern ≡ ok t) × IsLast pattern (length pattern) t
unfolding bm_bad_char_shift_table
bm_bad_char_shift_table-IsLast pattern a =
    bad_char_loop_lem pattern 0 pattern (replicate search_max_len (negsuc 0)) (omega arith)
      (λ k. ap (λ (n : ℕ). get_or pattern n 0) (omega arith)) a
      (record {
        size = length-replicate search_max_len (negsuc 0);
        low = λ c h. elim (dec_lt c search_max_len) [
          | yes q ↦ rw (get_or-replicate search_max_len (negsuc 0) c (negsuc 0) q) (omega arith)
          | no q ↦ absurd (omega arith)
        ];
        last = λ c j h lt. absurd (omega arith);
      })
