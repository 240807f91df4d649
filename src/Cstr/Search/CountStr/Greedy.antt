-- ===== src/Cstr/Search/CountStr/Greedy.antt =====
-- Which places `cstr_count_str` counts.
use tiny_utils.Base.{
  ℕ, zero, suc, ◌+◌, ◌-◌, ◌^◌, ◌≤◌, ◌<◌, ◌≡◌, inl, inr, refl, ap, ◌∙◌, true, false, some, List,
  length, get_or, ok, ltb, ◌==◌, arith, Bool-cases,
}
use tiny_utils.Base.Int.{pos, negsuc}
use tiny_utils.Cstr.Capacity.{u32}
use tiny_utils.Cstr.Memory.{Cstr, IsValid}
use tiny_utils.Cstr.Search.Spec.{MatchAt, FindsFirst}
use tiny_utils.Cstr.Search.Sunday.{search_max_len, cstr_find_first}
use tiny_utils.Cstr.Search.Sunday.Shift.{IsAscii}
use tiny_utils.Cstr.Search.Sunday.First.{sunday_search_first-FindsFirst}
use tiny_utils.Cstr.Search.CountStr.{as_u32, count_str_loop, cstr_count_str}

-- From `begin` on there are `n` matches, each the first one that starts at least one byte after the end of
-- the match before it.
pub data Greedy (str bytes : List ℕ) (used : ℕ) : ℕ → ℕ → Type 0 where
  no_more :
      {begin : ℕ}
      → ((k : ℕ) → begin ≤ k → k + length str ≤ used → ¬ MatchAt str bytes k)
      → Greedy str bytes used begin zero
  one_more :
      {begin n : ℕ} (i : ℕ)
      → begin ≤ i
      → i + length str ≤ used
      → MatchAt str bytes i
      → ((k : ℕ) → begin ≤ k → k < i → ¬ MatchAt str bytes k)
      → Greedy str bytes used (i + length str + 1) n
      → Greedy str bytes used begin (suc n)

module _ (c : Cstr) (str : List ℕ) (v : IsValid c)
    (ascii : (k : ℕ) → k ≤ c.used → get_or c.bytes k 0 < 128) (a : IsAscii str)
    (nonempty : 0 < length str) (short : length str < search_max_len) where
  finds :
      (begin : ℕ) → FindsFirst str c.used c.bytes begin (cstr_find_first (some c) (some str) begin)
  unfolding cstr_find_first
  finds begin = sunday_search_first-FindsFirst c str begin v ascii a nonempty short

  count_step :
      (fuel begin count i : ℕ)
      → ltb begin c.used ≡ true
      → cstr_find_first (some c) (some str) begin ≡ ok (pos i)
      → i + length str ≤ c.used
      → count_str_loop (suc fuel) c str (length str) begin count
        ≡ count_str_loop fuel c str (length str) (i + length str + 1) (count + 1)
  unfolding count_str_loop
  count_step fuel begin count i inside e fits =
      let next : u32 (u32 i + length str + 1) ≡ i + length str + 1 =
        omega (arith, v.small, v.fits) in
      let found : (u32 i == as_u32 (negsuc 0)) ≡ false = ground (arith, v.small, v.fits) in
      rw (inside, e, found, next) refl

  count_str_loop_lem :
      (fuel begin count : ℕ)
      → c.used < begin + fuel
      → 0 < fuel
      → (n : ℕ) × (count_str_loop fuel c str (length str) begin count ≡ ok (count + n))
        × Greedy str c.bytes c.used begin n
  count_str_loop_lem zero begin count enough f = absurd (omega arith)
  count_str_loop_lem (suc fuel) begin count enough f = elim (Bool-cases (ltb begin c.used)) [
    | inr past ↦ (
      0,
      unfold count_str_loop in rw past (ap ok (omega arith)),
      no_more (λ k low fits m. absurd (ground arith)),
    )
    | inl inside ↦ elim (finds begin) [
      | inr (e, none_at) ↦
          (0, unfold count_str_loop in rw (inside, e) (ap ok (omega arith)), no_more none_at)
      | inl (i, e, low, fits, m, first) ↦
          let next = i + length str + 1 in
          let (n, e', g) = count_str_loop_lem fuel next (count + 1) (omega arith) (omega arith) in
          (
            suc n,
            count_step fuel begin count i inside e fits ∙ e' ∙ ap ok (omega arith),
            one_more i low fits m first g,
          )
    ]
  ]

-- On a valid string of bytes below 128, the final byte included, and for a text of 1 to 255 such bytes,
-- `cstr_count_str` returns how many matches there are from `begin` on when each must start at least one byte
-- after the end of the match before it, taken from the left.
pub cstr_count_str-Greedy :
    (c : Cstr) (str : List ℕ) (begin : ℕ)
    → IsValid c
    → ((k : ℕ) → k ≤ c.used → get_or c.bytes k 0 < 128)
    → IsAscii str
    → 0 < length str
    → length str < search_max_len
    → (n : ℕ) × (cstr_count_str (some c) (some str) begin ≡ ok n)
      × Greedy str c.bytes c.used begin n
unfolding cstr_count_str
cstr_count_str-Greedy c str begin v ascii a nonempty short =
    let len : u32 (length str) ≡ length str = omega arith in
    let some_bytes : (length str == 0) ≡ false = ground arith in
    elim (Bool-cases (ltb (u32 (c.used + 2 ^ 32 - begin)) (length str))) [
      | inl few ↦ (
        0,
        rw (len, few) refl,
        no_more (λ k low fits m. absurd (ground (arith, v.fits, v.small))),
      )
      | inr room ↦
          let (n, e, g) =
            count_str_loop_lem c str v ascii a nonempty short (c.used + 1) begin 0 (omega arith)
              (omega arith) in
          (n, rw (len, room, some_bytes) (e ∙ ap ok (omega arith)), g)
    ]
