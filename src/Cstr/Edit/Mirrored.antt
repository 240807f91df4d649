-- ===== src/Cstr/Edit/Mirrored.antt =====
-- The loop of `cstr_reverse` of c_utils/cstr.c.
use tiny_utils.Base.{
  ℕ, zero, suc, ◌+◌, ◌-◌, ◌*◌, ◌≤◌, ◌<◌, ◌≡◌, ◌≢◌, inl, inr, refl, sym, ap, ◌∙◌, false, some, List,
  length, set, get_or, ok, ltb, ◌==◌, arith, length-set, load_lem, store_lem, Bool-cases, ltb→lt,
  lt→ltb, get_or-set_self, get_or-set_ne, ℕ_discrete,
}
use tiny_utils.Cstr.Memory.{Cstr}
use tiny_utils.Cstr.Edit.{swap_loop, cstr_reverse}

-- From `beg` up to `end` the bytes stand in the reverse order, elsewhere they stand as before.
pub record Mirrored (bytes : List ℕ) (beg end : ℕ) (b : List ℕ) : Type 0 where
  pub size : length b ≡ length bytes
  pub inside : (k : ℕ) → beg ≤ k → k < end → get_or b k 0 ≡ get_or bytes (beg + end - 1 - k) 0
  pub before : (k : ℕ) → k < beg → get_or b k 0 ≡ get_or bytes k 0
  pub after : (k : ℕ) → end ≤ k → get_or b k 0 ≡ get_or bytes k 0

swapped : List ℕ → ℕ → ℕ → List ℕ
swapped bytes beg end =
    set (set bytes beg (get_or bytes (end - 1) 0)) (end - 1) (get_or bytes beg 0)

module _ (bytes : List ℕ) (beg end : ℕ) (more : beg + 1 < end) (room : end ≤ length bytes) where
  abbrev last : ℕ
  last = end - 1

  length-swapped : length (swapped bytes beg end) ≡ length bytes
  unfolding swapped
  length-swapped =
      length-set (set bytes beg (get_or bytes last 0)) last (get_or bytes beg 0)
      ∙ length-set bytes beg (get_or bytes last 0)

  swapped_first : get_or (swapped bytes beg end) beg 0 ≡ get_or bytes last 0
  unfolding swapped
  swapped_first =
      get_or-set_ne (set bytes beg (get_or bytes last 0)) (get_or bytes beg 0) 0
        (λ (e : last ≡ beg). omega arith)
      ∙ get_or-set_self bytes beg (get_or bytes last 0) 0 (omega arith)

  swapped_last : get_or (swapped bytes beg end) last 0 ≡ get_or bytes beg 0
  unfolding swapped
  swapped_last =
      get_or-set_self (set bytes beg (get_or bytes last 0)) last (get_or bytes beg 0) 0
        (omega (arith, length-set bytes beg (get_or bytes last 0)))

  swapped_other :
      (k : ℕ) → beg ≢ k → last ≢ k → get_or (swapped bytes beg end) k 0 ≡ get_or bytes k 0
  unfolding swapped
  swapped_other k a b =
      get_or-set_ne (set bytes beg (get_or bytes last 0)) (get_or bytes beg 0) 0 b
      ∙ get_or-set_ne bytes (get_or bytes last 0) 0 a

  swap_once :
      (fuel : ℕ)
      → swap_loop (suc fuel) bytes beg end
        ≡ swap_loop fuel (swapped bytes beg end) (beg + 1) (end - 1)
  unfolding swap_loop swapped
  swap_once fuel =
      rw
        (
          lt→ltb (beg + 1) end more,
          load_lem bytes beg 0 (omega arith),
          load_lem bytes last 0 (omega arith),
          store_lem bytes beg (get_or bytes last 0) (omega arith),
          store_lem (set bytes beg (get_or bytes last 0)) last (get_or bytes beg 0)
              (omega (arith, length-set bytes beg (get_or bytes last 0))),
        )
        refl

  Mirrored-swapped :
      (b : List ℕ)
      → Mirrored (swapped bytes beg end) (beg + 1) (end - 1) b
      → Mirrored bytes beg end b
  Mirrored-swapped b m = record {
    size = m.size ∙ length-swapped;
    inside = λ k low high. elim (ℕ_discrete beg k) [
      | yes first ↦
          let place : beg + end - 1 - k ≡ last = omega arith in
          m.before k (omega arith)
          ∙ ap (λ (n : ℕ). get_or (swapped bytes beg end) n 0) (sym first)
          ∙ swapped_first
          ∙ ap (λ (n : ℕ). get_or bytes n 0) (sym place)
      | no not_first ↦ elim (ℕ_discrete last k) [
        | yes final ↦
            let place : beg + end - 1 - k ≡ beg = omega arith in
            m.after k (omega arith)
            ∙ ap (λ (n : ℕ). get_or (swapped bytes beg end) n 0) (sym final)
            ∙ swapped_last
            ∙ ap (λ (n : ℕ). get_or bytes n 0) (sym place)
        | no inner ↦
            let place : beg + 1 + (end - 1) - 1 - k ≡ beg + end - 1 - k = omega arith in
            m.inside k (omega arith) (omega arith)
            ∙ ap (λ (n : ℕ). get_or (swapped bytes beg end) n 0) place
            ∙ swapped_other (beg + end - 1 - k) (λ e. omega arith) (λ e. omega arith)
      ]
    ];
    before =
        λ k h. m.before k (omega arith) ∙ swapped_other k (λ e. omega arith) (λ e. omega arith);
    after = λ k h. m.after k (omega arith) ∙ swapped_other k (λ e. omega arith) (λ e. omega arith);
  }

swap_done :
    (fuel : ℕ) (bytes : List ℕ) (beg end : ℕ)
    → ltb (beg + 1) end ≡ false
    → swap_loop fuel bytes beg end ≡ ok bytes
unfolding swap_loop
swap_done zero bytes beg end done = rw done refl
swap_done (suc fuel) bytes beg end done = rw done refl

-- A range of one byte or none is its own reverse.
Mirrored-short : (bytes : List ℕ) (beg end : ℕ) → end ≤ beg + 1 → Mirrored bytes beg end bytes
Mirrored-short bytes beg end short = record {
  size = refl;
  inside = λ k low high.
      let place : k ≡ beg + end - 1 - k = omega arith in ap (λ (n : ℕ). get_or bytes n 0) place;
  before = λ k h. refl;
  after = λ k h. refl;
}

swap_loop_lem :
    (fuel : ℕ) (bytes : List ℕ) (beg end : ℕ)
    → end ≤ length bytes
    → end ≤ beg + 1 + 2 * fuel
    → (b : List ℕ) × (swap_loop fuel bytes beg end ≡ ok b) × Mirrored bytes beg end b
swap_loop_lem zero bytes beg end room enough =
    (bytes, swap_done zero bytes beg end (ground arith), Mirrored-short bytes beg end (omega arith))
swap_loop_lem (suc fuel) bytes beg end room enough = elim (Bool-cases (ltb (beg + 1) end)) [
  | inr done ↦
      (bytes, swap_done (suc fuel) bytes beg end done, Mirrored-short bytes beg end (ground arith))
  | inl going ↦
      let more = ltb→lt (beg + 1) end going in
      let (b, e, m) =
        swap_loop_lem fuel (swapped bytes beg end) (beg + 1) (end - 1)
          (omega (arith, length-swapped bytes beg end more room)) (omega arith) in
      (b, swap_once bytes beg end more room fuel ∙ e, Mirrored-swapped bytes beg end more room b m)
]

pub cstr_reverse-Mirrored :
    (c : Cstr)
    → c.used ≤ length c.bytes
    → (b : List ℕ) × (cstr_reverse (some c) ≡ ok (record c { bytes = b }))
      × Mirrored c.bytes 0 c.used b
unfolding cstr_reverse
cstr_reverse-Mirrored c room = elim (Bool-cases (c.used == 1)) [
  | inl one ↦ (c.bytes, rw one refl, Mirrored-short c.bytes 0 c.used (ground arith))
  | inr other ↦
      let (b, e, m) = swap_loop_lem c.used c.bytes 0 c.used room (omega arith) in
      (b, rw (other, e) refl, m)
]
