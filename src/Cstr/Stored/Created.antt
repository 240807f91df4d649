-- ===== src/Cstr/Stored/Created.antt =====
-- The constructors of c_utils/cstr.c.
use tiny_utils.Base.{
  ℕ, ◌+◌, ◌-◌, ◌^◌, ◌≤◌, ◌<◌, ◌≡◌, inl, inr, refl, sym, ap, ◌∙◌, subst, false, some, List, length,
  take, drop, set, ok, ltb, ◌==◌, arith, length-take, length-set, take_whole, take-append_le,
  take-take, store_lem, Bool-cases,
}
use native.Mathlib.Nat.{pow-le-pow_right}
use tiny_utils.Cstr.Capacity.{u32, min_size, max_size, overhead, round_up_power_2}
use tiny_utils.Cstr.Capacity.Laws.{round_up_power_2-IsLeastPower}
use tiny_utils.Cstr.Memory.{Cstr, IsValid, text}
use tiny_utils.Cstr.Block.{
  overwrite, Allocator, read_block_lem, write_block_lem, length-overwrite, take-overwrite_end,
}
use tiny_utils.Cstr.Create.{new_size, cstr_new_size, cstr_new_str, cstr_new}
use tiny_utils.Cstr.Stored.{Stores, HasMemory, text-set_end}

-- Powers of two below 2^30 are at most 2^29.
power_gap : (j : ℕ) → 2 ^ j < 2 ^ 30 → 2 ^ j ≤ max_size
power_gap j h = elim (Bool-cases (ltb j 30)) [
  | inl low ↦
      let le : j ≤ 29 = ground arith in
      let gap : 2 ^ j ≤ 2 ^ 29 = pow-le-pow_right (omega arith) le in omega (arith, gap)
  | inr high ↦
      let le : 30 ≤ j = ground arith in
      let gap : 2 ^ 30 ≤ 2 ^ j = pow-le-pow_right (omega arith) le in absurd (omega (arith, gap))
]

round_up_power_2_bounds :
    (size : ℕ)
    → 0 < size
    → size ≤ max_size
    → (size ≤ round_up_power_2 size) × (round_up_power_2 size ≤ max_size)
round_up_power_2_bounds size low high =
    let (j, e, small, above, tight) = round_up_power_2-IsLeastPower size (omega arith) in
    (above, subst (λ p. p ≤ max_size) (sym e) (power_gap j (omega arith)))

module _ (a : Allocator) where
  new_size_bounds :
      (cap : ℕ)
      → cap + overhead ≤ max_size
      → (cap + overhead ≤ new_size a cap)
        × (min_size ≤ new_size a cap)
        × (new_size a cap ≤ max_size)
  unfolding new_size
  new_size_bounds cap h =
      let b = round_up_power_2_bounds (u32 (cap + overhead)) (omega arith) (omega arith) in
      ground (arith, b)

module _ (a : Allocator) (m : HasMemory a) where
  -- With memory, `cstr_new_size` gives a valid empty string with room for `n` bytes, if these fit
  -- the maximal size.
  cstr_new_size-IsValid :
      (n : ℕ)
      → n + overhead ≤ max_size
      → (c : Cstr) × (cstr_new_size a n ≡ ok (some c)) × IsValid c × (c.used ≡ 0) × (n ≤ c.cap)
  unfolding cstr_new_size
  cstr_new_size-IsValid n h =
      let b = new_size_bounds a n h in
      let (bytes, e) = m.0 (new_size a n) (omega (arith, b)) in
      let size = a.malloc_size (new_size a n) bytes e in
      let fresh : (new_size a n == 0) ≡ false = ground (arith, b) in
      rw (fresh, e, store_lem bytes 0 0 (omega (arith, b, size)))
        (
          record { cap = new_size a n - overhead; used = 0; bytes = set bytes 0 0 },
          refl,
          record {
            fits = omega arith;
            backed = omega (arith, b, size, length-set bytes 0 0);
            small = omega (arith, b);
          },
          refl,
          omega (arith, b),
        )

  -- With memory, `cstr_new_str` of a text that fits the maximal size gives a valid string with that
  -- text.
  cstr_new_str-Stores :
      (str : List ℕ) → length str + overhead ≤ max_size → Stores str (cstr_new_str a (some str))
  unfolding cstr_new_str
  cstr_new_str-Stores str h =
      let size = u32 (length str) in
      let wide : size ≡ length str = omega arith in
      let (c, e, v, empty, room) = cstr_new_size-IsValid size (omega arith) in
      let part = take size str in
      let sized : length part ≡ size = omega (arith, length-take size str) in
      let fits : 0 + length part ≤ length c.bytes = omega (arith, sized, room, v.backed) in
      rw (e, read_block_lem str 0 size (omega arith), write_block_lem c.bytes part 0 fits)
        (text-set_end c (overwrite c.bytes 0 part) str size room
          (omega (arith, length-overwrite c.bytes part 0 fits, v.backed)) v.small
          (take-overwrite_end c.bytes part 0 size (omega (arith, sized)) fits
            ∙ ap (λ (k : ℕ). take k str) wide
            ∙ take_whole str))

  -- With memory, `cstr_new` of a valid string gives a valid string with the same text.
  cstr_new-Stores : (c : Cstr) → IsValid c → Stores (text c) (cstr_new a (some c))
  unfolding cstr_new
  cstr_new-Stores c v =
      let n = u32 (c.cap + overhead) in
      let (bytes, e) = m.0 n (omega (arith, v.small)) in
      let size = a.malloc_size n bytes e in
      let part = take (c.cap + 1) c.bytes in
      let sized : length part ≡ c.cap + 1 =
        omega (arith, length-take (c.cap + 1) c.bytes, v.backed) in
      let fits : 0 + length part ≤ length bytes = omega (arith, sized, size, v.small) in
      rw
        (
          e,
          read_block_lem c.bytes 0 (c.cap + 1) (omega (arith, v.backed)),
          write_block_lem bytes part 0 fits,
        )
        (text-set_end (record c { bytes = bytes }) (overwrite bytes 0 part) (text c) c.used v.fits
          (omega (arith, length-overwrite bytes part 0 fits, size, v.small)) v.small
          (take-append_le c.used part (drop (0 + length part) bytes) (omega (arith, sized, v.fits))
            ∙ take-take c.used (c.cap + 1) c.bytes (omega (arith, v.fits))))
