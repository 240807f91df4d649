-- ===== src/Cstr/Capacity/Laws.antt =====
-- What the sizing functions return.
use tiny_utils.Base.{
  ℕ, zero, suc, ◌+◌, ◌*◌, ◌/◌, ◌^◌, ◌≤◌, ◌<◌, ◌≡◌, refl, ap, ◌⊎◌, inl, inr, arith, ltb, ◌==◌,
  Bool-cases, true, false,
}
use native.Mathlib.Nat.{pow-suc}
use tiny_utils.Cstr.Capacity.{
  double_until, halve_until, round_up_power_2, round_down_power_2, fresh_cap, cal_fit_cap, min_size,
  max_size, u32, midium_max_size,
}

abbrev pub IsLeastPower : ℕ → ℕ → Type 0
IsLeastPower size p = (j : ℕ) × (p ≡ 2 ^ j) × (j ≤ 31) × (size ≤ p) × ((p ≡ 1) ⊎ (p < 2 * size))

abbrev pub IsGreatestPower : ℕ → ℕ → Type 0
IsGreatestPower size p = (j : ℕ) × (p ≡ 2 ^ j) × (j ≤ 31) × (p ≤ size) × (size < 2 * p)

double_until_lem :
    (fuel k size : ℕ)
    → k + fuel ≡ 32
    → size ≤ 2 ^ 31
    → (2 ^ k ≡ 1) ⊎ (2 ^ k < 2 * size)
    → IsLeastPower size (double_until fuel size (2 ^ k))
unfolding double_until
double_until_lem zero k size e h low = absurd (omega (arith, ap (λ (t : ℕ). 2 ^ t) (k32 e)))
  where
    k32 : k + 0 ≡ 32 → k ≡ 32
    k32 q = omega arith
double_until_lem (suc fuel) k size e h low = elim (Bool-cases (ltb (2 ^ k) size)) [
  | inl more ↦
      rw more (
        rw (← doubled more) (double_until_lem fuel (suc k) size (omega arith) h (inr (below more))))
  | inr done ↦ rw done (k, refl, omega arith, ground arith, low)
]
  where
    doubled : ltb (2 ^ k) size ≡ true → 2 ^ suc k ≡ u32 (2 ^ k * 2)
    doubled more = ground (arith, pow-suc 2 k)

    below : ltb (2 ^ k) size ≡ true → 2 ^ suc k < 2 * size
    below more = ground (arith, pow-suc 2 k)

halve_until_lem :
    (fuel k size : ℕ)
    → k < fuel
    → k ≤ 31
    → 0 < size
    → size < 2 * 2 ^ k
    → IsGreatestPower size (halve_until fuel size (2 ^ k))
unfolding halve_until
halve_until_lem zero k size e b h up = absurd (omega arith)
halve_until_lem (suc fuel) zero size e b h up =
    (0, ground arith, omega arith, ground arith, ground arith)
halve_until_lem (suc fuel) (suc k) size e b h up = elim (Bool-cases (ltb size (2 ^ suc k))) [
  | inl more ↦
      rw more
        (rw (← halved) (halve_until_lem fuel k size (omega arith) (omega arith) h (above more)))
  | inr done ↦ rw done (suc k, refl, b, ground arith, up)
]
  where
    halved : 2 ^ k ≡ 2 ^ suc k / 2
    halved = ground (arith, pow-suc 2 k)

    above : ltb size (2 ^ suc k) ≡ true → size < 2 * 2 ^ k
    above more = ground (arith, pow-suc 2 k)

-- Up to 2^31 the result is the least power of two that is not below `size`.
pub round_up_power_2-IsLeastPower :
    (size : ℕ) → size ≤ 2 ^ 31 → IsLeastPower size (round_up_power_2 size)
unfolding round_up_power_2
round_up_power_2-IsLeastPower size h =
    rw (small size h) (double_until_lem 32 0 size (omega arith) h (inl refl))
  where
    small : (n : ℕ) → n ≤ 2 ^ 31 → ltb (2 ^ 31) n ≡ false
    small n h = ground arith

-- Up to 2^31, and from 1 on, the result is the greatest power of two that is not above `size`.
round_down_power_2-IsGreatestPower :
    (size : ℕ) → 0 < size → size ≤ 2 ^ 31 → IsGreatestPower size (round_down_power_2 size)
unfolding round_down_power_2
round_down_power_2-IsGreatestPower size pos h =
    rw (ne, small) (halve_until_lem 32 31 size (omega arith) (omega arith) pos (omega arith))
  where
    ne : (size == 0) ≡ false
    ne = ground arith

    small : ltb (2 ^ 31) size ≡ false
    small = ground arith

round_up_bounds :
    (size : ℕ)
    → 32 ≤ size
    → size ≤ midium_max_size
    → (size ≤ round_up_power_2 size) × (round_up_power_2 size ≤ max_size)
round_up_bounds size low high =
    let (j, e, small, above, tight) = round_up_power_2-IsLeastPower size (omega arith) in
    (above, omega arith)

-- For sizes up to the maximum the new capacity lies between the smallest size and the maximum, and
-- holds what is used.
pub cal_fit_cap_bounds :
    (total_cap total_used : ℕ)
    → total_cap ≤ max_size
    → total_used ≤ max_size
    → (min_size ≤ cal_fit_cap total_cap total_used)
      × (total_used ≤ cal_fit_cap total_cap total_used)
      × (cal_fit_cap total_cap total_used ≤ max_size)
unfolding cal_fit_cap fresh_cap
cal_fit_cap_bounds total_cap total_used h k = ground (arith, round_up_bounds total_used)
