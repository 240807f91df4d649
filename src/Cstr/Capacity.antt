-- ===== src/Cstr/Capacity.antt =====
-- The sizing functions of c_utils/cstr.c, over 32-bit words.
pub mod Laws
use tiny_utils.Base.{
  ℕ, zero, suc, ◌+◌, ◌-◌, ◌*◌, ◌/◌, ◌%◌, ◌^◌, ◌||◌, ◌&&◌, ltb, leb, ◌==◌, if◌then◌else◌,
}

abbrev pub u32 : ℕ → ℕ
u32 n = n % 2 ^ 32

abbrev pub min_size : ℕ
min_size = 32

abbrev pub max_size : ℕ
max_size = 512 * 1024 * 1024

abbrev pub midium_max_size : ℕ
midium_max_size = 1024 * 1024

abbrev pub tiny_max_size : ℕ
tiny_max_size = 256

abbrev pub incr_max : ℕ
incr_max = 1024 * 1024

-- `CSTR_HDR_SIZE + 1`: two packed 32-bit fields, and the final byte.
abbrev pub overhead : ℕ
overhead = 8 + 1

-- `while(power_value < size) power_value = power_value << 1;` on fuel.
unfoldable pub double_until : ℕ → ℕ → ℕ → ℕ
double_until zero size power_value = power_value
double_until (suc fuel) size power_value =
    let rest = double_until fuel size (u32 (power_value * 2)) in
    if ltb power_value size then rest else power_value

-- `while(power_value > size) power_value = power_value >> 1;` on fuel.
pub halve_until : ℕ → ℕ → ℕ → ℕ
halve_until zero size power_value = power_value
halve_until (suc fuel) size power_value =
    let rest = halve_until fuel size (power_value / 2) in
    if ltb size power_value then rest else power_value

unfoldable pub round_up_power_2 : ℕ → ℕ
round_up_power_2 size = if ltb (2 ^ 31) size then 0 else double_until 32 size 1

pub round_down_power_2 : ℕ → ℕ
round_down_power_2 size =
    if size == 0 then 0 else if ltb (2 ^ 31) size then 0 else halve_until 32 size (2 ^ 31)

-- The capacity by the three size classes, before the old capacity is looked at.
unfoldable pub fresh_cap : ℕ → ℕ
fresh_cap total_used =
    if leb midium_max_size total_used
    then (let new_cap = u32 (total_used + incr_max) in
        if ltb max_size new_cap then max_size else new_cap)
    else if ltb total_used min_size
    then min_size
    else round_up_power_2 total_used

unfoldable pub cal_fit_cap : ℕ → ℕ → ℕ
cal_fit_cap total_cap total_used =
    if ltb max_size total_used || ltb max_size total_cap
    then 0
    else if total_used == max_size
    then max_size
    else (let new_cap = fresh_cap total_used in
        if ltb new_cap total_cap && leb total_cap tiny_max_size then total_cap else new_cap)
