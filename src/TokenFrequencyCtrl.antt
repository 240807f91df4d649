-- ===== src/TokenFrequencyCtrl.antt =====
-- cpp_utils/token_frequency_control.cpp, class TokenFrequencyCtrl. The clock's reading is an argument.
pub mod Elapsed
pub mod Bounded
mod Tests
use tiny_utils.Base.{
  ℕ, zero, suc, ◌+◌, ◌-◌, ◌*◌, ◌%◌, ◌^◌, ◌≤◌, ◌<◌, ◌≡◌, ◌≢◌, ◌↔◌, ◌⊎◌, inl, inr, min, refl, sym, ap,
  ◌∙◌, subst, Bool, true, false, not, Option, none, some, List, [], ◌∷◌, ◌++◌, map, length, take,
  drop, set, replicate, get_or, get_elem?, Outcome, ok, fault, Fault, ◌>>=◌, from_option, load,
  store, ltb, leb, ◌==◌, ◌||◌, ◌&&◌, if◌then◌else◌, arith, length-append, length-take, length-drop,
  length-set, length-replicate, take-append-drop, take-append, drop-append, take-append_le,
  take-append_ge, take-take, take-set_le, load_lem, store_lem, Bool-cases, Option-cases, ltb→lt,
  lt→ltb, leb→le, ==_iff,
}
use tiny_utils.Base.Int.{to_int, ℤ, pos, negsuc, sub_ℕ, ◌+ℤ◌, ◌-ℤ◌, ◌*ℤ◌, ltb_ℤ}
use tiny_utils.Base.{◌/◌}

-- `struct timeval`
pub record Timeval : Type 0 where
  pub tv_sec : ℕ
  pub tv_usec : ℕ

pub record TokenFrequencyCtrl : Type 0 where
  pub token_num : ℤ
  pub token_rate : ℤ
  pub capacity : ℤ
  pub last_access_time : Timeval

abbrev pub create : ℤ → ℤ → Timeval → TokenFrequencyCtrl
create capacity token_rate now = record {
  token_num = pos 0;
  token_rate = token_rate;
  capacity = capacity;
  last_access_time = now;
}

-- Division by 1000 that rounds towards 0.
abbrev pub per_thousand : ℤ → ℤ
per_thousand (pos n) = pos (n / 1000)
per_thousand (negsuc n) = sub_ℕ 0 ((n + 1) / 1000)

-- Milliseconds since the last call, a `long`.
abbrev pub milliseconds : Timeval → Timeval → ℤ
milliseconds tv last =
    pos 1000 *ℤ (pos tv.tv_sec -ℤ pos last.tv_sec)
    +ℤ per_thousand (pos tv.tv_usec -ℤ pos last.tv_usec)

-- The `int` that keeps them.
unfoldable pub time_elapse : Timeval → Timeval → ℤ
time_elapse tv last = to_int (milliseconds tv last)

-- The tokens at the time of a call; a product or a sum that overflows an `int` is taken to wrap.
unfoldable pub refilled : Timeval → TokenFrequencyCtrl → ℤ
refilled tv s =
    let tmp_tokens =
      to_int (s.token_num +ℤ to_int (s.token_rate *ℤ time_elapse tv s.last_access_time)) in
    if ltb_ℤ tmp_tokens s.capacity then tmp_tokens else s.capacity

unfoldable pub grant : Timeval → TokenFrequencyCtrl → Bool × TokenFrequencyCtrl
grant tv s =
    let s' = record s { token_num = refilled tv s; last_access_time = tv } in
    if ltb_ℤ s'.token_num (pos 1)
    then (false, s')
    else (true, record s' { token_num = s'.token_num -ℤ pos 1 })
