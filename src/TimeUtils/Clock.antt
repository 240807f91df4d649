-- ===== src/TimeUtils/Clock.antt =====
-- What the functions of c_utils/timeutils.cpp return.
use tiny_utils.Base.{
  ℕ, ◌+◌, ◌*◌, ◌≤◌, ◌<◌, ◌≡◌, ◌⊎◌, inl, inr, refl, ap, ◌∙◌, List, length, ltb, ltb→lt, lt→ltb,
  Bool-cases, arith,
}
use tiny_utils.Base.Int.{ℤ, pos, negsuc}
use tiny_utils.TimeUtils.{
  Tm, seconds_of_day, date_time_format, CTime, in_buffer, str_date_2_time, time_2_date_str,
  get_today_x_clock_time,
}

-- The hour `x` of the day of `now`, or 0 for what is no hour.
abbrev pub AtHour : (c : CTime) (now : ℕ) → ℤ → ℕ → Type 0
AtHour c now (negsuc n) r = r ≡ 0
AtHour c now (pos x) r =
    ((24 < x) × (r ≡ 0)) ⊎ ((x ≤ 24) × (r + seconds_of_day (c.localtime now) ≡ now + 3600 * x))

-- For an hour from 0 to 24 the result is that many hours behind the last midnight, in local time; any other
-- number gives 0. The zone keeps its offset, and the last midnight is not before the Epoch.
pub get_today_x_clock_time-AtHour :
    (c : CTime) (now : ℕ) (x : ℤ)
    → seconds_of_day (c.localtime now) ≤ now
    → AtHour c now x (get_today_x_clock_time c now x)
unfolding get_today_x_clock_time
get_today_x_clock_time-AtHour c now (negsuc n) h = refl
get_today_x_clock_time-AtHour c now (pos x) h = elim (Bool-cases (ltb 24 x)) [
  | inl over ↦ rw over (inl (ltb→lt 24 x over, refl))
  | inr hour ↦ rw hour (
      inr (
        ground arith,
        omega (
          arith,
          c.other_clock (c.localtime now) x 0 0 (omega (arith, c.mktime_localtime now)),
          c.mktime_localtime now,
        ),
      ))
]

-- A time that is written as text and read back is the same time, provided that the text fits the buffer and
-- that the uninitialised `tm_isdst` happens to be that of the time.
pub str_date_2_time-time_2_date_str :
    (c : CTime) (garbage : Tm) (t : ℕ) (format : List ℕ)
    → length (c.strftime date_time_format (c.localtime t)) < 24
    → garbage.tm_isdst ≡ (c.localtime t).tm_isdst
    → str_date_2_time c garbage (time_2_date_str c t format) date_time_format ≡ t
unfolding str_date_2_time time_2_date_str
str_date_2_time-time_2_date_str c garbage t format fits same =
    ap (λ (text : List ℕ). c.mktime (c.strptime text date_time_format garbage)) whole
    ∙ ap c.mktime (c.strptime_strftime (c.localtime t) garbage ∙ same_tm)
    ∙ c.mktime_localtime t
  where
    whole :
        in_buffer 24 (c.strftime date_time_format (c.localtime t))
        ≡ c.strftime date_time_format (c.localtime t)
    whole = rw (lt→ltb _ _ fits) refl

    same_tm : record (c.localtime t) { tm_isdst = garbage.tm_isdst } ≡ c.localtime t
    same_tm = ap (λ (d : ℕ). record (c.localtime t) { tm_isdst = d }) same
