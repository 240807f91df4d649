-- ===== src/TimeUtils/Tests.antt =====
-- A concrete C library for c_utils/timeutils.cpp, and the theorems with it.
use tiny_utils.Base.{ℕ, ◌+◌, ◌*◌, ◌/◌, ◌%◌, ◌≡◌, refl, List, [], ◌∷◌, arith}
use tiny_utils.Base.Int.{pos}
use tiny_utils.TimeUtils.{
  Tm, date_time_format, CTime, str_date_2_time, time_2_date_str, get_today_x_clock_time,
}
use tiny_utils.TimeUtils.Clock.{
  AtHour, get_today_x_clock_time-AtHour, str_date_2_time-time_2_date_str,
}

-- A calendar of days only.
day_of : ℕ → Tm
day_of t = record {
  tm_year = 0;
  tm_mon = 0;
  tm_mday = t / 86400;
  tm_hour = t % 86400 / 3600;
  tm_min = t % 3600 / 60;
  tm_sec = t % 60;
  tm_isdst = 0;
}

time_of : Tm → ℕ
time_of tm = 86400 * tm.tm_mday + 3600 * tm.tm_hour + 60 * tm.tm_min + tm.tm_sec

write_fields : List ℕ → Tm → List ℕ
write_fields format tm =
    tm.tm_year ∷ tm.tm_mon ∷ tm.tm_mday ∷ tm.tm_hour ∷ tm.tm_min ∷ tm.tm_sec ∷ []

read_fields : List ℕ → List ℕ → Tm → Tm
read_fields (y ∷ mo ∷ d ∷ h ∷ mi ∷ s ∷ []) format before = record {
  tm_year = y;
  tm_mon = mo;
  tm_mday = d;
  tm_hour = h;
  tm_min = mi;
  tm_sec = s;
  tm_isdst = before.tm_isdst;
}
read_fields _ format before = before

days : CTime
unfolding day_of time_of write_fields read_fields
days = record {
  localtime = day_of;
  mktime = time_of;
  strftime = write_fields;
  strptime = read_fields;
  mktime_localtime = λ t. omega arith;
  other_clock = λ tm h m s small. omega arith;
  strptime_strftime = λ tm before. refl;
}

-- 3 o'clock on the second day.
three_o_clock : get_today_x_clock_time days 90000 (pos 3) ≡ 97200
unfolding get_today_x_clock_time days day_of time_of
three_o_clock = refl

get_today_x_clock_time-AtHour_example :
    AtHour days 90000 (pos 3) (get_today_x_clock_time days 90000 (pos 3))
unfolding days day_of
get_today_x_clock_time-AtHour_example =
    get_today_x_clock_time-AtHour days 90000 (pos 3) (omega arith)

str_date_2_time-time_2_date_str_example :
    str_date_2_time days (day_of 5) (time_2_date_str days 90061 []) date_time_format ≡ 90061
unfolding days day_of write_fields
str_date_2_time-time_2_date_str_example =
    str_date_2_time-time_2_date_str days (day_of 5) 90061 [] (omega arith) refl
