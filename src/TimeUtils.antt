-- ===== src/TimeUtils.antt =====
-- c_utils/timeutils.cpp: times as text, and the time of an hour of today. A string is its bytes; what `time`
-- returns is an argument, and the other functions of the C library are an interface.
pub mod Clock
mod Tests
use tiny_utils.Base.{
  ℕ, ◌+◌, ◌-◌, ◌*◌, ◌≤◌, ◌<◌, ◌≡◌, Bool, List, [], ◌∷◌, ◌++◌, length, ltb, if◌then◌else◌,
}
use tiny_utils.Base.Int.{ℤ, pos, negsuc}

-- `struct tm`
pub record Tm : Type 0 where
  pub tm_year : ℕ
  pub tm_mon : ℕ
  pub tm_mday : ℕ
  pub tm_hour : ℕ
  pub tm_min : ℕ
  pub tm_sec : ℕ
  pub tm_isdst : ℕ

abbrev pub seconds_of_day : Tm → ℕ
seconds_of_day tm = 3600 * tm.tm_hour + 60 * tm.tm_min + tm.tm_sec

-- `"%Y-%m-%d %H:%M:%S"` and `"%Y-%m-%d"`
abbrev pub date_time_format : List ℕ
date_time_format =
    37 ∷ 89 ∷ 45 ∷ 37 ∷ 109 ∷ 45 ∷ 37 ∷ 100 ∷ 32 ∷ 37 ∷ 72 ∷ 58 ∷ 37 ∷ 77 ∷ 58 ∷ 37 ∷ 83 ∷ []

abbrev pub date_format : List ℕ
date_format = 37 ∷ 89 ∷ 45 ∷ 37 ∷ 109 ∷ 45 ∷ 37 ∷ 100 ∷ []

-- `localtime`, `mktime`, `strftime` and `strptime` in a zone that does not change its offset. `strftime` is the
-- text without the limit of the buffer; `strptime` fills in a `tm`.
pub record CTime : Type 1 where
  pub localtime : ℕ → Tm
  pub mktime : Tm → ℕ
  pub strftime : List ℕ → Tm → List ℕ
  pub strptime : List ℕ → List ℕ → Tm → Tm
  pub mktime_localtime : (t : ℕ) → mktime (localtime t) ≡ t
  pub other_clock :
      (tm : Tm) (h m s : ℕ)
      → seconds_of_day tm ≤ mktime tm
      → mktime (record tm { tm_hour = h; tm_min = m; tm_sec = s }) + seconds_of_day tm
        ≡ mktime tm + (3600 * h + 60 * m + s)
  pub strptime_strftime :
      (tm before : Tm)
      → strptime (strftime date_time_format tm) date_time_format before
        ≡ record tm { tm_isdst = before.tm_isdst }

-- A buffer of zeros that `strftime` writes to, taken to stay empty when the text and its end do not fit.
abbrev pub in_buffer : (size : ℕ) → List ℕ → List ℕ
in_buffer size text = if ltb (length text) size then text else []

module _ (c : CTime) where
  -- `tm` is not initialised: `garbage` is what stood in it.
  unfoldable pub str_date_2_time : (garbage : Tm) (date format : List ℕ) → ℕ
  str_date_2_time garbage date format = c.mktime (c.strptime date format garbage)

  -- The parameter `format` is not used.
  unfoldable pub time_2_date_str : (t : ℕ) (format : List ℕ) → List ℕ
  time_2_date_str t format = in_buffer 24 (c.strftime date_time_format (c.localtime t))

  -- `" 00:00:00"` stands behind the date.
  unfoldable pub get_last_day_begin_time_str : (now : ℕ) → List ℕ
  get_last_day_begin_time_str now =
      in_buffer 32 (c.strftime date_format (c.localtime (now - 24 * 60 * 60)))
      ++ (32 ∷ 48 ∷ 48 ∷ 58 ∷ 48 ∷ 48 ∷ 58 ∷ 48 ∷ 48 ∷ [])

  unfoldable pub get_today_x_clock_time : (now : ℕ) → ℤ → ℕ
  get_today_x_clock_time now (negsuc n) = 0
  get_today_x_clock_time now (pos x) =
      if ltb 24 x
      then 0
      else c.mktime (record (c.localtime now) { tm_hour = x; tm_min = 0; tm_sec = 0 })
