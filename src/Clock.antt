-- ===== src/Clock.antt =====
-- Go's `time` package as internal/storage/retention.go uses it, in UTC.
-- A `time.Time` is the number of nanoseconds since 1 January of year 1, Go's zero time, which
-- `IsZero` tests for; times before that are not represented.
use m365_backup.Base.{
  ℕ, ◌+◌, ◌-◌, ◌*◌, ◌/◌, ◌%◌, min, Bool, ◌&&◌, ◌||◌, not, List, [], ◌∷◌, ltb, ◌==◌, if◌then◌else◌,
}

abbrev pub Time : Type 0
Time = ℕ

abbrev pub second_ns : ℕ
second_ns = 1000000000

abbrev pub hour_ns : ℕ
hour_ns = 3600000000000

abbrev pub day_ns : ℕ
day_ns = 86400000000000

-- The modulus of int64, which a `time.Duration` wraps around.
abbrev pub int64_mod : ℕ
int64_mod = 18446744073709551616

abbrev pub int64_max : ℕ
int64_max = 9223372036854775807

abbrev pub is_zero : Time → Bool
is_zero t = t == 0

-- The days since 1 January of year 1.
abbrev pub day_of : Time → ℕ
day_of t = t / day_ns

pub record Date : Type 0 where
  pub year : ℕ
  pub year_day : ℕ
  pub month : ℕ
  pub day : ℕ

unfoldable pub is_leap : ℕ → Bool
is_leap y = (y % 4 == 0) && (not (y % 100 == 0) || (y % 400 == 0))

-- The months of a year with their lengths, from a day of the year.
month_from : ℕ → List ℕ → ℕ → ℕ × ℕ
month_from m [] d = (m, d + 1)
month_from m (n ∷ ns) d =
    let later = month_from (m + 1) ns (d - n) in if ltb d n then (m, d + 1) else later

unfoldable pub year_of_day : ℕ → ℕ × ℕ
year_of_day d =
    let n400 = d / 146097 in
    let d400 = d % 146097 in
    let n100 = min 3 (d400 / 36524) in
    let d100 = d400 - n100 * 36524 in
    let n4 = d100 / 1461 in
    let d4 = d100 % 1461 in
    let n1 = min 3 (d4 / 365) in (400 * n400 + 100 * n100 + 4 * n4 + n1 + 1, d4 - n1 * 365)

-- `Year`, `Month`, `Day` and `YearDay` (from 0) of a time.
unfoldable pub date : Time → Date
unfolding year_of_day month_from is_leap
date t =
    let (y, yd) = year_of_day (day_of t) in
    let feb = if is_leap y then 29 else 28 in
    let (m, d) = month_from 1 (31 ∷ feb ∷ 31 ∷ 30 ∷ 31 ∷ 30 ∷ 31 ∷ 31 ∷ 30 ∷ 31 ∷ 30 ∷ []) yd in
    record { year = y; year_day = yd; month = m; day = d }

-- `ISOWeek`: the year and week of the Thursday of the time's week. Day 0 is a Monday.
unfoldable pub iso_week : Time → ℕ × ℕ
unfolding year_of_day
iso_week t = let d = day_of t in let (y, yd) = year_of_day (d - d % 7 + 3) in (y, yd / 7 + 1)
