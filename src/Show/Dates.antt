-- ===== src/Show/Dates.antt =====
-- The calendar behind `Show.IsWithinMonths` (internal/anilist/anilist.go): `time.Date` and `AddDate`
-- of Go's standard library, for the proleptic Gregorian calendar. Months are counted from January of
-- year 0. The process runs in UTC, so that `time.Now()` falls in the civil date `Now`.
use sonarr_anime_bridge.Prelude.{
  ℕ, ◌+◌, ◌-◌, ◌*◌, ◌/◌, ◌%◌, ◌==◌, ltb, leb, Bool, true, not, ◌&&◌, ◌||◌, if◌then◌else◌, ℤ, pos,
  negsuc, ◌+ℤ◌, ◌-ℤ◌, sub_ℕ,
}

-- A civil date; `month` is 1 to 12, `day` from 1. The time of the day does not matter below: a
-- month starts at midnight.
pub record Now : Type 0 where
  pub year : ℕ
  pub month : ℕ
  pub day : ℕ

unfoldable pub is_leap : ℕ → Bool
is_leap y = y % 4 == 0 && (not (y % 100 == 0) || y % 400 == 0)

-- The days before the first of the month in a common year; `m` counts from 0.
unfoldable pub month_offset : ℕ → ℕ
month_offset m =
    if m == 0
    then 0
    else if m == 1
    then 31
    else if m == 2
    then 59
    else if m == 3
    then 90
    else if m == 4
    then 120
    else if m == 5
    then 151
    else if m == 6
    then 181
    else if m == 7
    then 212
    else if m == 8
    then 243
    else if m == 9
    then 273
    else if m == 10
    then 304
    else 334

unfoldable pub days_before_year : ℕ → ℕ
days_before_year y = 365 * y + (y + 3) / 4 + (y + 399) / 400 - (y + 99) / 100

-- The days before the first of month `k`, counted from the first of January of year 0.
unfoldable pub days_before : ℕ → ℕ
unfolding is_leap month_offset days_before_year
days_before k =
    days_before_year (k / 12)
    + month_offset (k % 12)
    + (if ltb 1 (k % 12) && is_leap (k / 12) then 1 else 0)

-- `time.Date` normalises the month: the month's number, counted from January of year 0.
unfoldable pub month_index : ℤ → ℤ → ℤ
unfolding ◌+ℤ◌ ◌-ℤ◌
month_index year month = year_months year +ℤ month -ℤ pos 1
  where
    year_months : ℤ → ℤ
    year_months (pos y) = pos (12 * y)
    year_months (negsuc y) = sub_ℕ 0 (12 * (y + 1))

-- `AddDate(0, months, 0)` keeps the day and normalises an overflow into the next month.
unfoldable pub target_day : Now → ℕ → ℕ
unfolding days_before
target_day now months = days_before (12 * now.year + now.month - 1 + months) + now.day - 1

-- The first of the month is not after the target; all before year 0 is past.
unfoldable pub starts_by : Now → ℤ → ℤ → ℕ → Bool
unfolding month_index target_day
starts_by now year month months = elim (month_index year month) [
  | negsuc _ ↦ true
  | pos k ↦ leb (days_before k) (target_day now months)
]
