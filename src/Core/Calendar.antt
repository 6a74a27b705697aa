-- ===== src/Core/Calendar.antt =====
-- What src/core/RuntimeTime.cpp uses of the calendar of `std::chrono`: a year_month_day, its
-- `ok()`, and both conversions to a day number. Days are counted from 1 March of the year -400,
-- one whole cycle of 400 years before the year 0, so every date of four digits has a number.
use btrfs_backup.Common.{
  Bool, not, ◌&&◌, ◌||◌, ℕ, ◌+◌, ◌-◌, ◌*◌, ◌/◌, ◌%◌, eqb, leb, ltb, if◌then◌else◌,
}

pub record LocalDate : Type 0 where
  pub year : ℕ
  pub month : ℕ
  pub day : ℕ

unfoldable pub is_leap : ℕ → Bool
is_leap y = eqb (y % 4) 0 && (not (eqb (y % 100) 0) || eqb (y % 400) 0)

unfoldable pub last_day : ℕ → ℕ → ℕ
unfolding is_leap
last_day y m =
    if eqb m 2
    then (if is_leap y then 29 else 28)
    else if eqb m 4 || eqb m 6 || eqb m 9 || eqb m 11
    then 30
    else 31

-- `year_month_day::ok()`. The years of the program have four digits, which are all in range.
unfoldable pub date_ok : LocalDate → Bool
unfolding last_day
date_ok d = leb 1 d.month && leb d.month 12 && leb 1 d.day && leb d.day (last_day d.year d.month)

-- `sys_days{date}`: the day number, through a year that begins in March.
unfoldable pub days_from_civil : LocalDate → ℕ
days_from_civil d =
    let y = if leb d.month 2 then d.year + 399 else d.year + 400 in
    let m = if leb d.month 2 then d.month + 9 else d.month - 3 in
    y * 365 + y / 4 - y / 100 + y / 400 + (153 * m + 2) / 5 + d.day - 1

-- The date within a cycle of 400 years, whose first year has the number `base`.
unfoldable pub civil_of_cycle : ℕ → ℕ → LocalDate
civil_of_cycle base doe =
    let yoe = (doe - doe / 1460 + doe / 36524 - doe / 146096) / 365 in
    let doy = doe - (365 * yoe + yoe / 4 - yoe / 100) in
    let mp = (5 * doy + 2) / 153 in
    let m = if ltb mp 10 then mp + 3 else mp - 9 in
    record {
      year = if leb m 2 then base + yoe + 1 else base + yoe;
      month = m;
      day = doy - (153 * mp + 2) / 5 + 1;
    }

-- `year_month_day{day}`. The year is exact from the year 0 on.
unfoldable pub civil_from_days : ℕ → LocalDate
unfolding civil_of_cycle
civil_from_days z =
    let d = civil_of_cycle (z / 146097 * 400) (z % 146097) in record d { year = d.year - 400 }
