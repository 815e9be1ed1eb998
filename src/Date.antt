-- ===== src/Date.antt =====
-- inc/utils/date/Date.hpp and src/utils/date/Date.cpp: the Julian day number of a date. Years are
-- not negative, so every quotient and difference of the source is one of natural numbers.
pub mod Calendar
mod Tests
use cloud_storage.Common.{ℕ, ◌+◌, ◌-◌, ◌*◌, ◌/◌, ◌%◌}

unfoldable pub get_julian_day_number : ℕ → ℕ → ℕ → ℕ
get_julian_day_number year month day =
    let a = (14 - month) / 12 in
    let y = year + 4800 - a in
    let m = month + 12 * a - 3 in
    day + (153 * m + 2) / 5 + y * 365 + y / 4 - y / 100 + y / 400 - 32045

pub record YearMonthDay : Type 0 where
  pub day : ℕ
  pub month : ℕ
  pub year : ℕ

unfoldable pub get_year_month_day : ℕ → YearMonthDay
get_year_month_day julian_day_number =
    let a = julian_day_number + 32044 in
    let b = (4 * a + 3) / 146097 in
    let c = a - 146097 * b / 4 in
    let d = (4 * c + 3) / 1461 in
    let e = c - 1461 * d / 4 in
    let m = (5 * e + 2) / 153 in
    record {
      day = e - (153 * m + 2) / 5 + 1;
      month = m + 3 - 12 * (m / 10);
      year = 100 * b + d - 4800 + m / 10;
    }

unfoldable pub week_of_day : ℕ → ℕ
week_of_day julian_day_number = (julian_day_number + 4) % 7
