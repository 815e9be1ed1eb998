-- ===== src/Date/Tests.antt =====
-- Runs of the date's code, and its theorems at concrete inputs.
use cloud_storage.Common.{◌+◌, ◌≡◌, refl, arith}
use cloud_storage.Date.{get_julian_day_number, get_year_month_day, week_of_day}
use cloud_storage.Date.Calendar.{next_day, number_of, number_of-next_day}

number_of-next_day_example : number_of (next_day 2024 2 29) ≡ get_julian_day_number 2024 2 29 + 1
number_of-next_day_example = number_of-next_day 2024 2 29 (record {
  month_from = omega arith;
  month_to = omega arith;
  day_from = omega arith;
  day_to = omega arith;
})

number_run : get_julian_day_number 2000 1 1 ≡ 2451545
unfolding get_julian_day_number
number_run = refl

date_run : get_year_month_day 2451545 ≡ record { day = 1; month = 1; year = 2000 }
unfolding get_year_month_day
date_run = refl

-- The first of January 2000 was a Saturday.
week_run : week_of_day 2451545 ≡ 2
unfolding week_of_day
week_run = refl
