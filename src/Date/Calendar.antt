-- ===== src/Date/Calendar.antt =====
-- Julian day numbers and the calendar.
use cloud_storage.Common.{
  ℕ, zero, suc, ◌+◌, ◌%◌, ◌≤◌, ◌≡◌, Bool, ◌&&◌, ◌||◌, not, ◌==◌, ltb, if◌then◌else◌, arith,
  Bool-cases, inl, inr, ap, sym, ◌∙◌,
}
use cloud_storage.Date.{get_julian_day_number}

-- The Gregorian calendar.
abbrev is_leap : ℕ → Bool
is_leap year = year % 4 == 0 && (not (year % 100 == 0) || year % 400 == 0)

abbrev pub days_in_month : ℕ → ℕ → ℕ
days_in_month year month =
    if month == 2
    then (if is_leap year then 29 else 28)
    else if month == 4 || month == 6 || (month == 9 || month == 11)
    then 30
    else 31

pub record IsDate (year month day : ℕ) : Type 0 where
  pub month_from : 1 ≤ month
  pub month_to : month ≤ 12
  pub day_from : 1 ≤ day
  pub day_to : day ≤ days_in_month year month

abbrev pub next_day : ℕ → ℕ → ℕ → ℕ × ℕ × ℕ
next_day year month day =
    if ltb day (days_in_month year month)
    then (year, month, day + 1)
    else if month == 12
    then (year + 1, 1, 1)
    else (year, month + 1, 1)

-- A month before December.
eleven :
    (P : ℕ → Type 0)
    → P 1
    → P 2
    → P 3
    → P 4
    → P 5
    → P 6
    → P 7
    → P 8
    → P 9
    → P 10
    → P 11
    → (m : ℕ) → 1 ≤ m
    → m ≤ 11
    → P m
eleven P p1 p2 p3 p4 p5 p6 p7 p8 p9 p10 p11 zero h k = absurd (omega arith)
eleven P p1 p2 p3 p4 p5 p6 p7 p8 p9 p10 p11 (suc zero) h k = p1
eleven P p1 p2 p3 p4 p5 p6 p7 p8 p9 p10 p11 (suc (suc zero)) h k = p2
eleven P p1 p2 p3 p4 p5 p6 p7 p8 p9 p10 p11 (suc (suc (suc zero))) h k = p3
eleven P p1 p2 p3 p4 p5 p6 p7 p8 p9 p10 p11 (suc (suc (suc (suc zero)))) h k = p4
eleven P p1 p2 p3 p4 p5 p6 p7 p8 p9 p10 p11 (suc (suc (suc (suc (suc zero))))) h k = p5
eleven P p1 p2 p3 p4 p5 p6 p7 p8 p9 p10 p11 (suc (suc (suc (suc (suc (suc zero)))))) h k = p6
eleven P p1 p2 p3 p4 p5 p6 p7 p8 p9 p10 p11 (suc (suc (suc (suc (suc (suc (suc zero))))))) h k = p7
eleven P p1 p2 p3 p4 p5 p6 p7 p8 p9 p10 p11 (suc (suc (suc (suc (suc (suc (suc (suc zero)))))))) h
      k =
    p8
eleven P p1 p2 p3 p4 p5 p6 p7 p8 p9 p10 p11
      (suc (suc (suc (suc (suc (suc (suc (suc (suc zero))))))))) h k =
    p9
eleven P p1 p2 p3 p4 p5 p6 p7 p8 p9 p10 p11
      (suc (suc (suc (suc (suc (suc (suc (suc (suc (suc zero)))))))))) h k =
    p10
eleven P p1 p2 p3 p4 p5 p6 p7 p8 p9 p10 p11
      (suc (suc (suc (suc (suc (suc (suc (suc (suc (suc (suc zero))))))))))) h k =
    p11
eleven P p1 p2 p3 p4 p5 p6 p7 p8 p9 p10 p11
      (suc (suc (suc (suc (suc (suc (suc (suc (suc (suc (suc (suc m)))))))))))) h k =
    absurd (omega arith)

february :
    (year day : ℕ)
    → 1 ≤ day
    → day ≡ (if is_leap year then 29 else 28)
    → get_julian_day_number year 3 1 ≡ get_julian_day_number year 2 day + 1
unfolding get_julian_day_number
february year day l e = ground arith

abbrev NextMonth : ℕ → ℕ → Type 0
NextMonth year m =
    (day : ℕ)
    → 1 ≤ day
    → day ≡ days_in_month year m
    → get_julian_day_number year (m + 1) 1 ≡ get_julian_day_number year m day + 1

next_month : (year month : ℕ) → 1 ≤ month → month ≤ 11 → NextMonth year month
unfolding get_julian_day_number
next_month year =
    eleven (NextMonth year) (λ day l e. omega arith) (february year) (λ day l e. omega arith)
      (λ day l e. omega arith) (λ day l e. omega arith) (λ day l e. omega arith)
      (λ day l e. omega arith) (λ day l e. omega arith) (λ day l e. omega arith)
      (λ day l e. omega arith) (λ day l e. omega arith)

new_year : (year : ℕ) → get_julian_day_number (year + 1) 1 1 ≡ get_julian_day_number year 12 31 + 1
unfolding get_julian_day_number
new_year year = omega arith

same_month :
    (year month day : ℕ)
    → 1 ≤ month
    → month ≤ 12
    → 1 ≤ day
    → get_julian_day_number year month (day + 1) ≡ get_julian_day_number year month day + 1
unfolding get_julian_day_number
same_month year month day h k l = omega arith

abbrev pub number_of : ℕ × ℕ × ℕ → ℕ
number_of (year, month, day) = get_julian_day_number year month day

last_day :
    (year month day : ℕ)
    → IsDate year month day
    → day ≡ days_in_month year month
    → number_of (if month == 12 then (year + 1, 1, 1) else (year, month + 1, 1))
      ≡ get_julian_day_number year month day + 1
last_day year month day v e = elim (Bool-cases (month == 12)) [
  | inl december ↦
      let twelve : month ≡ 12 = ground arith in
      let all : day ≡ 31 = e ∙ ap (days_in_month year) twelve in
      rw december (new_year year ∙ λ i. get_julian_day_number year (sym twelve i) (sym all i) + 1)
  | inr before ↦
      let m = v.month_to in
      rw before (next_month year month v.month_from (ground arith) day v.day_from e)
]

-- The day numbers count the days of the Gregorian calendar from the year 0 on: the number of the
-- next day, through the ends of months and years and in leap years, is one more.
pub number_of-next_day :
    (year month day : ℕ)
    → IsDate year month day
    → number_of (next_day year month day) ≡ get_julian_day_number year month day + 1
number_of-next_day year month day v = elim (Bool-cases (ltb day (days_in_month year month))) [
  | inl inside ↦ rw inside (same_month year month day v.month_from v.month_to v.day_from)
  | inr last ↦ let to = v.day_to in rw last (last_day year month day v (ground arith))
]
