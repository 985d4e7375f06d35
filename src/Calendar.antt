-- ===== src/Calendar.antt =====
-- The calendar of Go's time package as the names of report files use it: the layout 20060102.
-- Days are counted from 1 January of year 1.
use heartpost.Common.{
  ℕ, zero, suc, ◌+◌, ◌-◌, ◌*◌, ◌/◌, ◌%◌, Bool, ◌&&◌, ◌||◌, not, Option, none, some, [], ◌∷◌, ◌++◌,
  leb, ◌==◌, if◌then◌else◌, ◌>>=◌,
}
use heartpost.Common.Text.{Text}
use heartpost.Common.Int.{ℤ, sub_ℕ}
use heartpost.Clock.{Time, day, second}

pub record Date : Type 0 where
  pub year : ℕ
  pub month : ℕ
  pub day : ℕ

unfoldable pub is_leap : ℕ → Bool
is_leap y = (y % 4 == 0) && (not (y % 100 == 0) || (y % 400 == 0))

-- The days of the year before the first of each month, and before the next year.
unfoldable pub days_before : ℕ → ℕ → ℕ
unfolding is_leap
days_before y m =
    let leap = if is_leap y then 1 else 0 in
    if leb m 1
    then 0
    else if m == 2
    then 31
    else leap
      + (if m == 3
          then 59
          else if m == 4
          then 90
          else if m == 5
          then 120
          else if m == 6
          then 151
          else if m == 7
          then 181
          else if m == 8
          then 212
          else if m == 9
          then 243
          else if m == 10
          then 273
          else if m == 11
          then 304
          else if m == 12
          then 334
          else 365)

-- Days from 1 January of year 1 to 1 January of `suc y`.
unfoldable pub days_before_year : ℕ → ℕ
days_before_year y = 365 * y + y / 4 - y / 100 + y / 400

-- The first instant of a date, in days. Year 0 has 366 days and lies before the zero time.
unfoldable pub day_number : Date → ℤ
day_number d =
    let in_year = days_before d.year d.month + (d.day - 1) in
    if d.year == 0 then sub_ℕ in_year 366 else sub_ℕ (days_before_year (d.year - 1) + in_year) 0

-- The month that holds a day of the year, counted from 0.
unfoldable pub month_of : ℕ → ℕ → ℕ → ℕ
month_of y d zero = 1
month_of y d (suc m) = if leb (days_before y (suc m)) d then suc m else month_of y d m

-- The cycles of 400, 100, 4 and 1 years; the last century and the last year of a cycle are longer.
unfoldable pub date_of : ℕ → Date
date_of n =
    let n400 = n / 146097 in
    let r400 = n % 146097 in
    let n100 = r400 / 36524 - r400 / 36524 / 4 in
    let r100 = r400 - 36524 * n100 in
    let n4 = r100 / 1461 in
    let r4 = r100 % 1461 in
    let n1 = r4 / 365 - r4 / 365 / 4 in
    let yday = r4 - 365 * n1 in
    let y = 400 * n400 + 100 * n100 + 4 * n4 + n1 + 1 in
    let m = month_of y yday 12 in record { year = y; month = m; day = yday - days_before y m + 1 }

-- Two digits, and four or more for the year.
abbrev two_digits : ℕ → Text
two_digits n = (b'0' + n / 10 % 10) ∷ (b'0' + n % 10) ∷ []

-- day.UTC().Format("20060102"), for the years below 10000.
unfoldable pub format_day : Time → Text
format_day t =
    let d = date_of (t / day) in
    two_digits (d.year / 100) ++ (two_digits d.year ++ (two_digits d.month ++ two_digits d.day))

abbrev is_digit : ℕ → Bool
is_digit c = leb b'0' c && leb c b'9'

abbrev pair : ℕ → ℕ → Option ℕ
pair a b = if is_digit a && is_digit b then some (10 * (a - b'0') + (b - b'0')) else none

abbrev valid_date : Date → Bool
valid_date d =
    leb 1 d.month
    && leb d.month 12
    && leb 1 d.day
    && leb (days_before d.year d.month + d.day) (days_before d.year (d.month + 1))

-- time.Parse("20060102", s)
unfoldable pub parse_day : Text → Option Date
parse_day (a ∷ b ∷ c ∷ d ∷ e ∷ f ∷ g ∷ h ∷ []) = do
  hi ← pair a b
  lo ← pair c d
  m ← pair e f
  n ← pair g h
  let date : Date = record { year = 100 * hi + lo; month = m; day = n }
  if valid_date date then some date else none
parse_day _ = none

-- t.UTC().Format(time.RFC3339), for the years below 10000.
unfoldable pub format_rfc3339 : Time → Text
format_rfc3339 t =
    let d = date_of (t / day) in
    let s = t % day / second in
    two_digits (d.year / 100)
    ++ (two_digits d.year
        ++ (b'-' ∷ two_digits d.month
            ++ (b'-' ∷ two_digits d.day
                ++ (b'T' ∷ two_digits (s / 3600)
                    ++ (b':' ∷ two_digits (s / 60 % 60)
                        ++ (b':' ∷ two_digits (s % 60) ++ b'Z' ∷ []))))))
