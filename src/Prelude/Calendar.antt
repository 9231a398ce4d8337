-- ===== src/Prelude/Calendar.antt =====
-- Days of the proleptic Gregorian calendar, as Go's `time.Time` has them in UTC at midnight, with the
-- layout "20060102".
use Prim.Native.Nat.{ℕ, zero, suc, ◌+◌, ◌-◌, ◌*◌, ◌/◌, ◌%◌, ◌≤◌, ◌<◌}
use mathlib.Core.Path.{◌≡◌}
use mathlib.Core.Bool.{Bool, true, not, ◌&&◌, ◌||◌}
use mathlib.Core.List.{List, [], ◌∷◌}
use mathlib.Core.Option.{Option, none, some}
use native.Mathlib.Omega.{arith}
use huxio.Prelude.Tests.{ltb, leb, ◌==◌, if◌then◌else◌}

pub record Date : Type 0 where
  pub year : ℕ
  pub month : ℕ
  pub day : ℕ

abbrev pub is_leap : ℕ → Bool
is_leap y = (y % 4 == 0) && (not (y % 100 == 0) || (y % 400 == 0))

abbrev pub days_in_month : ℕ → ℕ → ℕ
days_in_month y m =
    if m == 2
    then if is_leap y then 29 else 28
    else if m == 4 || m == 6 || m == 9 || m == 11
    then 30
    else 31

-- A date of the calendar, in a year of at most four digits.
pub record IsDate (d : Date) : Type 0 where
  pub year_in : (1 ≤ d.year) × (d.year < 10_000)
  pub month_in : (1 ≤ d.month) × (d.month ≤ 12)
  pub day_in : (1 ≤ d.day) × (d.day ≤ days_in_month d.year d.month)

-- `AddDate(0, 0, 1)`
unfoldable pub next_day : Date → Date
next_day d =
    if ltb d.day (days_in_month d.year d.month)
    then record d { day = d.day + 1 }
    else if ltb d.month 12
    then record d { month = d.month + 1; day = 1 }
    else record { year = d.year + 1; month = 1; day = 1 }

-- `AddDate(0, 0, -1)`
unfoldable pub previous_day : Date → Date
previous_day d =
    if ltb 1 d.day
    then record d { day = d.day - 1 }
    else if ltb 1 d.month
    then record d { month = d.month - 1; day = days_in_month d.year (d.month - 1) }
    else record { year = d.year - 1; month = 12; day = 31 }

-- The order of days, by one number.
abbrev pub date_key : Date → ℕ
date_key d = d.year * 10_000 + d.month * 100 + d.day

abbrev pub before_day : Date → Date → Bool
before_day a b = ltb (date_key a) (date_key b)

unfoldable pub add_days : ℕ → Date → Date
add_days zero d = d
add_days (suc n) d = next_day (add_days n d)

unfoldable pub sub_days : ℕ → Date → Date
sub_days zero d = d
sub_days (suc n) d = previous_day (sub_days n d)

abbrev pub digit : ℕ → ℕ
digit n = 48 + n % 10

-- `Format("20060102")`, for a year of at most four digits
unfoldable pub format_day : Date → List ℕ
format_day d =
    digit (d.year / 1000)
    ∷ digit (d.year / 100)
    ∷ digit (d.year / 10)
    ∷ digit d.year
    ∷ digit (d.month / 10)
    ∷ digit d.month
    ∷ digit (d.day / 10)
    ∷ digit d.day
    ∷ []

abbrev pub is_digit : ℕ → Bool
is_digit c = leb 48 c && leb c 57

abbrev pub checked_date : ℕ → ℕ → ℕ → Option Date
checked_date y m d =
    if leb 1 m && leb m 12 && leb 1 d && leb d (days_in_month y m)
    then some (record { year = y; month = m; day = d })
    else none

-- `time.Parse("20060102", …)`: eight digits that are a date.
unfoldable pub parse_day : List ℕ → Option Date
parse_day (a ∷ b ∷ c ∷ d ∷ e ∷ f ∷ g ∷ h ∷ []) =
    if is_digit a
      && is_digit b
      && is_digit c
      && is_digit d
      && is_digit e
      && is_digit f
      && is_digit g
      && is_digit h
    then checked_date ((a - 48) * 1000 + (b - 48) * 100 + (c - 48) * 10 + (d - 48))
        ((e - 48) * 10 + (f - 48)) ((g - 48) * 10 + (h - 48))
    else none
parse_day _ = none

days_in_month-le : (y m : ℕ) → (28 ≤ days_in_month y m) × (days_in_month y m ≤ 31)
days_in_month-le y m = ground arith

is_digit-digit : (n : ℕ) → is_digit (digit n) ≡ true
is_digit-digit n = ground arith

digits4 :
    (n : ℕ)
    → n < 10_000
    → (digit (n / 1000) - 48) * 1000
        + (digit (n / 100) - 48) * 100
        + (digit (n / 10) - 48) * 10
        + (digit n - 48)
      ≡ n
digits4 n h = omega arith

digits2 : (n : ℕ) → n < 100 → (digit (n / 10) - 48) * 10 + (digit n - 48) ≡ n
digits2 n h = omega arith

checked_date-IsDate : (d : Date) → IsDate d → checked_date d.year d.month d.day ≡ some d
checked_date-IsDate d v = ground arith

-- A day that is printed and read is that day.
pub parse_day-format_day : (d : Date) → IsDate d → parse_day (format_day d) ≡ some d
unfolding parse_day format_day
parse_day-format_day d v =
    rw
      (
        is_digit-digit (d.year / 1000),
        is_digit-digit (d.year / 100),
        is_digit-digit (d.year / 10),
        is_digit-digit d.year,
        is_digit-digit (d.month / 10),
        is_digit-digit d.month,
        is_digit-digit (d.day / 10),
        is_digit-digit d.day,
        digits4 d.year v.year_in.1,
        digits2 d.month (omega arith),
        digits2 d.day (omega (arith, days_in_month-le d.year d.month)),
      )
      (checked_date-IsDate d v)

pub next_day-IsDate : (d : Date) → IsDate d → d.year < 9999 → IsDate (next_day d)
unfolding next_day
next_day-IsDate d v h = ground arith

pub next_day-later : (d : Date) → IsDate d → date_key d < date_key (next_day d)
unfolding next_day
next_day-later d v = ground (arith, days_in_month-le d.year d.month)

pub previous_day-earlier : (d : Date) → IsDate d → date_key (previous_day d) < date_key d
unfolding previous_day
previous_day-earlier d v = ground (arith, days_in_month-le d.year (d.month - 1))

previous_day-IsDate :
    (d : Date)
    → IsDate d
    → 1 < d.year
    → IsDate (previous_day d) × (d.year ≤ (previous_day d).year + 1)
unfolding previous_day
previous_day-IsDate d v h = ground (arith, days_in_month-le d.year (d.month - 1))

next_day-year : (d : Date) → (next_day d).year ≤ d.year + 1
unfolding next_day
next_day-year d = ground arith

-- Days back, within the years of the calendar.
pub sub_days-IsDate :
    (n : ℕ) (d : Date)
    → IsDate d
    → n < d.year
    → IsDate (sub_days n d)
      × (d.year ≤ (sub_days n d).year + n)
      × (date_key (sub_days n d) ≤ date_key d)
unfolding sub_days
sub_days-IsDate zero d v h = (v, omega arith, omega arith)
sub_days-IsDate (suc n) d v h =
    let (valid, years, earlier) = sub_days-IsDate n d v (omega arith) in
    let (valid', years') = previous_day-IsDate (sub_days n d) valid (omega arith) in
    (valid', omega arith, omega (arith, previous_day-earlier (sub_days n d) valid))

-- Days ahead.
pub add_days-IsDate :
    (n : ℕ) (d : Date)
    → IsDate d
    → d.year + n < 9999
    → IsDate (add_days n d)
      × ((add_days n d).year ≤ d.year + n)
      × (date_key d ≤ date_key (add_days n d))
unfolding add_days
add_days-IsDate zero d v h = (v, omega arith, omega arith)
add_days-IsDate (suc n) d v h =
    let (valid, years, later) = add_days-IsDate n d v (omega arith) in
    (
      next_day-IsDate (add_days n d) valid (omega arith),
      omega (arith, next_day-year (add_days n d)),
      omega (arith, next_day-later (add_days n d) valid),
    )
