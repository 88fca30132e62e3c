-- ===== src/Utils/Calendar/Gregorian.antt =====
-- The calendar by its rules alone: leap years, the lengths of the months, and the count of the days
-- since 0001-01-01, which is day 1.
use deals_server.Prelude.{
  ◌&&◌, ℕ, zero, suc, ◌+◌, ◌*◌, ◌/◌, ◌-◌, ◌%◌, ◌≤◌, ◌≡◌, refl, Bool, ◌||◌, not, arith, ◌==◌,
  if◌then◌else◌,
}

unfoldable pub is_leap : ℕ → Bool
is_leap y = y % 400 == 0 || (y % 4 == 0 && not (y % 100 == 0))

unfoldable pub days_in_month : ℕ → ℕ → ℕ
unfolding is_leap
days_in_month y m =
    if m == 4 || m == 6 || m == 9 || m == 11
    then 30
    else if m == 2
    then (if is_leap y then 29 else 28)
    else 31

-- A date of the years that the server's uint16_t holds.
pub record IsDate (y m d : ℕ) : Type 0 where
  pub year_from : 1 ≤ y
  pub year_to : y ≤ 65535
  pub month_from : 1 ≤ m
  pub month_to : m ≤ 12
  pub day_from : 1 ≤ d
  pub day_to : d ≤ days_in_month y m

unfoldable pub days_in_year : ℕ → ℕ
unfolding is_leap
days_in_year y = if is_leap y then 366 else 365

-- Days before January 1st of year `suc y`.
unfoldable pub days_before_year : ℕ → ℕ
days_before_year zero = 0
days_before_year (suc y) = days_before_year y + days_in_year (suc y)

-- Days of year `y` before month `suc m`.
unfoldable pub days_before_month : ℕ → ℕ → ℕ
days_before_month y zero = 0
days_before_month y (suc m) = days_before_month y m + days_in_month y (suc m)

unfoldable pub day_number : ℕ → ℕ → ℕ → ℕ
day_number y m d = days_before_year (y - 1) + days_before_month y (m - 1) + d

-- The sum over the years in closed form.
pub days_before_year-eq : (y : ℕ) → days_before_year y ≡ 365 * y + y / 4 - y / 100 + y / 400
unfolding days_before_year days_in_year is_leap
days_before_year-eq zero = refl
days_before_year-eq (suc y) = ground (arith, days_before_year-eq y)

pub days_before_year-suc :
    (y : ℕ) → days_before_year (suc y) ≡ days_before_year y + days_in_year (suc y)
unfolding days_before_year
days_before_year-suc y = refl

pub days_before_month-suc :
    (y m : ℕ) → days_before_month y (suc m) ≡ days_before_month y m + days_in_month y (suc m)
unfolding days_before_month
days_before_month-suc y m = refl

pub day_number-suc :
    (y m d : ℕ)
    → day_number (suc y) (suc m) d ≡ days_before_year y + days_before_month (suc y) m + d
unfolding day_number
day_number-suc y m d = rw (less_one y, less_one m)
  where
    less_one : (n : ℕ) → suc n - 1 ≡ n
    less_one n = omega arith
