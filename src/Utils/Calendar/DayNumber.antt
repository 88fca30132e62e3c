-- ===== src/Utils/Calendar/DayNumber.antt =====
-- `rdn` counts the days of the calendar.
use deals_server.Prelude.{
  ℕ, zero, suc, ◌+◌, ◌*◌, ◌/◌, ◌-◌, ◌≤◌, ◌<◌, ◌≡◌, refl, arith, ltb, if◌then◌else◌, Bool-cases,
  ltb→lt, inl, inr,
}
use deals_server.Utils.Calendar.{u32, rata_die, rdn, days_between_dates}
use deals_server.Utils.Calendar.Gregorian.{
  IsDate, is_leap, days_in_month, days_before_month, days_before_year-eq, day_number,
}

-- The months up to m in closed form, by the leap day in front of March.
pub months_lem :
    (y m : ℕ)
    → m ≤ 11
    → days_before_month y m
      ≡ (if ltb m 2 then 31 * m else (if is_leap y then 60 else 59) + (153 * (m + 1) - 457) / 5)
unfolding days_before_month days_in_month
months_lem y zero h = refl
months_lem y (suc m) h = ground (arith, months_lem y m)

pub days_in_month-le : (y m : ℕ) → days_in_month y m ≤ 31
unfolding days_in_month
days_in_month-le y m = ground arith

-- Nothing wraps around on the years of a uint16_t.
pub rata_die_exact :
    (y m d : ℕ)
    → y ≤ 65535
    → 3 ≤ m
    → m ≤ 14
    → d ≤ 31
    → 1 ≤ 365 * y + (m - 12)
    → rata_die y m d + 306 ≡ 365 * y + y / 4 - y / 100 + y / 400 + (153 * m - 457) / 5 + d
rata_die_exact y m d hy lo hi hd pos = omega arith

-- January and February belong to the year before.
rdn_early :
    (y m d : ℕ) → y ≤ 65534 → m < 2 → d ≤ 31 → rdn (suc y) (suc m) d ≡ day_number (suc y) (suc m) d
unfolding rdn day_number
rdn_early y m d hy hm hd =
    ground (arith, rata_die_exact y (m + 13) d, days_before_year-eq y, months_lem (suc y) m)

leap_step :
    (y : ℕ)
    → suc y / 4 - suc y / 100 + suc y / 400
      ≡ y / 4 - y / 100 + y / 400 + (if is_leap (suc y) then 1 else 0)
unfolding is_leap
leap_step y = ground arith

rdn_late :
    (y m d : ℕ)
    → y ≤ 65534
    → 2 ≤ m
    → m ≤ 11
    → d ≤ 31
    → rdn (suc y) (suc m) d ≡ day_number (suc y) (suc m) d
unfolding rdn day_number
rdn_late y m d hy lo hi hd = ground (
  arith,
  rata_die_exact (suc y) (suc m) d (omega arith) (omega arith) (omega arith) hd (omega arith),
  days_before_year-eq y,
  leap_step y,
  months_lem (suc y) m hi,
)

-- On every date, `rdn` is the number of days from 0001-01-01 on, counted by the calendar's rules.
pub rdn-eq-day_number : (y m d : ℕ) → IsDate y m d → rdn y m d ≡ day_number y m d
rdn-eq-day_number zero m d v = absurd (omega (arith, v.year_from))
rdn-eq-day_number (suc y) zero d v = absurd (omega (arith, v.month_from))
rdn-eq-day_number (suc y) (suc m) d v = elim (Bool-cases (ltb m 2)) [
  | inl early ↦
      rdn_early y m d (omega arith) (ltb→lt m 2 early)
        (omega (arith, days_in_month-le (suc y) (suc m)))
  | inr late ↦
      rdn_late y m d (omega arith) (ground arith) (omega arith)
        (omega (arith, days_in_month-le (suc y) (suc m)))
]

rdn-lt : (y m d : ℕ) → rdn y m d < u32
unfolding rdn
rdn-lt y m d = ground arith

-- Between two dates in order, `days_between_dates` is the difference of their day numbers.
pub days_between_dates-eq :
    (y₁ m₁ d₁ y₂ m₂ d₂ : ℕ)
    → IsDate y₁ m₁ d₁
    → IsDate y₂ m₂ d₂
    → day_number y₁ m₁ d₁ ≤ day_number y₂ m₂ d₂
    → days_between_dates y₁ m₁ d₁ y₂ m₂ d₂ + day_number y₁ m₁ d₁ ≡ day_number y₂ m₂ d₂
unfolding days_between_dates
days_between_dates-eq y₁ m₁ d₁ y₂ m₂ d₂ v w h =
    omega (arith, rdn-eq-day_number y₁ m₁ d₁ v, rdn-eq-day_number y₂ m₂ d₂ w, rdn-lt y₂ m₂ d₂)
