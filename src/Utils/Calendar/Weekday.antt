-- ===== src/Utils/Calendar/Weekday.antt =====
-- The weekday formula agrees with the count of days.
use deals_server.Prelude.{
  ℕ, zero, suc, ◌+◌, ◌*◌, ◌/◌, ◌-◌, ◌%◌, ◌≤◌, ◌≡◌, refl, ap, some, arith, ltb, Bool-cases, true,
  false, ltb→lt, inl, inr, if◌then◌else◌,
}
use deals_server.Utils.Calendar.{
  day_of_week, month_offset, from_monday, weekday_sum, year_before_march, rata_die, rdn,
}
use deals_server.Utils.Calendar.Gregorian.{IsDate, day_number}
use deals_server.Utils.Calendar.DayNumber.{rdn-eq-day_number, rata_die_exact, days_in_month-le}

-- What the table's entry for month `m` stands for: the days from March 1st to the month's first.
month_offset_lem :
    (m : ℕ)
    → 1 ≤ m
    → m ≤ 12
    → (t : ℕ) × (month_offset m ≡ some t)
      × ((t + 5) % 7 ≡ ((153 * (if ltb m 3 then m + 12 else m) - 457) / 5) % 7)
unfolding month_offset
month_offset_lem zero lo hi = absurd (omega arith)
month_offset_lem (suc zero) lo hi = (0, refl, refl)
month_offset_lem (suc (suc zero)) lo hi = (3, refl, refl)
month_offset_lem (suc (suc (suc zero))) lo hi = (2, refl, refl)
month_offset_lem (suc (suc (suc (suc zero)))) lo hi = (5, refl, refl)
month_offset_lem (suc (suc (suc (suc (suc zero))))) lo hi = (0, refl, refl)
month_offset_lem (suc (suc (suc (suc (suc (suc zero)))))) lo hi = (3, refl, refl)
month_offset_lem (suc (suc (suc (suc (suc (suc (suc zero))))))) lo hi = (5, refl, refl)
month_offset_lem (suc (suc (suc (suc (suc (suc (suc (suc zero)))))))) lo hi = (1, refl, refl)
month_offset_lem (suc (suc (suc (suc (suc (suc (suc (suc (suc zero))))))))) lo hi = (4, refl, refl)
month_offset_lem (suc (suc (suc (suc (suc (suc (suc (suc (suc (suc zero)))))))))) lo hi =
    (6, refl, refl)
month_offset_lem (suc (suc (suc (suc (suc (suc (suc (suc (suc (suc (suc zero))))))))))) lo hi =
    (2, refl, refl)
month_offset_lem (suc (suc (suc (suc (suc (suc (suc (suc (suc (suc (suc (suc zero)))))))))))) lo
      hi =
    (4, refl, refl)
month_offset_lem (suc (suc (suc (suc (suc (suc (suc (suc (suc (suc (suc (suc (suc n))))))))))))) lo
      hi =
    absurd (omega arith)

weekday_late :
    (y m d t : ℕ)
    → y ≤ 65535
    → 3 ≤ m
    → m ≤ 14
    → d ≤ 31
    → 1 ≤ 365 * y + (m - 12)
    → (t + 5) % 7 ≡ (153 * m - 457) / 5 % 7
    → from_monday (weekday_sum y t d % 7) ≡ (rata_die y m d + 6) % 7
unfolding from_monday
weekday_late y m d t hy lo hi hd pos e = ground (arith, rata_die_exact y m d hy lo hi hd pos)

rdn_early : (y m d : ℕ) → ltb m 3 ≡ true → 1 ≤ y → rdn y m d ≡ rata_die (y - 1) (m + 12) d
unfolding rdn
rdn_early zero m d early pos = absurd (omega arith)
rdn_early (suc y) m d early pos = rw early (ground arith)

year_early : (y m : ℕ) → ltb m 3 ≡ true → 1 ≤ y → y ≤ 65535 → year_before_march m y ≡ y - 1
year_early y m early pos hy = rw early (omega arith)

rdn_late : (y m d : ℕ) → ltb m 3 ≡ false → rdn y m d ≡ rata_die y m d
unfolding rdn
rdn_late y m d late = rw late

weekday-rdn :
    (y m d t : ℕ)
    → IsDate y m d
    → (t + 5) % 7 ≡ (153 * (if ltb m 3 then m + 12 else m) - 457) / 5 % 7
    → from_monday (weekday_sum (year_before_march m y) t d % 7) ≡ (rdn y m d + 6) % 7
weekday-rdn y m d t v e =
    let short : d ≤ 31 = omega (arith, v.day_to, days_in_month-le y m) in
    elim (Bool-cases (ltb m 3)) [
      | inl early ↦
          let low = ltb→lt m 3 early in
          rw (year_early y m early v.year_from v.year_to, rdn_early y m d early v.year_from)
            (weekday_late (y - 1) (m + 12) d t (omega arith) (omega arith) (omega arith) short
              (omega arith) (rw early at e))
      | inr late ↦
          rw (late, rdn_late y m d late)
            (weekday_late y m d t v.year_to (ground arith) (omega arith) short (omega arith)
              (rw late at e))
    ]

-- On every date, the weekday (mon = 0) is the count of the days modulo 7, and the table is read
-- within its bounds.
pub day_of_week-eq :
    (y m d : ℕ) → IsDate y m d → day_of_week d m y ≡ some ((day_number y m d + 6) % 7)
unfolding day_of_week
day_of_week-eq y m d v =
    let (t, found, e) = month_offset_lem m v.month_from v.month_to in
    rw (found, day_of_week, ← rdn-eq-day_number y m d v) (ap some (weekday-rdn y m d t v e))
