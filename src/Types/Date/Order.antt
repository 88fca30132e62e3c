-- ===== src/Types/Date/Order.antt =====
-- The operators on dates follow the calendar.
use deals_server.Prelude.{
  ℕ, zero, suc, ◌+◌, ◌-◌, ◌*◌, ◌^◌, ◌≤◌, ◌<◌, ◌≡◌, ◌∙◌, inl, inr, ◌↔◌, true, false, arith, ltb,
  Bool-cases, ltb→lt,
}
use mathlib.Core.Path.{subst}
use native.Mathlib.Nat.{le_refl, zero-add, suc-add}
use deals_server.Utils.Calendar.Gregorian.{
  IsDate, days_in_month, days_in_year, days_before_year, days_before_month, day_number,
  day_number-suc, days_before_year-eq, days_before_year-suc, days_before_month-suc,
}
use deals_server.Utils.Calendar.DayNumber.{months_lem, days_in_month-le, days_between_dates-eq}
use deals_server.Types.Date.{Date, compare_dates, date_lt, days_after}

between : (m n : ℕ) → ltb m n ≡ false → ltb n m ≡ false → m ≡ n
between m n h k = ground arith

ltb-false : (m n : ℕ) → ltb m n ≡ false → n ≤ m
ltb-false m n h = ground arith

le_antisymm : (m n : ℕ) → m ≤ n → n ≤ m → m ≡ n
le_antisymm m n h k = omega arith

-- A date that is given, whose members are a day of the calendar and make up its code.
pub record IsCalendar (t : Date) : Type 0 where
  pub given : t.paramter_undefined ≡ false
  pub date : IsDate t.year t.month t.day
  pub made : t.code ≡ t.year * 10000 + t.month * 100 + t.day

abbrev pub number : Date → ℕ
number t = day_number t.year t.month t.day

days_before_year_mono : (u v : ℕ) → u ≤ v → days_before_year u ≤ days_before_year v
days_before_year_mono u v h = omega (arith, days_before_year-eq u, days_before_year-eq v)

days_before_month_mono : (y n m : ℕ) → days_before_month y m ≤ days_before_month y (n + m)
unfolding days_before_month
days_before_month_mono y zero m = rw zero-add (le_refl _)
days_before_month_mono y (suc n) m = rw (suc-add n m) (omega (arith, days_before_month_mono y n m))

-- Within its year a date's day is one of the year's.
day_in_year :
    (y m d : ℕ) → m ≤ 11 → d ≤ days_in_month y (suc m) → days_before_month y m + d ≤ days_in_year y
unfolding days_in_year days_in_month
day_in_year y m d hm hd = ground (arith, months_lem y m hm)

-- The next year begins behind every day of this one.
year_ends :
    (u m d v : ℕ)
    → m ≤ 11
    → d ≤ days_in_month (suc u) (suc m)
    → suc u ≤ v
    → days_before_year u + days_before_month (suc u) m + d ≤ days_before_year v
year_ends u m d v hm hd h = omega (
  arith,
  day_in_year (suc u) m d hm hd,
  days_before_year_mono (suc u) v h,
  days_before_year-suc u,
)

month_ends :
    (y m d n : ℕ)
    → d ≤ days_in_month y (suc m)
    → suc m ≤ n
    → days_before_month y m + d ≤ days_before_month y n
month_ends y m d n hd h = omega (
  arith,
  days_before_month-suc y m,
  subst (λ k. days_before_month y (suc m) ≤ days_before_month y k)
      (let e : n - suc m + suc m ≡ n = omega arith in e)
      (days_before_month_mono y (n - suc m) (suc m)),
)

-- Dates in the order of their codes are in the order of the calendar.
same_year :
    (u m d n e : ℕ)
    → d ≤ days_in_month (suc u) (suc m)
    → 1 ≤ e
    → m * 100 + d < n * 100 + e
    → d ≤ 31
    → e ≤ 31
    → days_before_month (suc u) m + d < days_before_month (suc u) n + e
same_year u m d n e hd he lt sd se = elim (Bool-cases (ltb m n)) [
  | inl earlier ↦ omega (arith, month_ends (suc u) m d n hd (ltb→lt m n earlier))
  | inr k ↦
      let same : m ≡ n = le_antisymm m n (omega arith) (ltb-false m n k) in
      subst (λ k. days_before_month (suc u) m + d < days_before_month (suc u) k + e) same
        (omega arith)
]

ordered :
    (u m d v n e : ℕ)
    → m ≤ 11
    → n ≤ 11
    → d ≤ days_in_month (suc u) (suc m)
    → 1 ≤ e
    → d ≤ 31
    → e ≤ 31
    → suc u * 10000 + suc m * 100 + d < suc v * 10000 + suc n * 100 + e
    → days_before_year u + days_before_month (suc u) m + d
      < days_before_year v + days_before_month (suc v) n + e
ordered u m d v n e hm hn hd he sd se lt = elim (Bool-cases (ltb u v)) [
  | inl earlier ↦ omega (arith, year_ends u m d v hm hd (ltb→lt u v earlier))
  | inr k ↦
      let same : u ≡ v = le_antisymm u v (omega arith) (ltb-false u v k) in
      subst
        (λ k.
          days_before_year u + days_before_month (suc u) m + d
          < days_before_year k + days_before_month (suc k) n + e)
        same (omega (arith, same_year u m d n e hd he (omega arith) sd se))
]

day_number_mono :
    (y m d v n e : ℕ)
    → IsDate y m d
    → IsDate v n e
    → y * 10000 + m * 100 + d < v * 10000 + n * 100 + e
    → day_number y m d < day_number v n e
day_number_mono zero m d v n e a b lt = absurd (omega (arith, a.year_from))
day_number_mono (suc u) zero d v n e a b lt = absurd (omega (arith, a.month_from))
day_number_mono (suc u) (suc m) d zero n e a b lt = absurd (omega (arith, b.year_from))
day_number_mono (suc u) (suc m) d (suc v) zero e a b lt = absurd (omega (arith, b.month_from))
day_number_mono (suc u) (suc m) d (suc v) (suc n) e a b lt =
    rw (day_number-suc u m d, day_number-suc v n e)
      (ordered u m d v n e (omega arith) (omega arith) a.day_to b.day_from
        (omega (arith, a.day_to, days_in_month-le (suc u) (suc m)))
        (omega (arith, b.day_to, days_in_month-le (suc v) (suc n))) lt)

code_mono : (a b : Date) → IsCalendar a → IsCalendar b → a.code < b.code → number a < number b
code_mono a b ha hb lt =
    day_number_mono a.year a.month a.day b.year b.month b.day ha.date hb.date
      (omega (arith, ha.made, hb.made))

-- Codes of two digits for the month and the day are equal only at equal members.
code_eq : (a b : Date) → IsCalendar a → IsCalendar b → a.code ≡ b.code → number a ≡ number b
code_eq a b ha hb e =
    let parts : (a.year ≡ b.year) × (a.month ≡ b.month) × (a.day ≡ b.day) = omega (
      arith,
      ha.made,
      hb.made,
      ha.date,
      hb.date,
      days_in_month-le a.year a.month,
      days_in_month-le b.year b.month,
    ) in
    rw (parts.0, parts.1, parts.2)

-- On dates of the calendar, `<` holds just when the first is the earlier day, and `days_after` then
-- counts the days from one to the other.
pub date_lt-number :
    (a b : Date)
    → IsCalendar a
    → IsCalendar b
    → ((date_lt a b ≡ true) ↔ (number a < number b))
      × (number a ≤ number b → days_after b a + number a ≡ number b)
unfolding compare_dates days_after
date_lt-number a b ha hb = (
  (
    λ h. code_mono a b ha hb (ground (arith, ha.given, hb.given, h)),
    λ lt. elim (Bool-cases (ltb a.code b.code)) [
      | inl h ↦ rw (ha.given, hb.given) h
      | inr h ↦ elim (Bool-cases (ltb b.code a.code)) [
        | inl k ↦ absurd (omega (arith, code_mono b a hb ha (ltb→lt b.code a.code k)))
        | inr k ↦ absurd (omega (arith, code_eq a b ha hb (between a.code b.code h k)))
      ]
    ],
  ),
  λ le. days_between_dates-eq a.year a.month a.day b.year b.month b.day ha.date hb.date le,
)

-- In the years of a uint16_t the day numbers stay below 2 ^ 25.
pub number_bound : (t : Date) → IsCalendar t → number t < 2 ^ 25
number_bound t h = bound t.year t.month t.day h.date
  where
    bound : (y m d : ℕ) → IsDate y m d → day_number y m d < 2 ^ 25
    bound zero m d v = absurd (omega (arith, v.year_from))
    bound (suc y) zero d v = absurd (omega (arith, v.month_from))
    bound (suc y) (suc m) d v = rw (day_number-suc y m d) (
        omega (
          arith,
          year_ends y m d (suc y) (omega arith) v.day_to (le_refl _),
          days_before_year-eq (suc y),
          v.year_to,
        ))

-- The test on the codes, where both dates are given.
pub ltb_code : (a b : Date) → IsCalendar a → IsCalendar b → date_lt a b ≡ ltb a.code b.code
unfolding compare_dates
ltb_code a b ha hb = rw (ha.given, hb.given)

pub code_ordered :
    (a b : Date) → IsCalendar a → IsCalendar b → number a ≤ number b → ltb b.code a.code ≡ false
code_ordered a b ha hb le = elim (Bool-cases (ltb b.code a.code)) [
  | inl h ↦ absurd (omega (arith, (date_lt-number b a hb ha).0.0 (ltb_code b a hb ha ∙ h)))
  | inr h ↦ h
]
