-- ===== src/Utils/Calendar.antt =====
-- The date arithmetic of src/utils.cpp over unsigned words. A read outside the month table, which
-- the program does not guard against, is `none`.
pub mod Gregorian
pub mod DayNumber
pub mod Weekday
use deals_server.Prelude.{
  ℕ, ◌+◌, ◌-◌, ◌*◌, ◌/◌, ◌%◌, ◌^◌, List, [], ◌∷◌, Option, none, some, ltb, ◌==◌, if◌then◌else◌,
  get_elem?,
}

abbrev pub u32 : ℕ
u32 = 2 ^ 32

-- a - b on uint32_t.
abbrev pub sub_u32 : ℕ → ℕ → ℕ
sub_u32 a b = (a + u32 - b) % u32

-- The static table of `day_of_week`.
abbrev pub month_offsets : List ℕ
month_offsets = 0 ∷ 3 ∷ 2 ∷ 5 ∷ 0 ∷ 3 ∷ 5 ∷ 1 ∷ 4 ∷ 6 ∷ 2 ∷ 4 ∷ []

-- t[m - 1].
unfoldable pub month_offset : ℕ → Option ℕ
month_offset m = if m == 0 then none else get_elem? month_offsets (m - 1)

-- From sun = 0 to mon = 0, sun = 6.
unfoldable pub from_monday : ℕ → ℕ
from_monday res = if res == 0 then 6 else res - 1

-- The sum that `day_of_week` reduces modulo 7, with `t` read from the table.
abbrev pub weekday_sum : ℕ → ℕ → ℕ → ℕ
weekday_sum y t d = y + y / 4 - y / 100 + y / 400 + t + d

-- `y -= m < 3` is on a uint16_t.
abbrev pub year_before_march : ℕ → ℕ → ℕ
year_before_march m y = if ltb m 3 then (y + 65535) % 65536 else y

unfoldable pub day_of_week : ℕ → ℕ → ℕ → Option ℕ
day_of_week d m y = elim (month_offset m) [
  | none ↦ none
  | some t ↦ some (from_monday (weekday_sum (year_before_march m y) t d % 7))
]

-- The last line of `rdn`, for 0 ≤ y and 3 ≤ m; the int is converted to uint32_t.
abbrev pub rata_die : ℕ → ℕ → ℕ → ℕ
rata_die y m d = (365 * y + y / 4 - y / 100 + y / 400 + (153 * m - 457) / 5 + d + u32 - 306) % u32

-- The same line at y = -1, where the divisions of -1 give 0.
abbrev pub rata_die_minus_one : ℕ → ℕ → ℕ
rata_die_minus_one m d = ((153 * m - 457) / 5 + d + u32 - 365 - 306) % u32

unfoldable pub rdn : ℕ → ℕ → ℕ → ℕ
rdn y m d =
    if ltb m 3
    then (if y == 0 then rata_die_minus_one (m + 12) d else rata_die (y - 1) (m + 12) d)
    else rata_die y m d

-- The overload of `days_between_dates` on numbers.
unfoldable pub days_between_dates : ℕ → ℕ → ℕ → ℕ → ℕ → ℕ → ℕ
unfolding rdn
days_between_dates y₁ m₁ d₁ y₂ m₂ d₂ = sub_u32 (rdn y₂ m₂ d₂) (rdn y₁ m₁ d₁)
