-- ===== src/Utils/DateTexts.antt =====
-- The date functions of src/utils.cpp on texts. A read behind a text's end is `none`.
use deals_server.Prelude.{
  ℕ, ◌-◌, ◌%◌, ◌^◌, Bool, true, false, not, ◌||◌, Option, none, some, ltb, leb, ◌==◌, if◌then◌else◌,
  Text, get_elem?, length,
}
use deals_server.Utils.Numbers.{stol, value, invalid_argument, out_of_range}
use deals_server.Utils.Strings.{substr}
use deals_server.Utils.Calendar.{day_of_week, rdn, sub_u32}
use deals_server.Utils.Days.{days}

-- std::stoi: the long, where it is an int. Its 64-bit pattern is cut by the assignment.
unfoldable pub stoi : Text → Option ℕ
stoi s = elim (stol s) [
  | value n ↦ if ltb n (2 ^ 31) || leb (2 ^ 64 - 2 ^ 31) n then some n else none
  | invalid_argument ↦ none
  | out_of_range ↦ none
]

-- operator[] of a string: the byte, 0 at the end.
unfoldable pub char_at : Text → ℕ → Option ℕ
char_at s n = if n == length s then some 0 else get_elem? s n

-- date[4] != '-' || date[7] != '-'.
unfoldable pub not_dashed : Text → Option Bool
not_dashed date = elim (char_at date 4) [
  | none ↦ none
  | some a ↦
      if a == b'-'
      then elim (char_at date 7) [ none ↦ none | some b ↦ some (not (b == b'-')) ]
      else some true
]

pub record DateParts : Type 0 where
  pub int_year : ℕ
  pub int_month : ℕ
  pub int_day : ℕ

-- The three conversions, to uint16_t and uint8_t; `none` is an exception of one of them.
unfoldable pub date_parts : Text → Option DateParts
date_parts date = elim (stoi (substr date 0 4)) [
  | none ↦ none
  | some y ↦ elim (stoi (substr date 5 7)) [
    | none ↦ none
    | some m ↦ elim (stoi (substr date 8 10)) [
      | none ↦ none
      | some d ↦ some (record { int_year = y % 2 ^ 16; int_month = m % 2 ^ 8; int_day = d % 2 ^ 8 })
    ]
  ]
]

unfoldable pub day_of_week_from_date : Text → Option ℕ
day_of_week_from_date date = elim (not_dashed date) [
  | none ↦ none
  | some true ↦ some 7
  | some false ↦ elim (date_parts date) [
    | none ↦ some 7
    | some p ↦ day_of_week p.int_day p.int_month p.int_year
  ]
]

unfoldable pub day_of_week_str_from_date : Text → Option Text
day_of_week_str_from_date date = elim (day_of_week_from_date date) [
  | none ↦ none
  | some day ↦ get_elem? days day
]

-- The overload of `days_between_dates` on texts, with its two error values.
unfoldable pub days_between_texts : Text → Text → Option ℕ
days_between_texts date1 date2 = elim (not_dashed date1) [
  | none ↦ none
  | some true ↦ some (2 ^ 16 - 1)
  | some false ↦ elim (not_dashed date2) [
    | none ↦ none
    | some true ↦ some (2 ^ 16 - 1)
    | some false ↦ elim (date_parts date1) [
      | none ↦ some (2 ^ 32 - 1)
      | some p ↦ elim (date_parts date2) [
        | none ↦ some (2 ^ 32 - 1)
        | some r ↦
            some (
              sub_u32 (rdn r.int_year r.int_month r.int_day) (rdn p.int_year p.int_month p.int_day))
      ]
    ]
  ]
]
