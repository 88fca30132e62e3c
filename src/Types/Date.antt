-- ===== src/Types/Date.antt =====
-- Date and the date codec of src/types.cpp. The members are unsigned words; `none` is a read outside
-- a table, which the program does not guard against.
pub mod Codec
pub mod Order
use deals_server.Prelude.{
  is_empty, ℕ, ◌+◌, ◌-◌, ◌*◌, ◌/◌, ◌%◌, ◌^◌, Bool, true, false, not, ◌&&◌, ◌||◌, List, [], ◌∷◌,
  ◌++◌, Option, leb, ltb, ◌==◌, if◌then◌else◌, Text, line, codes, Outcome, ok, err, bad, internal,
  ◌>>=◌, length, take, drop, get_or,
}
use deals_server.Prelude.Decimal.{to_string}
use deals_server.Utils.Numbers.{Stol, stol}
use deals_server.Utils.Calendar.{u32, sub_u32, day_of_week, days_between_dates}
use deals_server.Types.Params.{Parameter}

-- std::string::erase(pos, 1).
unfoldable pub erase : Text → ℕ → Text
erase s pos = take pos s ++ drop (pos + 1) s

abbrev pub wrong_date_format : Text → Text
wrong_date_format date = codes "wrong date format:'" ++ (date ++ line "'")

-- The return statement of `date_to_int`, a long converted to uint32_t, and its handler.
unfoldable pub parsed_date : Text → Stol → Outcome ℕ
parsed_date date (Stol.value n) = ok (n % u32)
parsed_date date Stol.invalid_argument = err (bad (wrong_date_format date))
parsed_date date Stol.out_of_range = err (bad (wrong_date_format date))

unfoldable pub date_to_int : Text → Outcome ℕ
unfolding erase parsed_date
date_to_int date =
    if not (length date == 10)
    then err (bad (wrong_date_format date))
    else if not (get_or date 4 0 == b'-') || not (get_or date 7 0 == b'-')
    then err (bad (wrong_date_format date))
    else let digits = erase (erase date 4) 6 in parsed_date digits (stol digits)

-- A month or a day with a zero in front below 10.
unfoldable pub two_digits : ℕ → Text
two_digits n = (if ltb n 10 then b'0' ∷ [] else []) ++ to_string n

-- The locals of `int_to_date` are uint16_t; the differences are taken in uint32_t.
unfoldable pub year_of_code : ℕ → ℕ
year_of_code date = date / 10000 % 2 ^ 16

unfoldable pub month_of_code : ℕ → ℕ
unfolding year_of_code
month_of_code date = sub_u32 date (year_of_code date * 10000) / 100 % 2 ^ 16

unfoldable pub day_of_code : ℕ → ℕ
unfolding year_of_code month_of_code
day_of_code date =
    sub_u32 (sub_u32 date (year_of_code date * 10000)) (month_of_code date * 100) % 2 ^ 16

unfoldable pub int_to_date : ℕ → Outcome Text
int_to_date date =
    if date == 0
    then err (internal (codes "wrong date code:'" ++ (to_string date ++ line "'")))
    else ok (
        to_string (year_of_code date)
        ++ (b'-' ∷ (two_digits (month_of_code date) ++ (b'-' ∷ two_digits (day_of_code date)))))

pub record Date : Type 0 where
  pub paramter_undefined : Bool
  pub code : ℕ
  pub day : ℕ
  pub month : ℕ
  pub year : ℕ

abbrev pub undefined_date : Date
undefined_date = record { paramter_undefined = true; code = 0; day = 0; month = 0; year = 0 }

-- The members that the constructor cuts out of the code.
abbrev pub date_of_code : ℕ → Date
date_of_code code = record {
  paramter_undefined = false;
  code = code;
  day = code % 100;
  month = code / 100 % 100;
  year = code / 10000 % 2 ^ 16;
}

-- Date(std::string).
unfoldable pub date_of_text : Text → Outcome Date
unfolding date_to_int
date_of_text text =
    if is_empty text
    then ok undefined_date
    else (do code ← date_to_int text; ok (date_of_code code))

-- The four getters refuse a date that is not given.
unfoldable pub get_field : (Date → ℕ) → Date → Outcome ℕ
get_field field d =
    if d.paramter_undefined then err (bad (line "Date parameter not defined")) else ok (field d)

abbrev pub get_code : Date → Outcome ℕ
get_code = get_field λ d. d.code

abbrev pub get_year : Date → Outcome ℕ
get_year = get_field λ d. d.year

abbrev pub get_month : Date → Outcome ℕ
get_month = get_field λ d. d.month

abbrev pub get_day : Date → Outcome ℕ
get_day = get_field λ d. d.day

-- this->days_after(date).
unfoldable pub days_after : Date → Date → ℕ
unfolding days_between_dates
days_after this date =
    days_between_dates date.year date.month date.day this.year this.month this.day

-- Date::day_of_week.
unfoldable pub weekday : Date → Option ℕ
unfolding day_of_week
weekday d = day_of_week d.day d.month d.year

-- The comparison operators: nothing holds of a date that is not given.
unfoldable pub compare_dates : (ℕ → ℕ → Bool) → Date → Date → Bool
compare_dates op a b =
    if a.paramter_undefined || b.paramter_undefined then false else op a.code b.code

abbrev pub date_lt : Date → Date → Bool
date_lt = compare_dates λ a b. ltb a b

abbrev pub date_le : Date → Date → Bool
date_le = compare_dates λ a b. leb a b

abbrev pub date_gt : Date → Date → Bool
date_gt = compare_dates λ a b. ltb b a

abbrev pub date_ge : Date → Date → Bool
date_ge = compare_dates λ a b. leb b a

abbrev pub date_eq : Date → Date → Bool
date_eq = compare_dates λ a b. a == b

instance abbrev pub date_parameter : Parameter Date
date_parameter = record { of_text = date_of_text; is_undefined = λ d. d.paramter_undefined }
