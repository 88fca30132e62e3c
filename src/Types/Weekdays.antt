-- ===== src/Types/Weekdays.antt =====
-- Weekdays and weekdays_bitmask of src/types.cpp.
pub mod Bits
use Prim.Native.Nat.{bit_or}
use deals_server.Prelude.{
  is_empty, ℕ, ◌^◌, Bool, true, false, List, [], ◌∷◌, ◌++◌, Option, none, some, ltb, ◌==◌,
  if◌then◌else◌, Text, line, codes, Outcome, ok, err, bad, ◌>>=◌, ◌>>◌, throw_if, length,
}
use deals_server.Utils.Days.{day_of_week_bitmask_from_str}
use deals_server.Utils.Strings.{split_string}
use deals_server.Types.Date.{Date, weekday}
use deals_server.Types.Params.{Parameter}

-- The loop over the names, with the bits that are found so far.
unfoldable pub join_days : Text → ℕ → List Text → Outcome ℕ
join_days whole result [] = ok result
join_days whole result (day ∷ days) =
    let daymask = day_of_week_bitmask_from_str day in
    let rest = join_days whole (bit_or result daymask) days in
    if ltb 64 daymask
    then err (bad (codes "Bad day '" ++ (day ++ (codes "' in [" ++ (whole ++ line "]")))))
    else rest

unfoldable pub weekdays_bitmask : Text → Outcome ℕ
weekdays_bitmask days_of_week =
    if is_empty days_of_week then err (bad (line "Day of week undefined")) else (do
      result ← join_days days_of_week 0 (split_string days_of_week (b',' ∷ []))
      throw_if (result == 0) (bad (codes "Cannot parse days of week:" ++ (days_of_week ++ 10 ∷ [])))
      ok result)

pub record Weekdays : Type 0 where
  pub paramter_undefined : Bool
  pub bitmask : ℕ

-- Weekdays(std::string).
unfoldable pub weekdays_of_text : Text → Outcome Weekdays
weekdays_of_text wd =
    if is_empty wd
    then ok (record { paramter_undefined = true; bitmask = 0 })
    else (do b ← weekdays_bitmask wd; ok (record { paramter_undefined = false; bitmask = b }))

-- Weekdays(Date): the day of the week is below 7, so the bit fits the uint8_t. `none` is the read
-- outside the table of months.
unfoldable pub weekdays_of_date : Date → Option Weekdays
weekdays_of_date date = elim (weekday date) [
  | none ↦ none
  | some day ↦ some (record { paramter_undefined = false; bitmask = 2 ^ day })
]

unfoldable pub get_bitmask : Weekdays → Outcome ℕ
get_bitmask w =
    if w.paramter_undefined then err (bad (line "Weekdays value not defined")) else ok w.bitmask

instance abbrev pub weekdays_parameter : Parameter Weekdays
weekdays_parameter = record { of_text = weekdays_of_text; is_undefined = λ w. w.paramter_undefined }
