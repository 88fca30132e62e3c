-- ===== src/Utils/Days.antt =====
-- The names of the weekdays and their bits, src/utils.cpp and src/utils.hpp.
pub mod Names
use deals_server.Prelude.{
  ℕ, suc, ◌^◌, List, [], ◌∷◌, ◌==◌, if◌then◌else◌, Text, codes, text_eq, take,
}
use deals_server.Utils.Strings.{to_lower_case}

-- The entries of `days`; the last one stands for an error.
abbrev pub days : List Text
days =
    codes "mon"
    ∷ codes "tue"
    ∷ codes "wed"
    ∷ codes "thu"
    ∷ codes "fri"
    ∷ codes "sat"
    ∷ codes "sun"
    ∷ []
    ∷ []

-- Those that name a day.
abbrev pub day_names : List Text
day_names = take 7 days

-- The loop over the names, at index i; behind the last one the answer is the error value 7.
unfoldable pub search_days : Text → List Text → ℕ → ℕ
search_days weekday [] i = 7
search_days weekday (name ∷ names) i =
    let rest = search_days weekday names (suc i) in if text_eq name weekday then i else rest

unfoldable pub day_of_week_from_str : Text → ℕ
day_of_week_from_str weekday = search_days (to_lower_case weekday) day_names 0

unfoldable pub day_of_week_bitmask_from_str : Text → ℕ
day_of_week_bitmask_from_str weekday = 2 ^ day_of_week_from_str weekday

unfoldable pub day_of_week_str_from_bitmask : ℕ → Text
day_of_week_str_from_bitmask code =
    if code == 1
    then codes "mon"
    else if code == 2
    then codes "tue"
    else if code == 4
    then codes "wed"
    else if code == 8
    then codes "thu"
    else if code == 16
    then codes "fri"
    else if code == 32
    then codes "sat"
    else if code == 64
    then codes "sun"
    else []
