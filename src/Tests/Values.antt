-- ===== src/Tests/Values.antt =====
-- The texts of the parameters, at concrete values.
use deals_server.Prelude.{◌≡◌, ◌≡◌, refl, false, some, [], ◌∷◌, Text, codes, ok, arith, length}
use deals_server.Prelude.Decimal.{read_digits}
use deals_server.Utils.Strings.{split_loop, split_string}
use deals_server.Utils.Strings.Split.{IsSplit, split_string-IsSplit}
use deals_server.Types.Params.{ObjectMap, Optional, optional, lookup}
use deals_server.Types.Params.Laws.{Built, required-Built}
use deals_server.Types.Scalars.{Number, number_of_text, number_parameter}
use deals_server.Types.Country.{country_to_code, code_to_country}
use deals_server.Types.Country.Table.{country_to_code-code_to_country}
use deals_server.Types.Weekdays.{weekdays_bitmask}
use deals_server.Types.Weekdays.Bits.{IsMask, weekdays_bitmask-IsMask}

abbrev weekend : Text
weekend = codes "sat,SUN"

weekdays_bitmask-IsMask_example :
    IsMask (split_string weekend (b',' ∷ [])) (weekdays_bitmask weekend)
weekdays_bitmask-IsMask_example = weekdays_bitmask-IsMask weekend (λ e. ground arith)

split_string-IsSplit_example :
    (split_loop (length weekend) (b',' ∷ []) weekend ≡ some (split_string weekend (b',' ∷ [])))
    × IsSplit (b',' ∷ []) weekend (split_string weekend (b',' ∷ []))
split_string-IsSplit_example = split_string-IsSplit b',' [] weekend

country_to_code-code_to_country_example :
    (c : Text) × (code_to_country 5 ≡ some (ok c)) × (country_to_code c ≡ ok 5)
country_to_code-code_to_country_example = country_to_code-code_to_country 5 (omega arith)

russia : country_to_code (codes "RU") ≡ ok 184
unfolding country_to_code
russia = refl

abbrev request : ObjectMap
request = record { name = codes "limit"; value = codes "42" } ∷ []

required-Built_example :
    Built Number request (codes "limit") (number_of_text (lookup request (codes "limit")))
required-Built_example = required-Built Number request (codes "limit")

abbrev limit_given : Optional Number
limit_given = record {
  base = record { paramter_undefined = false; value = 42 };
  parameter_name = codes "limit";
  parameter_value = codes "42";
}

limit_parsed : optional request (codes "limit") ≡ ok limit_given
unfolding optional lookup number_of_text read_digits
limit_parsed = refl
