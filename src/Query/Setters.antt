-- ===== src/Query/Setters.antt =====
-- The setters of SearchQuery. A setter whose parameter was not given changes nothing.
use deals_server.Prelude.{
  ℕ, ◌+◌, ◌%◌, Bool, true, false, not, ◌&&◌, ◌||◌, List, [], ◌∷◌, is_empty, leb, ltb, ◌==◌,
  if◌then◌else◌, codes, line, Outcome, ok, bad, ◌>>=◌, ◌>>◌, throw_if, Error, Text,
}
use deals_server.Utils.Calendar.{u32, sub_u32}
use deals_server.Types.Iata.{IataCode, IataCodes, iata_get_code}
use deals_server.Types.Country.{CountryCode, CountryCodes, country_get_code}
use deals_server.Types.Date.{Date, get_code, days_after}
use deals_server.Types.Weekdays.{Weekdays, get_bitmask}
use deals_server.Types.Scalars.{Number, get_value, Boolean, is_true}
use deals_server.Query.Search.{SearchQuery, DateInterval}

-- unordered_set<uint32_t>, the newest element first.
unfoldable pub contains : List ℕ → ℕ → Bool
contains [] x = false
contains (y ∷ ys) x = y == x || contains ys x

unfoldable pub insert : List ℕ → ℕ → List ℕ
insert ys x = if contains ys x then ys else x ∷ ys

unfoldable pub origin : SearchQuery → IataCode → Outcome SearchQuery
origin q value = if value.paramter_undefined then ok q else (do
  code ← iata_get_code value
  ok (record q { filter_origin = true; origin_value = code }))

-- The loop over the given codes.
unfoldable pub insert_places : List ℕ → List IataCode → Outcome (List ℕ)
insert_places set [] = ok set
insert_places set (dst ∷ dsts) = do code ← iata_get_code dst; insert_places (insert set code) dsts

unfoldable pub destinations : SearchQuery → IataCodes → Outcome SearchQuery
destinations q value = if value.paramter_undefined then ok q else (do
  set ← insert_places [] value.codes
  ok (record q {
    destination_values_set = set;
    filter_destination = if is_empty set then q.filter_destination else true;
  }))

unfoldable pub insert_countries : List ℕ → List CountryCode → Outcome (List ℕ)
insert_countries set [] = ok set
insert_countries set (c ∷ cs) = do code ← country_get_code c; insert_countries (insert set code) cs

unfoldable pub destination_countries : SearchQuery → CountryCodes → Outcome SearchQuery
destination_countries q value = if value.paramter_undefined then ok q else (do
  set ← insert_countries [] value.codes
  ok (record q {
    destination_country_set = set;
    filter_destination_country = if is_empty set then q.filter_destination_country else true;
  }))

-- The time of the call is an argument; the difference is on uint32_t.
unfoldable pub max_lifetime_sec : ℕ → SearchQuery → Number → Outcome SearchQuery
max_lifetime_sec now q max_lifetime = if max_lifetime.paramter_undefined then ok q else (do
  value ← get_value max_lifetime
  ok (record q { filter_timestamp = true; timestamp_value = sub_u32 now value }))

-- An end that is not given is open.
abbrev pub end_or : ℕ → Date → Outcome ℕ
end_or open_end date = if date.paramter_undefined then ok open_end else get_code date

-- days_after() + 1 on uint32_t.
abbrev pub days_inclusive : Date → Date → ℕ
days_inclusive from to = (days_after to from + 1) % u32

abbrev pub duration_of : Date → Date → ℕ
duration_of from to =
    if from.paramter_undefined || to.paramter_undefined then 0 else days_inclusive from to

-- The assignments and the check that `departure_dates` and `return_dates` share.
unfoldable pub date_interval : Error → Date → Date → Outcome DateInterval
date_interval reversed from to = do
  first ← end_or 0 from
  last ← end_or 0xffff_ffff to
  throw_if (ltb last first) reversed
  ok (record { from = first; to = last; duration = duration_of from to })

unfoldable pub departure_dates : SearchQuery → Date → Date → Outcome SearchQuery
departure_dates q from to = if from.paramter_undefined && to.paramter_undefined then ok q else (do
  interval ←
      date_interval (bad (line "departure_dates departure_date_from > departure_date_to")) from to
  ok (record q { filter_departure_date = true; departure_date_values = interval }))

unfoldable pub return_dates : SearchQuery → Date → Date → Outcome SearchQuery
return_dates q from to = if from.paramter_undefined && to.paramter_undefined then ok q else (do
  interval ← date_interval (bad (line "departure_dates return_date_from > return_date_to")) from to
  ok (record q { filter_return_date = true; return_date_values = interval }))

unfoldable pub exact_departure_or_return_date : SearchQuery → Date → Outcome SearchQuery
exact_departure_or_return_date q exact_date = if exact_date.paramter_undefined then ok q else (do
  code ← get_code exact_date
  ok (record q { filter_exact_date = true; exact_date_value = code }))

unfoldable pub calc_departue_return_max_duration :
    SearchQuery → Date → Date → Date → Date → SearchQuery
calc_departue_return_max_duration q departure_from departure_to return_from return_to =
    let dep_range = duration_of departure_from departure_to in
    let ret_range = duration_of return_from return_to in
    if not departure_from.paramter_undefined && not return_to.paramter_undefined
    then record q { departure_return_max_duration = days_inclusive departure_from return_to }
    else record q {
      departure_return_max_duration = if ltb ret_range dep_range then dep_range else ret_range;
    }

-- `stay_from > UINT8_MAX` and the value that is kept, for one end.
abbrev pub stay_end : ℕ → Text → Number → Outcome ℕ
stay_end open_end message stay =
    if stay.paramter_undefined
    then ok open_end
    else (do value ← get_value stay; throw_if (ltb 255 value) (bad message); ok value)

unfoldable pub stay_days : SearchQuery → Number → Number → Outcome SearchQuery
stay_days q stay_from stay_to =
    if stay_from.paramter_undefined && stay_to.paramter_undefined then ok q else (do
      from ← stay_end 0 (codes "stay_from > 255") stay_from
      to ← stay_end 255 (codes "stay_to > 255") stay_to
      throw_if (ltb to from) (bad (codes "stay_from > stay_to"))
      ok (record q { filter_stay_days = true; stay_days_values = record { from = from; to = to } }))

unfoldable pub departure_weekdays : SearchQuery → Weekdays → Outcome SearchQuery
departure_weekdays q days_of_week = if days_of_week.paramter_undefined then ok q else (do
  mask ← get_bitmask days_of_week
  ok (record q { filter_departure_weekdays = true; departure_weekdays_bitmask = mask }))

unfoldable pub return_weekdays : SearchQuery → Weekdays → Outcome SearchQuery
return_weekdays q days_of_week = if days_of_week.paramter_undefined then ok q else (do
  mask ← get_bitmask days_of_week
  ok (record q { filter_return_weekdays = true; return_weekdays_bitmask = mask }))

unfoldable pub direct_flights : SearchQuery → Boolean → Outcome SearchQuery
direct_flights q flag = if flag.paramter_undefined then ok q else (do
  direct ← is_true flag
  ok (record q { filter_flight_by_stops = true; direct_flights_flag = direct }))

unfoldable pub roundtrip_flights : SearchQuery → Boolean → Outcome SearchQuery
roundtrip_flights q flag = if flag.paramter_undefined then ok q else (do
  roundtrip ← is_true flag
  ok (record q { filter_flight_by_roundtrip = true; roundtrip_flight_flag = roundtrip }))

unfoldable pub result_limit : SearchQuery → Number → Outcome SearchQuery
result_limit q limit = if limit.paramter_undefined then ok q else (do
  value ← get_value limit
  throw_if (not (ltb 0 value && leb value 367)) (bad (line "deals_limit to big"))
  ok (record q { filter_result_limit = value }))

unfoldable pub locale : SearchQuery → CountryCode → Outcome SearchQuery
locale q value = if value.paramter_undefined then ok q else (do
  code ← country_get_code value
  ok (record q { filter_locale = true; locale_value = code }))

unfoldable pub all_combinations : SearchQuery → Boolean → Outcome SearchQuery
all_combinations q flag =
    if flag.paramter_undefined
    then ok q
    else (do set ← is_true flag; ok (record q { filter_all_combinations = set }))
