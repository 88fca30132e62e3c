-- ===== src/Deals/Filter.antt =====
-- DealsSearchQuery of src/deals_query.cpp: which deals of the table a query passes on.
pub mod Matches
use Prim.Native.Nat.{bit_and}
use deals_server.Prelude.{
  ℕ, ◌*◌, Bool, true, false, not, ◌&&◌, ◌||◌, List, [], ◌∷◌, leb, ltb, ◌==◌, bool_eq, if◌then◌else◌,
  max, take, length,
}
use deals_server.Utils.Calendar.{sub_u32}
use deals_server.Query.Search.{SearchQuery}
use deals_server.Query.Setters.{contains}
use deals_server.Deals.Info.{DealInfo}

-- DEALS_EXPIRES, a day.
abbrev pub deals_expires : ℕ
deals_expires = 60 * 60 * 24

-- The bound that `execute` sets, in uint32_t.
unfoldable pub set_min_timestamp : ℕ → ℕ → SearchQuery → SearchQuery
set_min_timestamp global_expire_at now q = record q {
  min_timestamp = sub_u32 (max global_expire_at now) deals_expires;
}

-- The tests of `process_element`, each the condition of an early return.
abbrev pub expired : SearchQuery → DealInfo → Bool
expired q deal = leb deal.timestamp q.min_timestamp

abbrev pub other_origin : SearchQuery → DealInfo → Bool
other_origin q deal = q.filter_origin && not (q.origin_value == deal.origin)

abbrev pub too_old : SearchQuery → DealInfo → Bool
too_old q deal = q.filter_timestamp && ltb deal.timestamp q.timestamp_value

abbrev pub wrong_direction : SearchQuery → DealInfo → Bool
wrong_direction q deal =
    q.filter_flight_by_roundtrip
    && (if q.roundtrip_flight_flag then deal.return_date == 0 else not (deal.return_date == 0))

abbrev pub other_destination : SearchQuery → DealInfo → Bool
other_destination q deal =
    q.filter_destination && not (contains q.destination_values_set deal.destination)

abbrev pub other_country : SearchQuery → DealInfo → Bool
other_country q deal =
    q.filter_destination_country
    && not (contains q.destination_country_set deal.destination_country)

abbrev pub departs_outside : SearchQuery → DealInfo → Bool
departs_outside q deal =
    q.filter_departure_date
    && (ltb deal.departure_date q.departure_date_values.from
        || ltb q.departure_date_values.to deal.departure_date)

abbrev pub returns_outside : SearchQuery → DealInfo → Bool
returns_outside q deal =
    q.filter_return_date
    && (ltb deal.return_date q.return_date_values.from
        || ltb q.return_date_values.to deal.return_date)

abbrev pub misses_exact_date : SearchQuery → DealInfo → Bool
misses_exact_date q deal =
    q.filter_exact_date
    && (not (deal.return_date == q.exact_date_value)
        && not (deal.departure_date == q.exact_date_value))

abbrev pub stays_outside : SearchQuery → DealInfo → Bool
stays_outside q deal =
    q.filter_stay_days
    && (ltb deal.stay_days q.stay_days_values.from || ltb q.stay_days_values.to deal.stay_days)

abbrev pub other_stops : SearchQuery → DealInfo → Bool
other_stops q deal = q.filter_flight_by_stops && not (bool_eq q.direct_flights_flag deal.direct)

abbrev pub other_departure_weekday : SearchQuery → DealInfo → Bool
other_departure_weekday q deal =
    q.filter_departure_weekdays
    && bit_and deal.departure_day_of_week q.departure_weekdays_bitmask == 0

abbrev pub other_return_weekday : SearchQuery → DealInfo → Bool
other_return_weekday q deal =
    q.filter_return_weekdays && bit_and deal.return_day_of_week q.return_weekdays_bitmask == 0

-- `process_element` up to the call of `process_deal`: true where that is reached.
unfoldable pub selects : SearchQuery → DealInfo → Bool
selects q deal =
    if expired q deal
    then false
    else if other_origin q deal
    then false
    else if too_old q deal
    then false
    else if wrong_direction q deal
    then false
    else if other_destination q deal
    then false
    else if other_country q deal
    then false
    else if departs_outside q deal
    then false
    else if returns_outside q deal
    then false
    else if misses_exact_date q deal
    then false
    else if stays_outside q deal
    then false
    else if other_stops q deal
    then false
    else if other_departure_weekday q deal
    then false
    else if other_return_weekday q deal
    then false
    else true

-- The call of `process_element` on each deal of the table, with the state of the derived class.
unfoldable pub process_elements {ℓ} :
    {S : Type ℓ} → SearchQuery → (S → DealInfo → S) → S → List DealInfo → S
process_elements q process_deal s [] = s
process_elements q process_deal s (deal ∷ deals) =
    process_elements q process_deal (if selects q deal then process_deal s deal else s) deals

-- `if (result.size() > filter_result_limit) result.resize(filter_result_limit);`
unfoldable pub limited : SearchQuery → List DealInfo → List DealInfo
limited q result =
    if ltb q.filter_result_limit (length result) then take q.filter_result_limit result else result
