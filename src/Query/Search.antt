-- ===== src/Query/Search.antt =====
-- The members of SearchQuery. Those with no initialiser in the class are indeterminate in a fresh
-- object: their values are given by `Garbage`.
use deals_server.Prelude.{ℕ, Bool, false, List, []}

pub record DateInterval : Type 0 where
  pub from : ℕ
  pub to : ℕ
  pub duration : ℕ

pub record StayInterval : Type 0 where
  pub from : ℕ
  pub to : ℕ

-- What the memory of a new object happens to hold.
pub record Garbage : Type 0 where
  pub origin_value : ℕ
  pub departure_date_values : DateInterval
  pub return_date_values : DateInterval
  pub exact_date_value : ℕ
  pub timestamp_value : ℕ
  pub direct_flights_flag : Bool
  pub roundtrip_flight_flag : Bool
  pub departure_weekdays_bitmask : ℕ
  pub return_weekdays_bitmask : ℕ
  pub stay_days_values : StayInterval
  pub locale_value : ℕ

pub record SearchQuery : Type 0 where
  pub departure_return_max_duration : ℕ
  pub min_timestamp : ℕ
  pub filter_origin : Bool
  pub origin_value : ℕ
  pub filter_destination : Bool
  pub destination_values_set : List ℕ
  pub filter_destination_country : Bool
  pub destination_country_set : List ℕ
  pub filter_departure_date : Bool
  pub departure_date_values : DateInterval
  pub filter_return_date : Bool
  pub return_date_values : DateInterval
  pub filter_exact_date : Bool
  pub exact_date_value : ℕ
  pub filter_timestamp : Bool
  pub timestamp_value : ℕ
  pub filter_flight_by_stops : Bool
  pub direct_flights_flag : Bool
  pub filter_flight_by_roundtrip : Bool
  pub roundtrip_flight_flag : Bool
  pub filter_departure_weekdays : Bool
  pub departure_weekdays_bitmask : ℕ
  pub filter_return_weekdays : Bool
  pub return_weekdays_bitmask : ℕ
  pub filter_stay_days : Bool
  pub stay_days_values : StayInterval
  pub filter_result_limit : ℕ
  pub filter_locale : Bool
  pub locale_value : ℕ
  pub filter_all_combinations : Bool

-- A new object.
abbrev pub fresh : Garbage → SearchQuery
fresh g = record {
  departure_return_max_duration = 0;
  min_timestamp = 0;
  filter_origin = false;
  origin_value = g.origin_value;
  filter_destination = false;
  destination_values_set = [];
  filter_destination_country = false;
  destination_country_set = [];
  filter_departure_date = false;
  departure_date_values = g.departure_date_values;
  filter_return_date = false;
  return_date_values = g.return_date_values;
  filter_exact_date = false;
  exact_date_value = g.exact_date_value;
  filter_timestamp = false;
  timestamp_value = g.timestamp_value;
  filter_flight_by_stops = false;
  direct_flights_flag = g.direct_flights_flag;
  filter_flight_by_roundtrip = false;
  roundtrip_flight_flag = g.roundtrip_flight_flag;
  filter_departure_weekdays = false;
  departure_weekdays_bitmask = g.departure_weekdays_bitmask;
  filter_return_weekdays = false;
  return_weekdays_bitmask = g.return_weekdays_bitmask;
  filter_stay_days = false;
  stay_days_values = g.stay_days_values;
  filter_result_limit = 20;
  filter_locale = false;
  locale_value = g.locale_value;
  filter_all_combinations = false;
}
