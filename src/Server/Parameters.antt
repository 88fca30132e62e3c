-- ===== src/Server/Parameters.antt =====
-- The parameters that the handlers of src/deals_server.cpp read, in the order of the code, and the
-- checks on them.
pub mod Checks
pub mod Records
pub mod Windows
use deals_server.Prelude.{
  Bool, not, ◌&&◌, ◌||◌, codes, line, Outcome, ok, bad, ◌>>=◌, ◌>>◌, throw_if,
}
use deals_server.Types.Params.{ObjectMap, Optional, optional, required}
use deals_server.Types.Iata.{IataCode, IataCodes, iata_eq, iata_parameter, iatas_parameter}
use deals_server.Types.Country.{CountryCode, CountryCodes, country_parameter, countries_parameter}
use deals_server.Types.Date.{Date, date_gt, date_parameter}
use deals_server.Types.Scalars.{Number, Boolean, number_parameter, boolean_parameter}
use deals_server.Types.Weekdays.{Weekdays, weekdays_parameter}
use deals_server.Query.Requests.{Request}
use deals_server.Deals.Adding.{NewDeal}

-- isDefined() && isTrue(): what is defined is asked.
abbrev pub is_set : Boolean → Bool
is_set b = not b.paramter_undefined && b.value

-- The parameters of addDeal.
pub record Addition : Type 0 where
  pub deal : NewDeal
  pub locale : CountryCode

unfoldable pub add_deal_parameters : ObjectMap → Outcome Addition
add_deal_parameters params = do
  return_date ← optional {Base = Date} params (codes "return_date")
  departure_date ← required {Base = Date} params (codes "departure_date")
  price ← required {Base = Number} params (codes "price")
  locale ← required {Base = CountryCode} params (codes "locale")
  dst_country ← required {Base = CountryCode} params (codes "destination_country")
  origin ← required {Base = IataCode} params (codes "origin")
  destination ← required {Base = IataCode} params (codes "destination")
  direct_flight ← required {Base = Boolean} params (codes "direct_flight")
  throw_if (iata_eq origin destination) (bad (line "Error origin = destination"))
  throw_if (not return_date.base.paramter_undefined && date_gt departure_date return_date.base)
      (bad (line "departure date > return date"))
  ok (record {
    deal = record {
      origin = origin;
      destination = destination;
      destination_country = dst_country;
      departure_date = departure_date;
      return_date = return_date.base;
      direct_flight = direct_flight;
      price = price;
    };
    locale = locale;
  })

-- The parameters of getTop: those of the search, and the others.
pub record TopRequest : Type 0 where
  pub request : Request
  pub add_locale_top : Boolean
  pub group_by_date : Boolean
  pub group_by_country : Boolean
  pub locale : Optional CountryCode

-- The test on the dates of a request.
abbrev pub bad_dates : Request → Bool
bad_dates r =
    date_gt r.return_date_from r.return_date_to
    || date_gt r.departure_date_from r.departure_date_to
    || date_gt r.departure_date_from r.return_date_from
    || date_gt r.departure_date_from r.return_date_to
    || date_gt r.departure_date_to r.return_date_to

unfoldable pub top_parameters : ObjectMap → Outcome TopRequest
top_parameters params = do
  origin ← required {Base = IataCode} params (codes "origin")
  destinations ← optional {Base = IataCodes} params (codes "destinations")
  destination_countries ← optional {Base = CountryCodes} params (codes "destination_countries")
  departure_date_from ← optional {Base = Date} params (codes "departure_date_from")
  departure_date_to ← optional {Base = Date} params (codes "departure_date_to")
  return_date_from ← optional {Base = Date} params (codes "return_date_from")
  return_date_to ← optional {Base = Date} params (codes "return_date_to")
  dweekdays ← optional {Base = Weekdays} params (codes "departure_days_of_week")
  rweekdays ← optional {Base = Weekdays} params (codes "return_days_of_week")
  stay_from ← optional {Base = Number} params (codes "stay_from")
  stay_to ← optional {Base = Number} params (codes "stay_to")
  timelimit ← optional {Base = Number} params (codes "timelimit")
  deals_limit ← optional {Base = Number} params (codes "deals_limit")
  direct_flights ← optional {Base = Boolean} params (codes "direct_flights")
  roundtrip_flights ← optional {Base = Boolean} params (codes "roundtrip_flights")
  add_locale_top ← optional {Base = Boolean} params (codes "add_locale_top")
  group_by_date ← optional {Base = Boolean} params (codes "group_by_date")
  group_by_country ← optional {Base = Boolean} params (codes "group_by_country")
  locale ← optional {Base = CountryCode} params (codes "locale")
  departure_or_return_date ← optional {Base = Date} params (codes "departure_or_return_date")
  all_combinations ← optional {Base = Boolean} params (codes "all_combinations")
  ok (record {
    request = record {
      origin = origin;
      destinations = destinations.base;
      destination_countries = destination_countries.base;
      departure_date_from = departure_date_from.base;
      departure_date_to = departure_date_to.base;
      departure_days_of_week = dweekdays.base;
      return_date_from = return_date_from.base;
      return_date_to = return_date_to.base;
      return_days_of_week = rweekdays.base;
      stay_from = stay_from.base;
      stay_to = stay_to.base;
      direct_flights = direct_flights.base;
      limit = deals_limit.base;
      max_lifetime_sec = timelimit.base;
      roundtrip_flights = roundtrip_flights.base;
      departure_or_return_date = departure_or_return_date.base;
      all_combinations = all_combinations.base;
    };
    add_locale_top = add_locale_top.base;
    group_by_date = group_by_date.base;
    group_by_country = group_by_country.base;
    locale = locale;
  })

-- The parameters of getTop after the test on their dates.
unfoldable pub checked_parameters : ObjectMap → Outcome TopRequest
checked_parameters params = do
  t ← top_parameters params
  throw_if (bad_dates t.request) (bad (line "Bad date parameters in request"))
  ok t

-- The parameters of getDestiantionsTop.
pub record TopDestinations : Type 0 where
  pub locale : CountryCode
  pub departure_date_from : Date
  pub departure_date_to : Date
  pub destinations_limit : Number

unfoldable pub destinations_parameters : ObjectMap → Outcome TopDestinations
destinations_parameters params = do
  locale ← required {Base = CountryCode} params (codes "locale")
  departure_date_from ← optional {Base = Date} params (codes "departure_date_from")
  departure_date_to ← optional {Base = Date} params (codes "departure_date_to")
  destinations_limit ← optional {Base = Number} params (codes "destinations_limit")
  ok (record {
    locale = locale;
    departure_date_from = departure_date_from.base;
    departure_date_to = departure_date_to.base;
    destinations_limit = destinations_limit.base;
  })
