-- ===== src/Query/Requests.antt =====
-- The query that `DealsDatabase::searchFor` of src/deals_database.hpp makes of its parameters: the
-- setters in the order of the code, up to `execute`.
use deals_server.Prelude.{ℕ, Outcome, ◌>>=◌}
use deals_server.Types.Iata.{IataCode, IataCodes}
use deals_server.Types.Country.{CountryCodes}
use deals_server.Types.Date.{Date}
use deals_server.Types.Scalars.{Number, Boolean}
use deals_server.Types.Weekdays.{Weekdays}
use deals_server.Query.Search.{SearchQuery, Garbage, fresh}
use deals_server.Query.Setters

pub record Request : Type 0 where
  pub origin : IataCode
  pub destinations : IataCodes
  pub destination_countries : CountryCodes
  pub departure_date_from : Date
  pub departure_date_to : Date
  pub departure_days_of_week : Weekdays
  pub return_date_from : Date
  pub return_date_to : Date
  pub return_days_of_week : Weekdays
  pub stay_from : Number
  pub stay_to : Number
  pub direct_flights : Boolean
  pub limit : Number
  pub max_lifetime_sec : Number
  pub roundtrip_flights : Boolean
  pub departure_or_return_date : Date
  pub all_combinations : Boolean

unfoldable pub query_for : ℕ → Garbage → Request → Outcome SearchQuery
query_for now garbage r = do
  q ← Setters.origin (fresh garbage) r.origin
  q ← Setters.destinations q r.destinations
  q ← Setters.destination_countries q r.destination_countries
  q ← Setters.departure_dates q r.departure_date_from r.departure_date_to
  q ← Setters.return_dates q r.return_date_from r.return_date_to
  q ← Setters.departure_weekdays q r.departure_days_of_week
  q ← Setters.return_weekdays q r.return_days_of_week
  q ← Setters.stay_days q r.stay_from r.stay_to
  q ← Setters.direct_flights q r.direct_flights
  q ← Setters.roundtrip_flights q r.roundtrip_flights
  q ← Setters.max_lifetime_sec now q r.max_lifetime_sec
  q ← Setters.result_limit q r.limit
  q ← Setters.exact_departure_or_return_date q r.departure_or_return_date
  Setters.all_combinations
      (Setters.calc_departue_return_max_duration q r.departure_date_from r.departure_date_to
        r.return_date_from r.return_date_to)
      r.all_combinations
