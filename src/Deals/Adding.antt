-- ===== src/Deals/Adding.antt =====
-- DealsDatabase::addDeal of src/deals_database.cpp: the record that is added to the index. Where the
-- data was stored is an argument, the result of `addRecord` on the data.
pub mod Stays
use deals_server.Prelude.{
  ℕ, Bool, true, false, Option, none, some, ltb, if◌then◌else◌, Text, Outcome, ok, ◌>>=◌,
}
use deals_server.Types.Iata.{IataCode, iata_get_code}
use deals_server.Types.Country.{CountryCode, country_get_code}
use deals_server.Types.Date.{Date, get_code, days_after}
use deals_server.Types.Scalars.{Number, Boolean, get_value, is_true}
use deals_server.Types.Weekdays.{Weekdays, weekdays_of_date, get_bitmask}
use deals_server.Deals.Info.{DealInfo}

-- The parameters of a deal.
pub record NewDeal : Type 0 where
  pub origin : IataCode
  pub destination : IataCode
  pub destination_country : CountryCode
  pub departure_date : Date
  pub return_date : Date
  pub direct_flight : Boolean
  pub price : Number

-- Where the deal's data is.
pub record Stored : Type 0 where
  pub page_name : Text
  pub index : ℕ
  pub size : ℕ

-- return_date and stay_days; a stay is a uint8_t.
abbrev pub stay_of : Date → Date → ℕ
stay_of departure_date return_date =
    if return_date.paramter_undefined
    then 255
    else if ltb 255 (days_after return_date departure_date)
    then 255
    else days_after return_date departure_date

abbrev pub return_code : Date → Outcome ℕ
return_code return_date = if return_date.paramter_undefined then ok 0 else get_code return_date

unfoldable pub deal_info : ℕ → Stored → NewDeal → Weekdays → Weekdays → Outcome DealInfo
deal_info now result deal departure_day return_day = do
  from_code ← iata_get_code deal.origin
  to_code ← iata_get_code deal.destination
  country ← country_get_code deal.destination_country
  departs ← get_code deal.departure_date
  is_direct ← is_true deal.direct_flight
  departure_bits ← get_bitmask departure_day
  return_bits ← get_bitmask return_day
  paid ← get_value deal.price
  returns ← return_code deal.return_date
  ok (record {
    timestamp = now;
    origin = from_code;
    destination = to_code;
    departure_date = departs;
    return_date = returns;
    price = paid;
    stay_days = stay_of deal.departure_date deal.return_date;
    destination_country = country;
    departure_day_of_week = departure_bits;
    return_day_of_week = return_bits;
    direct = is_direct;
    overriden = false;
    page_name = result.page_name;
    index = result.index;
    size = result.size;
  })

-- `none` is a weekday that is read outside the table of months; both are asked for, also that of a
-- return date which is not given.
unfoldable pub add_deal : ℕ → Stored → NewDeal → Option (Outcome DealInfo)
add_deal now result deal = elim (weekdays_of_date deal.departure_date) [
  | none ↦ none
  | some departure_day ↦ elim (weekdays_of_date deal.return_date) [
    | none ↦ none
    | some return_day ↦ some (deal_info now result deal departure_day return_day)
  ]
]
