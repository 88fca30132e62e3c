-- ===== src/Server/Parameters/Records.antt =====
-- What is stored of a deal that is accepted.
use deals_server.Prelude.{
  ℕ, ◌≤◌, ◌≡◌, ◌≢◌, refl, ap, ◌∙◌, inl, inr, false, none, some, ok, arith, if◌then◌else◌,
}
use deals_server.Utils.Calendar.{day_of_week, month_offset}
use deals_server.Types.Params.{ObjectMap}
use deals_server.Types.Iata.{iata_get_code}
use deals_server.Types.Country.{country_get_code}
use deals_server.Types.Date.{Date, undefined_date, weekday, get_field}
use deals_server.Types.Scalars.{get_value, is_true}
use deals_server.Types.Weekdays.{Weekdays, weekdays_of_date, get_bitmask}
use deals_server.Deals.Info.{DealInfo}
use deals_server.Deals.Adding
use deals_server.Deals.Adding.{NewDeal, Stored, deal_info, stay_of}
use deals_server.Server.Parameters.{Addition, add_deal_parameters}
use deals_server.Server.Parameters.Checks.{IsComplete, add_deal_parameters-IsComplete}

-- The record of a deal for the index.
pub record IsRecord (now : ℕ) (stored : Stored) (deal : NewDeal) (info : DealInfo) : Type 0 where
  pub at_now : info.timestamp ≡ now
  pub placed :
      (info.page_name ≡ stored.page_name) × (info.index ≡ stored.index) × (info.size ≡ stored.size)
  pub leads : (info.origin ≡ deal.origin.code) × (info.destination ≡ deal.destination.code)
  pub elsewhere : info.origin ≢ info.destination
  pub departs : info.departure_date ≡ deal.departure_date.code
  pub returns : info.return_date ≡ deal.return_date.code
  pub later : info.departure_date ≤ info.return_date
  pub costs : info.price ≡ deal.price.value

weekdays_of_date_given :
    (d : Date) (w : Weekdays) → weekdays_of_date d ≡ some w → w.paramter_undefined ≡ false
unfolding weekdays_of_date
weekdays_of_date_given d w e = ground arith

-- A date that is missing has no weekday.
undefined_date_lem : weekdays_of_date undefined_date ≡ none
unfolding weekdays_of_date weekday day_of_week month_offset
undefined_date_lem = refl

returns_given :
    (a : Addition) (return : Weekdays)
    → IsComplete a
    → weekdays_of_date a.deal.return_date ≡ some return
    → a.deal.return_date.paramter_undefined ≡ false
returns_given a return is r = elim is.returns [
  | inl missing ↦ absurd (cc (r, undefined_date_lem, ap weekdays_of_date missing))
  | inr given ↦ given
]

abbrev record_of : ℕ → Stored → NewDeal → Weekdays → Weekdays → DealInfo
record_of now stored deal departure return = record {
  timestamp = now;
  origin = deal.origin.code;
  destination = deal.destination.code;
  departure_date = deal.departure_date.code;
  return_date = if deal.return_date.paramter_undefined then 0 else deal.return_date.code;
  price = deal.price.value;
  stay_days = stay_of deal.departure_date deal.return_date;
  destination_country = deal.destination_country.code;
  departure_day_of_week = departure.bitmask;
  return_day_of_week = return.bitmask;
  direct = deal.direct_flight.value;
  overriden = false;
  page_name = stored.page_name;
  index = stored.index;
  size = stored.size;
}

deal_info_lem :
    (now : ℕ) (stored : Stored) (a : Addition) (departure return : Weekdays)
    → IsComplete a
    → departure.paramter_undefined ≡ false
    → return.paramter_undefined ≡ false
    → deal_info now stored a.deal departure return
      ≡ ok (record_of now stored a.deal departure return)
unfolding deal_info iata_get_code country_get_code get_field is_true get_bitmask get_value
deal_info_lem now stored a departure return is d r = ground arith

record_of-IsRecord :
    (now : ℕ) (stored : Stored) (a : Addition) (departure return : Weekdays)
    → IsComplete a
    → a.deal.return_date.paramter_undefined ≡ false
    → IsRecord now stored a.deal (record_of now stored a.deal departure return)
record_of-IsRecord now stored a departure return is given = record {
  at_now = refl;
  placed = (refl, refl, refl);
  leads = (refl, refl);
  elsewhere = is.elsewhere;
  departs = refl;
  returns = ground arith;
  later = ground (arith, is.later);
  costs = refl;
}

added :
    (now : ℕ) (stored : Stored) (deal : NewDeal) (departure return : Weekdays)
    → weekdays_of_date deal.departure_date ≡ some departure
    → weekdays_of_date deal.return_date ≡ some return
    → Adding.add_deal now stored deal ≡ some (deal_info now stored deal departure return)
unfolding Adding.add_deal
added now stored deal departure return d r = ground arith

-- The parameters of a deal that are accepted make a record for the index, without an error, where the
-- weekdays of both dates are read inside the table of months: the record has the time, the place of
-- the data, the codes of two places, the price, and the dates of the deal, of which the return is given
-- and not before the departure.
pub add_deal-IsRecord :
    (now : ℕ) (stored : Stored) (params : ObjectMap) (a : Addition) (departure return : Weekdays)
    → add_deal_parameters params ≡ ok a
    → weekdays_of_date a.deal.departure_date ≡ some departure
    → weekdays_of_date a.deal.return_date ≡ some return
    → (info : DealInfo) × (Adding.add_deal now stored a.deal ≡ some (ok info))
      × IsRecord now stored a.deal info
add_deal-IsRecord now stored params a departure return e d r =
    let is = add_deal_parameters-IsComplete params a e in
    (
      record_of now stored a.deal departure return,
      added now stored a.deal departure return d r
          ∙ ap some (
              deal_info_lem now stored a departure return is
                (weekdays_of_date_given a.deal.departure_date departure d)
                (weekdays_of_date_given a.deal.return_date return r)),
      record_of-IsRecord now stored a departure return is (returns_given a return is r),
    )
