-- ===== src/Server/Parameters/Checks.antt =====
-- What the parameters of the handlers are checked for.
use deals_server.Prelude.{
  ◌≤◌, ◌≡◌, ◌≢◌, ◌⊎◌, Text, refl, Outcome, err, foreign, ◌>>=◌, true, false, codes, ok, arith,
}
use deals_server.Types.Params.{ObjectMap, Optional, optional, lookup, rethrow, bad_parameter_text}
use deals_server.Types.Params.Laws.{required-IsGiven}
use deals_server.Types.Iata.{IataCode, iata_eq, iata_parameter}
use deals_server.Types.Country.{CountryCode, country_parameter}
use deals_server.Types.Date.{
  Date, undefined_date, date_of_text, date_gt, compare_dates, date_parameter,
}
use deals_server.Types.Scalars.{Number, Boolean, number_parameter, boolean_parameter}
use deals_server.Server.Parameters.{Addition, add_deal_parameters, TopRequest, checked_parameters}

-- What a deal that is accepted has: all but the return date, two places, and a return that is not
-- before the departure.
pub record IsComplete (a : Addition) : Type 0 where
  pub has_origin : a.deal.origin.paramter_undefined ≡ false
  pub has_destination : a.deal.destination.paramter_undefined ≡ false
  pub has_country : a.deal.destination_country.paramter_undefined ≡ false
  pub has_departure : a.deal.departure_date.paramter_undefined ≡ false
  pub has_flight : a.deal.direct_flight.paramter_undefined ≡ false
  pub has_price : a.deal.price.paramter_undefined ≡ false
  pub has_locale : a.locale.paramter_undefined ≡ false
  pub elsewhere : a.deal.origin.code ≢ a.deal.destination.code
  pub returns :
      (a.deal.return_date ≡ undefined_date) ⊎ (a.deal.return_date.paramter_undefined ≡ false)
  pub later :
      (a.deal.return_date.paramter_undefined ≡ true)
      ⊎ (a.deal.departure_date.code ≤ a.deal.return_date.code)

-- A date that may be missing.
date_of_text_given :
    (text : Text) (d : Date)
    → date_of_text text ≡ ok d
    → (d ≡ undefined_date) ⊎ (d.paramter_undefined ≡ false)
unfolding date_of_text
date_of_text_given text d e = ground arith

optional_date :
    (params : ObjectMap) (name : Text) (o : Optional Date)
    → optional {Base = Date} params name ≡ ok o
    → (o.base ≡ undefined_date) ⊎ (o.base.paramter_undefined ≡ false)
unfolding optional
optional_date params name o e = by_text (date_of_text (lookup params name)) (date_of_text_given _) e
  where
    by_text :
        (m : Outcome Date)
        → ((d : Date) → m ≡ ok d → (d ≡ undefined_date) ⊎ (d.paramter_undefined ≡ false))
        → rethrow (bad_parameter_text name) (do
          b ← m
          ok (record { base = b; parameter_name = name; parameter_value = lookup params name }))
          ≡ ok o
        → (o.base ≡ undefined_date) ⊎ (o.base.paramter_undefined ≡ false)
    by_text (ok d) h e = ground (arith, h d refl)
    by_text (err x) h e = cc
    by_text foreign h e = cc

-- A deal whose parameters are accepted is complete: all but its return date is given, it leads from
-- one place to another, and it does not return, if it does, before it departs; a return date that is
-- missing is one without its parts.
pub add_deal_parameters-IsComplete :
    (params : ObjectMap) (a : Addition) → add_deal_parameters params ≡ ok a → IsComplete a
unfolding add_deal_parameters iata_eq compare_dates
add_deal_parameters-IsComplete params a e =
    by_return (optional {Base = Date} params (codes "return_date")) refl
  where
    by_return :
        (m : Outcome (Optional Date))
        → optional {Base = Date} params (codes "return_date") ≡ m
        → IsComplete a
    by_return (ok o) given = ground (
      arith,
      required-IsGiven Date params (codes "departure_date"),
      required-IsGiven Number params (codes "price"),
      required-IsGiven CountryCode params (codes "locale"),
      required-IsGiven CountryCode params (codes "destination_country"),
      required-IsGiven IataCode params (codes "origin"),
      required-IsGiven IataCode params (codes "destination"),
      required-IsGiven Boolean params (codes "direct_flight"),
      optional_date params (codes "return_date") o given,
    )
    by_return (err x) given = ground arith
    by_return foreign given = ground arith

-- The dates of a request that is accepted, where both are given.
abbrev pub InOrder : Date → Date → Type 0
InOrder a b = (a.paramter_undefined ≡ true) ⊎ ((b.paramter_undefined ≡ true) ⊎ (a.code ≤ b.code))

ordered : (a b : Date) → date_gt a b ≡ false → InOrder a b
unfolding compare_dates
ordered a b h = ground arith

-- A request of getTop whose parameters are accepted has its dates in order, where both are given:
-- neither interval is reversed, the departures begin no later than the returns begin and end, and end
-- no later than the returns end.
pub checked_parameters-InOrder :
    (params : ObjectMap) (t : TopRequest)
    → checked_parameters params ≡ ok t
    → let r = t.request in
      InOrder r.return_date_from r.return_date_to
      × InOrder r.departure_date_from r.departure_date_to
      × InOrder r.departure_date_from r.return_date_from
      × InOrder r.departure_date_from r.return_date_to
      × InOrder r.departure_date_to r.return_date_to
unfolding checked_parameters
checked_parameters-InOrder params t e = ground (
  arith,
  ordered t.request.return_date_from t.request.return_date_to,
  ordered t.request.departure_date_from t.request.departure_date_to,
  ordered t.request.departure_date_from t.request.return_date_from,
  ordered t.request.departure_date_from t.request.return_date_to,
  ordered t.request.departure_date_to t.request.return_date_to,
)
