-- ===== src/Server/Parameters/Windows.antt =====
-- The dates of a getTop request, and the query that they make.
use deals_server.Prelude.{
  ℕ, ◌-◌, ◌^◌, ◌≤◌, ◌<◌, ◌≡◌, refl, ◌⊎◌, true, ◌&&◌, if◌then◌else◌, Text, codes, Outcome, ok, err,
  foreign, Error, bad, line, arith, ◌>>=◌,
}
use deals_server.Utils.Numbers.{Stol, stol}
use deals_server.Utils.Calendar.{u32}
use deals_server.Types.Params.{ObjectMap, Optional, optional, lookup, rethrow, bad_parameter_text}
use deals_server.Types.Date.{
  Date, date_parameter, date_of_text, date_to_int, parsed_date, erase, get_field,
}
use deals_server.Query.Search.{SearchQuery, DateInterval}
use deals_server.Query.Setters.{departure_dates, return_dates, date_interval, duration_of}
use deals_server.Server.Parameters.{TopRequest, top_parameters, checked_parameters}
use deals_server.Server.Parameters.Checks.{InOrder, checked_parameters-InOrder}

-- A date that is given has a code of 32 bits.
abbrev IsCoded : Date → Type 0
IsCoded d = (d.paramter_undefined ≡ true) ⊎ (d.code < u32)

abbrev IsDated : Outcome (Optional Date) → Type 0
IsDated (ok o) = IsCoded o.base
IsDated (err e) = Unit {0}
IsDated foreign = Unit {0}

abbrev IsShort : Outcome ℕ → Type 0
IsShort (ok n) = n < u32
IsShort (err e) = Unit {0}
IsShort foreign = Unit {0}

parsed_date-IsShort : (text : Text) (s : Stol) → IsShort (parsed_date text s)
unfolding parsed_date
parsed_date-IsShort text (Stol.value k) = omega arith
parsed_date-IsShort text Stol.invalid_argument = tt
parsed_date-IsShort text Stol.out_of_range = tt

date_of_text-IsCoded : (text : Text) (d : Date) → date_of_text text ≡ ok d → IsCoded d
unfolding date_of_text date_to_int
date_of_text-IsCoded text d e =
    let digits = erase (erase text 4) 6 in ground (arith, parsed_date-IsShort digits (stol digits))

optional-IsDated : (params : ObjectMap) (name : Text) → IsDated (optional {Base = Date} params name)
unfolding optional
optional-IsDated params name =
    by_text (date_of_text (lookup params name)) (date_of_text-IsCoded (lookup params name))
  where
    by_text :
        (m : Outcome Date)
        → ((d : Date) → m ≡ ok d → IsCoded d)
        → IsDated (
            rethrow (bad_parameter_text name) (do
              b ← m
              ok (record {
                base = b;
                parameter_name = name;
                parameter_value = lookup params name;
              })))
    by_text (ok d) h = h d refl
    by_text (err x) h = tt
    by_text foreign h = tt

checked_parameters-IsCoded :
    (params : ObjectMap) (t : TopRequest)
    → checked_parameters params ≡ ok t
    → IsCoded t.request.departure_date_from × IsCoded t.request.return_date_from
unfolding checked_parameters top_parameters
checked_parameters-IsCoded params t e = ground (
  arith,
  optional-IsDated params (codes "departure_date_from"),
  optional-IsDated params (codes "return_date_from"),
)

-- The ends of the window that two dates make; one that is not given is open.
abbrev pub first_day : Date → ℕ
first_day d = if d.paramter_undefined then 0 else d.code

abbrev pub last_day : Date → ℕ
last_day d = if d.paramter_undefined then 2 ^ 32 - 1 else d.code

abbrev pub window : Date → Date → DateInterval
window from to = record { from = first_day from; to = last_day to; duration = duration_of from to }

window_lem : (from to : Date) → IsCoded from → InOrder from to → first_day from ≤ last_day to
window_lem from to coded ordered = ground arith

date_interval_lem :
    (e : Error) (from to : Date)
    → first_day from ≤ last_day to
    → date_interval e from to ≡ ok (window from to)
unfolding date_interval get_field
date_interval_lem e from to le = ground arith

-- A search whose request getTop accepts: `departure_dates` and `return_dates` set what they are given
-- without an error, in any query; neither window ends before it begins, and the departures begin no
-- later than the returns end. Where both dates are given, the departures begin no later than the
-- returns begin, and end no later than the returns end. A window without dates is not set, and an end
-- without a date is open.
pub departure_dates-checked_parameters :
    (params : ObjectMap) (t : TopRequest) (q : SearchQuery)
    → checked_parameters params ≡ ok t
    → let r = t.request in
      (departure_dates q r.departure_date_from r.departure_date_to
        ≡ ok (
            if r.departure_date_from.paramter_undefined && r.departure_date_to.paramter_undefined
            then q
            else record q {
              filter_departure_date = true;
              departure_date_values = window r.departure_date_from r.departure_date_to;
            }))
      × (return_dates q r.return_date_from r.return_date_to
          ≡ ok (
              if r.return_date_from.paramter_undefined && r.return_date_to.paramter_undefined
              then q
              else record q {
                filter_return_date = true;
                return_date_values = window r.return_date_from r.return_date_to;
              }))
      × (first_day r.departure_date_from ≤ last_day r.departure_date_to)
      × (first_day r.return_date_from ≤ last_day r.return_date_to)
      × (first_day r.departure_date_from ≤ last_day r.return_date_to)
      × InOrder r.departure_date_from r.return_date_from
      × InOrder r.departure_date_to r.return_date_to
unfolding departure_dates return_dates
departure_dates-checked_parameters params t q e =
    let r = t.request in
    let (returns, departures, begins, ends, lasts) = checked_parameters-InOrder params t e in
    let (coded, return_coded) = checked_parameters-IsCoded params t e in
    let out = window_lem r.departure_date_from r.departure_date_to coded departures in
    let back = window_lem r.return_date_from r.return_date_to return_coded returns in
    (
      ground (
        arith,
        date_interval_lem (bad (line "departure_dates departure_date_from > departure_date_to"))
            r.departure_date_from r.departure_date_to out,
      ),
      ground (
        arith,
        date_interval_lem (bad (line "departure_dates return_date_from > return_date_to"))
            r.return_date_from r.return_date_to back,
      ),
      out,
      back,
      window_lem r.departure_date_from r.return_date_to coded ends,
      begins,
      lasts,
    )
