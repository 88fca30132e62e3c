-- ===== src/Deals/Info.antt =====
-- DealInfo and the helpers on deals, src/deals_types.hpp and src/deals_types.cpp.
pub mod Last
use deals_server.Prelude.{
  ℕ, zero, suc, ◌+◌, ◌-◌, ◌*◌, Bool, true, false, ◌&&◌, List, [], ◌∷◌, Option, none, some, ltb,
  ◌==◌, bool_eq, if◌then◌else◌, Text, length, get_or,
}

pub record DealInfo : Type 0 where
  pub timestamp : ℕ
  pub origin : ℕ
  pub destination : ℕ
  pub departure_date : ℕ
  pub return_date : ℕ
  pub price : ℕ
  pub stay_days : ℕ
  pub destination_country : ℕ
  pub departure_day_of_week : ℕ
  pub return_day_of_week : ℕ
  pub direct : Bool
  pub overriden : Bool
  pub page_name : Text
  pub index : ℕ
  pub size : ℕ

-- The value-initialised deal, `{}`.
abbrev pub no_deal : DealInfo
no_deal = record {
  timestamp = 0;
  origin = 0;
  destination = 0;
  departure_date = 0;
  return_date = 0;
  price = 0;
  stay_days = 0;
  destination_country = 0;
  departure_day_of_week = 0;
  return_day_of_week = 0;
  direct = false;
  overriden = false;
  page_name = [];
  index = 0;
  size = 0;
}

-- The same route on the same dates.
unfoldable pub equal : DealInfo → DealInfo → Bool
equal d₁ d₂ =
    d₁.departure_date == d₂.departure_date
    && d₁.return_date == d₂.return_date
    && bool_eq d₁.direct d₂.direct
    && d₁.destination == d₂.destination
    && d₁.origin == d₂.origin

-- The test of the loop of `findCheapestAndLast`.
abbrev pub outdates : DealInfo → DealInfo → Bool
outdates d last_deal = equal d last_deal && ltb last_deal.timestamp d.timestamp

-- That loop at `i`, with the rounds that are left; `none` is the loop still running. A hit goes on
-- with `i = 0; continue`, so the next round is at 1.
unfoldable pub scan_history : ℕ → List DealInfo → DealInfo → ℕ → ℕ → Option DealInfo
scan_history zero history last_deal len i = none
scan_history (suc fuel) history last_deal len i =
    let previous = get_or history len no_deal in
    let restarted = scan_history fuel history previous (len - 1) 1 in
    let next = scan_history fuel history last_deal len (i + 1) in
    if ltb i len
    then (if outdates (get_or history i no_deal) last_deal
        then (if len == 0 then some previous else restarted)
        else next)
    else some last_deal

-- The rounds that are enough for a history of n deals.
abbrev pub scan_rounds : ℕ → ℕ
scan_rounds n = (n + 1) * (n + 1)

unfoldable pub find_cheapest_and_last : List DealInfo → DealInfo
find_cheapest_and_last [] = no_deal
find_cheapest_and_last (d ∷ ds) =
    let history = d ∷ ds in
    let len = length history - 1 in
    elim (scan_history (scan_rounds (length history)) history (get_or history len no_deal) len 0) [
      | none ↦ no_deal
      | some last_deal ↦ last_deal
    ]
