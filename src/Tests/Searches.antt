-- ===== src/Tests/Searches.antt =====
-- Searches at concrete tables.
use deals_server.Prelude.{
  none, length, ◌*◌, false, zero, suc, ℕ, ◌+◌, ◌≤◌, ◌<◌, ◌≡◌, refl, ◌↔◌, ◌⊎◌, inl, inr, true, false,
  List, [], ◌∷◌, line, ok, err, bad, arith,
}
use deals_server.Types.Date.{undefined_date}
use deals_server.Types.Date.Order.{number}
use deals_server.Query.Search.{Garbage, SearchQuery, fresh}
use deals_server.Query.Setters.{departure_dates}
use deals_server.Query.Dates.{departure_dates-number}
use deals_server.Deals.Info.{DealInfo, no_deal, equal, outdates, find_cheapest_and_last}
use deals_server.Deals.Info.Last.{Among, NoneOutdates, newest, find_cheapest_and_last-Among}
use deals_server.Deals.Filter.{selects, set_min_timestamp}
use deals_server.Deals.Filter.Matches.{Matches, selects-Matches}
use deals_server.Deals.Group.{history}
use deals_server.Deals.Group.Member.{IsDistinct, IsMember, IsCheapest}
use deals_server.Deals.Group.Best.{groups_of, process_elements-IsCheapest}
use deals_server.Deals.ByDate.{
  ByDay, departing, returning, check_input_params, pre_search, set_limit, sorts_before,
}
use deals_server.Deals.ByDate.Limits.{pre_search-combinations}
use deals_server.Deals.ByDate.Ordering.{IsAround, sorts_before-IsStrict}
use deals_server.Deals.Search.{IsSortedBy, price_before, cheapest_by_destination}
use deals_server.Deals.Search.Results.{cheapest_by_destination-IsCheapest}
use deals_server.Deals.Adding.{NewDeal, Stored, add_deal}
use deals_server.Deals.Adding.Stays.{add_deal-none}
use deals_server.Tests.Sorts.{by_insertion}
use deals_server.Tests.Calendar.{
  may_ordered, first_of_may, end_of_may, first-IsCalendar, end-IsCalendar,
}

abbrev garbage : Garbage
garbage = record {
  origin_value = 7;
  departure_date_values = record { from = 1; to = 2; duration = 3 };
  return_date_values = record { from = 4; to = 5; duration = 6 };
  exact_date_value = 8;
  timestamp_value = 9;
  direct_flights_flag = true;
  roundtrip_flight_flag = false;
  departure_weekdays_bitmask = 1;
  return_weekdays_bitmask = 2;
  stay_days_values = record { from = 0; to = 3 };
  locale_value = 0;
}

-- From place 7, with direct flights only.
abbrev from_seven : SearchQuery
from_seven = record (fresh garbage) {
  filter_origin = true;
  origin_value = 7;
  filter_flight_by_stops = true;
}

abbrev deal_at : ℕ → ℕ → ℕ → DealInfo
deal_at when day price = record no_deal {
  timestamp = when;
  origin = 7;
  destination = 9;
  departure_date = day;
  price = price;
  direct = true;
}

abbrev pub table : List DealInfo
table = deal_at 100 20160501 90 ∷ deal_at 101 20160502 70 ∷ deal_at 102 20160503 80 ∷ []

pub table-IsDistinct : IsDistinct [] table
unfolding equal
table-IsDistinct = (
  omega arith,
  (λ x a. absurd a),
  (
    omega arith,
    (λ x a. elim a [ inl e ↦ rw e refl | inr b ↦ absurd b ]),
    (
      omega arith,
      (λ x a. elim a [
        | inl e ↦ rw e refl
        | inr b ↦ elim b [ inl e ↦ rw e refl | inr c ↦ absurd c ]
      ]),
      tt,
    ),
  ),
)

process_elements-IsCheapest_example :
    (((d : DealInfo) → Among d table → IsMember from_seven (λ d. d.destination) 9 d → ⊥)
      × (history 9 (groups_of from_seven (λ d. d.destination) table) ≡ []))
    ⊎ IsCheapest from_seven
        (λ d. d.destination)
        9
        table
        (find_cheapest_and_last (history 9 (groups_of from_seven (λ d. d.destination) table)))
process_elements-IsCheapest_example =
    process_elements-IsCheapest from_seven (λ d. d.destination) 9 table table-IsDistinct

selects-Matches_example :
    (selects from_seven (deal_at 100 20160501 90) ≡ true)
    ↔ Matches from_seven (deal_at 100 20160501 90)
selects-Matches_example = selects-Matches from_seven (deal_at 100 20160501 90)

find_cheapest_and_last-Among_example : Among (find_cheapest_and_last table) table
find_cheapest_and_last-Among_example =
    find_cheapest_and_last-Among (deal_at 100 20160501 90)
      (deal_at 101 20160502 70 ∷ deal_at 102 20160503 80 ∷ [])

abbrev seen_again : List DealInfo
seen_again = deal_at 100 20160501 90 ∷ deal_at 102 20160501 80 ∷ []

seen_again-NoneOutdates :
    NoneOutdates (newest (deal_at 100 20160501 90) (deal_at 102 20160501 80 ∷ [])) seen_again
unfolding equal
seen_again-NoneOutdates zero h = refl
seen_again-NoneOutdates (suc zero) h = refl
seen_again-NoneOutdates (suc (suc i)) h = absurd (omega arith)

older_last : outdates (deal_at 103 20160501 90) (deal_at 102 20160501 80) ≡ true
unfolding equal
older_last = refl

departure_dates-number_example :
    (number first_of_may ≤ number end_of_may
      → (n : ℕ) × (departure_dates from_seven first_of_may end_of_may
          ≡ ok (record from_seven {
            filter_departure_date = true;
            departure_date_values = record { from = 20160501; to = 20160531; duration = n };
          }))
        × (n + number first_of_may ≡ number end_of_may + 1))
    × (number end_of_may < number first_of_may
        → departure_dates from_seven first_of_may end_of_may
          ≡ err (bad (line "departure_dates departure_date_from > departure_date_to")))
departure_dates-number_example =
    departure_dates-number from_seven first_of_may end_of_may first-IsCalendar end-IsCalendar

cheapest_by_destination-IsCheapest_example :
    (rs : List DealInfo) × (cheapest_by_destination ⦃s = by_insertion⦄ 0 90000 from_seven table
      ≡ ok rs)
    × (length rs ≤ from_seven.filter_result_limit)
    × IsSortedBy price_before rs
    × ((r : DealInfo)
        → Among r rs
        → IsCheapest
            (set_min_timestamp 0 90000 from_seven)
            (λ d. d.destination)
            r.destination
            table
            r)
    × (length rs < from_seven.filter_result_limit
        → (d : DealInfo) → Among d table
        → selects (set_min_timestamp 0 90000 from_seven) d ≡ true
        → (r : DealInfo) × Among r rs × (r.destination ≡ d.destination))
cheapest_by_destination-IsCheapest_example =
    cheapest_by_destination-IsCheapest by_insertion 0 90000 from_seven table table-IsDistinct refl

-- Ten days out and three back, in all combinations.
abbrev combined : SearchQuery
combined = record from_seven {
  filter_departure_date = true;
  departure_date_values = record { from = 20160501; to = 20160510; duration = 10 };
  filter_return_date = true;
  return_date_values = record { from = 20160511; to = 20160513; duration = 3 };
  filter_all_combinations = true;
}

abbrev by_day : ByDay
by_day = record {
  query = record combined { filter_result_limit = 30 };
  group_by_return_date = false;
}

combined_accepted : pre_search combined ≡ ok by_day
unfolding pre_search check_input_params set_limit
combined_accepted = refl

pre_search-combinations_example :
    (1 ≤ departing combined)
    × (departing combined ≤ 11)
    × (1 ≤ returning combined)
    × (returning combined ≤ 11)
    × (by_day.query.filter_result_limit ≡ departing combined * returning combined)
pre_search-combinations_example =
    pre_search-combinations combined by_day combined_accepted refl refl

-- Around 2016-05-02.
abbrev around : ByDay
around = record {
  query = record from_seven { filter_exact_date = true; exact_date_value = 20160502 };
  group_by_return_date = false;
}

abbrev stay : ℕ → ℕ → DealInfo
stay out back = record no_deal { departure_date = out; return_date = back }

abbrev back_then : DealInfo
back_then = stay 20160430 20160502

abbrev day_trip : DealInfo
day_trip = stay 20160502 20160502

abbrev out_then : DealInfo
out_then = stay 20160502 20160509

back_then-IsAround : IsAround around back_then
back_then-IsAround = record { meets = λ e. inl refl; ordered = λ e. omega arith }

day_trip-IsAround : IsAround around day_trip
day_trip-IsAround = record { meets = λ e. inl refl; ordered = λ e. omega arith }

out_then-IsAround : IsAround around out_then
out_then-IsAround = record { meets = λ e. inr refl; ordered = λ e. omega arith }

sorts_before-IsStrict_example :
    (sorts_before around back_then back_then ≡ false)
    × (sorts_before around back_then day_trip ≡ true
        → sorts_before around day_trip out_then ≡ true
        → sorts_before around back_then out_then ≡ true)
sorts_before-IsStrict_example =
    sorts_before-IsStrict around back_then day_trip out_then back_then-IsAround day_trip-IsAround
      out_then-IsAround

one_day : number first_of_may ≤ number end_of_may
one_day = may_ordered

abbrev one_way : NewDeal
one_way = record {
  origin = record { paramter_undefined = false; code = 7 };
  destination = record { paramter_undefined = false; code = 9 };
  destination_country = record { paramter_undefined = false; code = 184 };
  departure_date = first_of_may;
  return_date = undefined_date;
  direct_flight = record { paramter_undefined = false; value = true };
  price = record { paramter_undefined = false; value = 90 };
}

abbrev at_front : Stored
at_front = record { page_name = []; index = 0; size = 12 }

add_deal-none_example : add_deal 100 at_front one_way ≡ none
add_deal-none_example = add_deal-none 100 at_front one_way refl
