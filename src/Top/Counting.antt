-- ===== src/Top/Counting.antt =====
-- TopDstSearchQuery: the count of the visits for each destination.
pub mod Exact
use deals_server.Prelude.{
  ℕ, ◌+◌, ◌%◌, ◌^◌, Bool, true, false, not, ◌&&◌, ◌||◌, List, [], ◌∷◌, ltb, ◌==◌, if◌then◌else◌,
  length, take,
}
use deals_server.Query.Search.{SearchQuery}

-- i::DstInfo, an element of the table.
pub record Visit : Type 0 where
  pub locale : ℕ
  pub destination : ℕ
  pub departure_date : ℕ

-- DstInfo, and an entry of `grouped_destinations`.
pub record DstInfo : Type 0 where
  pub destination : ℕ
  pub counter : ℕ

-- The conditions of the early returns.
abbrev pub other_locale : SearchQuery → Visit → Bool
other_locale q v = q.filter_locale && not (q.locale_value == v.locale)

abbrev pub departs_outside : SearchQuery → Visit → Bool
departs_outside q v =
    q.filter_departure_date
    && (ltb v.departure_date q.departure_date_values.from
        || ltb q.departure_date_values.to v.departure_date)

-- `grouped_destinations[destination]++` on uint32_t, where a new entry is 0.
unfoldable pub increment : ℕ → List DstInfo → List DstInfo
increment d [] = record { destination = d; counter = 1 } ∷ []
increment d (g ∷ groups) =
    let rest = increment d groups in
    if g.destination == d
    then record g { counter = (g.counter + 1) % 2 ^ 32 } ∷ groups
    else g ∷ rest

unfoldable pub process_element : SearchQuery → List DstInfo → Visit → List DstInfo
process_element q groups v =
    if other_locale q v
    then groups
    else if departs_outside q v
    then groups
    else increment v.destination groups

unfoldable pub process_elements : SearchQuery → List DstInfo → List Visit → List DstInfo
process_elements q groups [] = groups
process_elements q groups (v ∷ visits) = process_elements q (process_element q groups v) visits

-- The entries of the map, in the order of its iteration, through std::sort: the most visited first.
pub record Sorting : Type 0 where
  pub sort : (DstInfo → DstInfo → Bool) → List DstInfo → List DstInfo

abbrev pub more_visited : DstInfo → DstInfo → Bool
more_visited a b = ltb b.counter a.counter

-- `exec` on the elements that processRecords passes.
unfoldable pub exec : Sorting → SearchQuery → List Visit → List DstInfo
exec s q visits =
    let top_destinations = s.sort more_visited (process_elements q [] visits) in
    if ltb q.filter_result_limit (length top_destinations)
    then take q.filter_result_limit top_destinations
    else top_destinations
