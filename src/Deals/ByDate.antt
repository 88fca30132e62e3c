-- ===== src/Deals/ByDate.antt =====
-- CheapestByDay of src/deals_cheapest_by_date.cpp: the cheapest deal for each day or pair of days.
pub mod Limits
pub mod Ordering
use Prim.Native.Nat.{bit_or, bit_xor}
use deals_server.Prelude.{
  ℕ, ◌*◌, ◌%◌, ◌^◌, Bool, true, false, not, ◌&&◌, ◌||◌, ltb, leb, ◌==◌, if◌then◌else◌, line,
  Outcome, ok, err, bad, ◌>>=◌, ◌>>◌, throw_if,
}
use deals_server.Utils.Calendar.{u32}
use deals_server.Query.Search.{SearchQuery}
use deals_server.Deals.Info.{DealInfo}
use deals_server.Deals.Group.{Groups, process_at}

-- The query with the member that the class adds.
pub record ByDay : Type 0 where
  pub query : SearchQuery
  pub group_by_return_date : Bool

abbrev pub departing : SearchQuery → ℕ
departing q = q.departure_date_values.duration

abbrev pub returning : SearchQuery → ℕ
returning q = q.return_date_values.duration

-- The tests of `checkInputParams`.
abbrev pub no_interval : SearchQuery → Bool
no_interval q = departing q == 0 && returning q == 0

abbrev pub interval_too_long : SearchQuery → Bool
interval_too_long q =
    (q.filter_departure_date && ltb 367 (departing q))
    || (q.filter_return_date && ltb 367 (returning q))

abbrev pub one_interval : SearchQuery → Bool
one_interval q = departing q == 0 || returning q == 0

abbrev pub too_many_combinations : SearchQuery → Bool
too_many_combinations q = ltb 11 (departing q) || ltb 11 (returning q)

unfoldable pub check_input_params : SearchQuery → Outcome (Unit {0})
check_input_params q = do
  throw_if (no_interval q) (bad (line "Departure or return dates interval must be specified"))
  throw_if (interval_too_long q) (bad (line "Date interval to large. 365 days is maximum"))
  throw_if (q.filter_all_combinations && one_interval q)
      (bad (line "Departure and return dates must be specified, if all_combination flag is set"))
  throw_if (q.filter_all_combinations && too_many_combinations q) (
      bad
        (line "Departure and return dates interval must be <= 10, if all_combination flag is set"))

-- filter_result_limit is a uint16_t.
abbrev pub limit_by : ℕ → SearchQuery → SearchQuery
limit_by n q = record q { filter_result_limit = n % 2 ^ 16 }

-- What `pre_search` sets once the parameters are checked, for a new object, whose
-- `group_by_return_date` is false. The product is one of uint32_t.
unfoldable pub set_limit : SearchQuery → ByDay
set_limit q =
    if q.filter_exact_date
    then record {
      query =
          if q.departure_return_max_duration == 0
          then q
          else limit_by q.departure_return_max_duration q;
      group_by_return_date = false;
    }
    else if q.filter_all_combinations
    then record {
      query = limit_by (departing q * returning q % u32) q;
      group_by_return_date = false;
    }
    else if leb (departing q) 1
    then record {
      query = if returning q == 0 then q else limit_by (returning q) q;
      group_by_return_date = true;
    }
    else if ltb 1 (departing q)
    then record { query = limit_by (departing q) q; group_by_return_date = false }
    else record { query = limit_by (returning q) q; group_by_return_date = false }

unfoldable pub pre_search : SearchQuery → Outcome ByDay
pre_search q = check_input_params q >> ok (set_limit q)

unfoldable pub get_date_to_group : ByDay → DealInfo → ℕ
get_date_to_group s deal =
    if s.query.filter_exact_date
    then (if s.query.exact_date_value == deal.return_date
        then deal.departure_date
        else bit_or deal.return_date (2 ^ 31))
    else if s.query.filter_all_combinations
    then bit_xor (deal.departure_date * 2 ^ 18 % u32) deal.return_date
    else if s.group_by_return_date
    then deal.return_date
    else deal.departure_date

-- CheapestByDay::process_deal.
unfoldable pub process_by_date : ByDay → Groups → DealInfo → Groups
process_by_date s g deal = process_at (get_date_to_group s deal) g deal

-- The comparison of the sort around an exact date.
abbrev pub exact_before : ℕ → DealInfo → DealInfo → Bool
exact_before exact_date a b =
    if exact_date == a.return_date && exact_date == b.return_date
    then ltb a.departure_date b.departure_date
    else if exact_date == a.departure_date && exact_date == b.departure_date
    then ltb a.return_date b.return_date
    else exact_date == a.return_date

-- The comparison of the sort by both days.
abbrev pub days_before : DealInfo → DealInfo → Bool
days_before a b =
    if a.departure_date == b.departure_date
    then ltb a.return_date b.return_date
    else ltb a.departure_date b.departure_date

-- The comparison that `post_search` sorts by.
unfoldable pub sorts_before : ByDay → DealInfo → DealInfo → Bool
sorts_before s a b =
    if s.query.filter_exact_date
    then exact_before s.query.exact_date_value a b
    else if s.group_by_return_date
    then ltb a.return_date b.return_date
    else days_before a b
