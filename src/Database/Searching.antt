-- ===== src/Database/Searching.antt =====
-- searchFor of src/deals_database.hpp, and getUniqueRoutesDeals and getStats of
-- src/deals_database.cpp: the query classes and the reports over the table of the deals.
pub mod Runs
use deals_server.Prelude.{
  ℕ, Bool, List, [], ◌∷◌, if◌then◌else◌, length, line, Text, Outcome, ok, err, foreign, bad, ◌>>=◌,
  ◌>>◌, throw_if,
}
use deals_server.Query.Search.{SearchQuery, Garbage}
use deals_server.Query.Requests.{Request, query_for}
use deals_server.Deals.Info.{DealInfo}
use deals_server.Deals.Filter.{set_min_timestamp, process_elements, limited}
use deals_server.Deals.Group.{
  Groups, no_groups, process_by_destination, process_by_country, group_results,
}
use deals_server.Deals.Search.{Sorting, price_before}
use deals_server.Deals.ByDate
use deals_server.Deals.ByDate.{process_by_date, sorts_before}
use deals_server.Deals.Reports.{no_stats, stats_of, stats_results, process_route, routes_results}
use deals_server.Memory.Table.{World}
use deals_server.Memory.Operations.{process_records}
use deals_server.Database.{DealsDatabase, DatabaseSettings, on_index, on_data, fill_deals_with_data}

-- The class that searchFor is instantiated with.
pub data QueryClass : Type 0 where
  simply_cheapest cheapest_by_country cheapest_by_day : QueryClass

-- An object of the class after `pre_search`: its query, and its `process_deal` and the comparison of
-- its sort.
pub record Prepared : Type 0 where
  pub query : SearchQuery
  pub process_deal : Groups → DealInfo → Groups
  pub sorts : DealInfo → DealInfo → Bool

abbrev pub country_limit : SearchQuery → ℕ
country_limit q =
    if q.filter_destination_country then length q.destination_country_set else q.filter_result_limit

unfoldable pub pre_search : QueryClass → SearchQuery → Outcome Prepared
pre_search simply_cheapest q = do
  throw_if q.filter_all_combinations
      (bad (line "all_combinations flag not implemented for cheapest aggregation"))
  ok (record { query = q; process_deal = process_by_destination; sorts = price_before })
pre_search cheapest_by_country q = do
  throw_if q.filter_all_combinations
      (bad (line "all_combinations flag not implemented for by_country aggregation"))
  ok (record {
    query = record q { filter_result_limit = country_limit q };
    process_deal = process_by_country;
    sorts = price_before;
  })
pre_search cheapest_by_day q = do
  s ← ByDate.pre_search q
  ok (record {
    query = s.query;
    process_deal = process_by_date s;
    sorts = λ a b. sorts_before s a b;
  })

module _ (sorting : Sorting) where
  -- `execute` from the calls of `process_element` on.
  unfoldable pub results : Prepared → ℕ → ℕ → List DealInfo → List DealInfo
  results p global_expire_at now table = limited p.query (
      sorting.sort p.sorts (
        group_results (
          process_elements (set_min_timestamp global_expire_at now p.query) p.process_deal no_groups
            table)))

  -- The search on the table, and the data of what it finds; the expiry is read before the table is.
  abbrev pub fill_results :
      DatabaseSettings
      → World
      → Prepared
      → ℕ
      → Outcome (List DealInfo) × DealsDatabase
      → Outcome (List Text) × DealsDatabase
  fill_results st w p global_expire_at (ok table, db) =
      on_data (fill_deals_with_data st.of_data w (results p global_expire_at w.now table)) db
  fill_results st w p global_expire_at (err e, db) = (err e, db)
  fill_results st w p global_expire_at (foreign, db) = (foreign, db)

  abbrev pub executed :
      DatabaseSettings
      → World
      → DealsDatabase
      → Outcome Prepared
      → Outcome (List Text) × DealsDatabase
  executed st w db (ok p) =
      fill_results st w p db.global_expire_at (on_index (process_records st.of_index w) db)
  executed st w db (err e) = (err e, db)
  executed st w db foreign = (foreign, db)

  unfoldable pub search_for :
      DatabaseSettings
      → World
      → Garbage
      → QueryClass
      → Request
      → DealsDatabase
      → Outcome (List Text) × DealsDatabase
  search_for st w g class r db = executed st w db (do q ← query_for w.now g r; pre_search class q)

-- A report on the elements of the table.
abbrev pub reported :
    (List DealInfo → Text) → Outcome (List DealInfo) × DealsDatabase → Outcome Text × DealsDatabase
reported report (ok table, db) = (ok (report table), db)
reported report (err e, db) = (err e, db)
reported report (foreign, db) = (foreign, db)

unfoldable pub get_stats : DatabaseSettings → World → DealsDatabase → Outcome Text × DealsDatabase
get_stats st w db =
    reported (λ table. stats_results (stats_of no_stats table))
      (on_index (process_records st.of_index w) db)

-- processRecords with a UniqueProcessor.
unfoldable pub process_routes : List (ℕ × DealInfo) → List DealInfo → List (ℕ × DealInfo)
process_routes grouped [] = grouped
process_routes grouped (deal ∷ deals) = process_routes (process_route grouped deal) deals

unfoldable pub get_unique_routes_deals :
    DatabaseSettings → World → DealsDatabase → Outcome Text × DealsDatabase
get_unique_routes_deals st w db =
    reported (λ table. routes_results (process_routes [] table))
      (on_index (process_records st.of_index w) db)
