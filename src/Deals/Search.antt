-- ===== src/Deals/Search.antt =====
-- DealsSearchQuery::execute with the aggregations by destination and by country: the table, the sort
-- and the cut to the limit. `processRecords` calls back for each deal of the table, in its order.
pub mod Results
use deals_server.Prelude.{
  [], ◌∷◌, ℕ, Bool, true, false, List, ltb, line, Outcome, ok, bad, ◌>>◌, throw_if, length,
  if◌then◌else◌, ◌≡◌, ◌+◌, ◌<◌, get_or, ◌↔◌, ◌≤◌,
}
use deals_server.Query.Search.{SearchQuery}
use deals_server.Deals.Info.{DealInfo, no_deal}
use deals_server.Deals.Info.Last.{Among}
use deals_server.Deals.Filter.{set_min_timestamp, process_elements, limited}
use deals_server.Deals.Group.{
  Groups, no_groups, process_by_destination, process_by_country, group_results,
}

-- What std::sort asks of a comparison: a strict weak order.
pub record IsWeakOrder (before : DealInfo → DealInfo → Bool) : Type 0 where
  pub irreflexive : (a : DealInfo) → before a a ≡ false
  pub transitive : (a b c : DealInfo) → before a b ≡ true → before b c ≡ true → before a c ≡ true
  pub indifferent :
      (a b c : DealInfo) → before a b ≡ false → before b c ≡ false → before a c ≡ false

-- No deal stands before its neighbour on the left.
abbrev pub IsSortedBy : (DealInfo → DealInfo → Bool) → List DealInfo → Type 0
IsSortedBy before [] = Unit {0}
IsSortedBy before (x ∷ []) = Unit {0}
IsSortedBy before (x ∷ y ∷ ds) = (before y x ≡ false) × IsSortedBy before (y ∷ ds)

-- std::sort on deals: the same deals in order.
pub record Sorting : Type 0 where
  pub sort : (DealInfo → DealInfo → Bool) → List DealInfo → List DealInfo
  pub sort-Among :
      (before : DealInfo → DealInfo → Bool) (ds : List DealInfo) (d : DealInfo)
      → Among d (sort before ds) ↔ Among d ds
  pub sort-IsSortedBy :
      (before : DealInfo → DealInfo → Bool) (ds : List DealInfo)
      → IsWeakOrder before
      → IsSortedBy before (sort before ds)

-- The comparison of both sorts.
abbrev pub price_before : DealInfo → DealInfo → Bool
price_before a b = ltb a.price b.price

module _ ⦃s : Sorting⦄ where
  -- `execute` after `pre_search`, with the `process_deal` of the class.
  unfoldable pub execute :
      (Groups → DealInfo → Groups) → ℕ → ℕ → SearchQuery → List DealInfo → List DealInfo
  execute process_deal global_expire_at now q table = limited q (
      s.sort price_before (
        group_results (
          process_elements (set_min_timestamp global_expire_at now q) process_deal no_groups
            table)))

  -- SimplyCheapest.
  unfoldable pub cheapest_by_destination :
      ℕ → ℕ → SearchQuery → List DealInfo → Outcome (List DealInfo)
  cheapest_by_destination global_expire_at now q table = do
    throw_if q.filter_all_combinations
        (bad (line "all_combinations flag not implemented for cheapest aggregation"))
    ok (execute process_by_destination global_expire_at now q table)

  -- CheapestByCountry, whose `pre_search` sets the limit first; the number of the countries, at most
  -- 256, is a uint16_t.
  unfoldable pub cheapest_by_country : ℕ → ℕ → SearchQuery → List DealInfo → Outcome (List DealInfo)
  cheapest_by_country global_expire_at now q table =
      let limit =
        if q.filter_destination_country
        then length q.destination_country_set
        else q.filter_result_limit in
      do
        throw_if q.filter_all_combinations
            (bad (line "all_combinations flag not implemented for by_country aggregation"))
        ok (
            execute process_by_country global_expire_at now
              (record q { filter_result_limit = limit }) table)
