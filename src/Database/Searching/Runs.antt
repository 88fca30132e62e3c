-- ===== src/Database/Searching/Runs.antt =====
-- searchFor by destination, on a database.
use deals_server.Prelude.{ℕ, ◌≤◌, ◌<◌, ◌≡◌, sym, ap, ◌∙◌, true, false, List, [], length, ok, ◌>>=◌}
use deals_server.Query.Search.{SearchQuery, Garbage}
use deals_server.Query.Requests.{Request, query_for}
use deals_server.Deals.Info.{DealInfo}
use deals_server.Deals.Info.Last.{Among}
use deals_server.Deals.Filter.{selects, set_min_timestamp}
use deals_server.Deals.Group.{process_by_destination}
use deals_server.Deals.Group.Member.{IsDistinct, IsCheapest}
use deals_server.Deals.Search.{Sorting, IsSortedBy, price_before, execute, cheapest_by_destination}
use deals_server.Deals.Search.Results.{cheapest_by_destination-IsCheapest}
use deals_server.Memory.Table.{World}
use deals_server.Memory.Operations.{process_records}
use deals_server.Database.{DealsDatabase, DatabaseSettings, on_index, on_data, fill_deals_with_data}
use deals_server.Database.Searching.{
  Prepared, simply_cheapest, pre_search, results, fill_results, executed, search_for,
}

abbrev by_destination : SearchQuery → Prepared
by_destination q = record { query = q; process_deal = process_by_destination; sorts = price_before }

pre_search_lem :
    (q : SearchQuery)
    → q.filter_all_combinations ≡ false
    → pre_search simply_cheapest q ≡ ok (by_destination q)
unfolding pre_search
pre_search_lem q plain = simp plain

-- The search in one step is the one in two.
cheapest_by_destination-results :
    (s : Sorting) (global_expire_at now : ℕ) (q : SearchQuery) (table : List DealInfo)
    → q.filter_all_combinations ≡ false
    → cheapest_by_destination ⦃s = s⦄ global_expire_at now q table
      ≡ ok (results s (by_destination q) global_expire_at now table)
unfolding cheapest_by_destination execute results
cheapest_by_destination-results s global_expire_at now q table plain = simp plain

ok_injective : {A : Type 0} {a b : A} → ok a ≡ ok b → a ≡ b
ok_injective e = cc

-- A search by destination whose request makes a query that does not ask for all combinations, on a
-- database whose index gives deals with prices that differ in route or dates, answers with the data
-- of at most as many deals as its limit, sorted by price, each of them a cheapest one of its
-- destination among those that the query selects; below the limit, every deal that is selected has
-- its destination answered. The data is read from the database that the reading of the index left.
pub search_for-IsCheapest :
    (s : Sorting) (st : DatabaseSettings) (w : World) (g : Garbage) (r : Request)
    (db db' : DealsDatabase) (q : SearchQuery) (table : List DealInfo)
    → query_for w.now g r ≡ ok q
    → q.filter_all_combinations ≡ false
    → on_index (process_records st.of_index w) db ≡ (ok table, db')
    → IsDistinct [] table
    → (rs : List DealInfo) × (search_for s st w g simply_cheapest r db
        ≡ on_data (fill_deals_with_data st.of_data w rs) db')
      × (length rs ≤ q.filter_result_limit)
      × IsSortedBy price_before rs
      × ((d : DealInfo)
          → Among d rs
          → IsCheapest
              (set_min_timestamp db.global_expire_at w.now q)
              (λ d. d.destination)
              d.destination
              table
              d)
      × (length rs < q.filter_result_limit
          → (d : DealInfo) → Among d table
          → selects (set_min_timestamp db.global_expire_at w.now q) d ≡ true
          → (d' : DealInfo) × Among d' rs × (d'.destination ≡ d.destination))
unfolding search_for
search_for-IsCheapest s st w g r db db' q table asked plain read distinct =
    let n = db.global_expire_at in
    let (rs, found, short, ordered, cheapest, whole) =
      cheapest_by_destination-IsCheapest s n w.now q table distinct plain in
    let same : results s (by_destination q) n w.now table ≡ rs =
      ok_injective (sym (cheapest_by_destination-results s n w.now q table plain) ∙ found) in
    (
      rs,
      ap (λ o. executed s st w db (o >>= λ q. pre_search simply_cheapest q)) asked
          ∙ (ap (executed s st w db) (pre_search_lem q plain)
              ∙ (ap (fill_results s st w (by_destination q) n) read
                  ∙ ap (λ l. on_data (fill_deals_with_data st.of_data w l) db') same)),
      short,
      ordered,
      cheapest,
      whole,
    )
