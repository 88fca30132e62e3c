-- ===== src/Tests/Finding.antt =====
-- A search of the deals' database at a concrete input.
use deals_server.Prelude.{◌≤◌, ◌<◌, ◌≡◌, refl, true, false, List, text_eq, ok, length}
use deals_server.Prelude.Decimal.{to_string}
use deals_server.Utils.Calendar.{days_between_dates, rdn}
use deals_server.Types.Iata.{iata_get_code}
use deals_server.Types.Date.{get_field, days_after, compare_dates}
use deals_server.Query.Search.{SearchQuery, fresh}
use deals_server.Query.Requests.{Request, query_for}
use deals_server.Query.Setters.{
  origin, destinations, destination_countries, departure_dates, return_dates, departure_weekdays,
  return_weekdays, stay_days, direct_flights, roundtrip_flights, max_lifetime_sec, result_limit,
  exact_departure_or_return_date, all_combinations, calc_departue_return_max_duration,
  date_interval,
}
use deals_server.Deals.Info.{DealInfo}
use deals_server.Deals.Info.Last.{Among}
use deals_server.Deals.Filter.{selects, set_min_timestamp}
use deals_server.Deals.Group.Member.{IsCheapest}
use deals_server.Deals.Search.{IsSortedBy, price_before}
use deals_server.Memory.Index.{choose_page, find_last_data, reserve_at, records_to_scan}
use deals_server.Memory.Pages.{
  page_memory_size, find_name, create_page, open_existing, open_page, get_page_by_name, write_page,
  copy_records, elements_of, release_unlinked,
}
use deals_server.Memory.Table.{reserve, release_expired_memory_pages, maintain, remove_expired}
use deals_server.Memory.Operations.{
  add_record, process_records, check_record, insert_records, scan_pages,
}
use deals_server.Database.{DealsDatabase, on_index, on_data, fill_deals_with_data}
use deals_server.Database.Searching.{simply_cheapest, search_for}
use deals_server.Database.Searching.Runs.{search_for-IsCheapest}
use deals_server.Tests.Sorts.{by_insertion}
use deals_server.Tests.Requests.{garbage}
use deals_server.Tests.Tables.{at_time}
use deals_server.Tests.Searches.{table, table-IsDistinct}
use deals_server.Tests.Metrics.{top_request}
use deals_server.Tests.Serving.{of_deals, new_server}

abbrev request : Request
request = record top_request.request { origin = record { paramter_undefined = false; code = 7 } }

-- The query of the request.
abbrev query : SearchQuery
query = record (fresh garbage) {
  departure_return_max_duration = 10;
  filter_origin = true;
  origin_value = 7;
  filter_departure_date = true;
  departure_date_values = record { from = 20160501; to = 20160510; duration = 10 };
}

-- The database with three deals from 7 to 9, and after its index is read.
abbrev filled_db : DealsDatabase
filled_db = (on_index (add_record of_deals.of_index (at_time 100) table 0) new_server.db).1

abbrev read_db : DealsDatabase
read_db = (on_index (process_records of_deals.of_index (at_time 105)) filled_db).1

asked : query_for 105 garbage request ≡ ok query
unfolding query_for origin destinations destination_countries departure_dates return_dates
    departure_weekdays return_weekdays stay_days direct_flights roundtrip_flights max_lifetime_sec
    result_limit exact_departure_or_return_date all_combinations calc_departue_return_max_duration
    get_field days_after compare_dates days_between_dates rdn iata_get_code date_interval
asked = refl

read : on_index (process_records of_deals.of_index (at_time 105)) filled_db ≡ (ok table, read_db)
unfolding add_record release_expired_memory_pages maintain remove_expired find_last_data
    check_record insert_records reserve choose_page reserve_at get_page_by_name find_name open_page
    create_page open_existing page_memory_size write_page copy_records elements_of release_unlinked
    text_eq to_string process_records records_to_scan scan_pages
read = refl

search_for-IsCheapest_example :
    (rs : List DealInfo) × (search_for by_insertion of_deals
        (at_time 105)
        garbage
        simply_cheapest
        request
        filled_db
      ≡ on_data (fill_deals_with_data of_deals.of_data (at_time 105) rs) read_db)
    × (length rs ≤ query.filter_result_limit)
    × IsSortedBy price_before rs
    × ((d : DealInfo)
        → Among d rs
        → IsCheapest
            (set_min_timestamp filled_db.global_expire_at 105 query)
            (λ d. d.destination)
            d.destination
            table
            d)
    × (length rs < query.filter_result_limit
        → (d : DealInfo) → Among d table
        → selects (set_min_timestamp filled_db.global_expire_at 105 query) d ≡ true
        → (d' : DealInfo) × Among d' rs × (d'.destination ≡ d.destination))
search_for-IsCheapest_example =
    search_for-IsCheapest by_insertion of_deals (at_time 105) garbage request filled_db read_db
      query table asked refl read table-IsDistinct
