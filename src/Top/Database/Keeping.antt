-- ===== src/Top/Database/Keeping.antt =====
-- The operations of TopDstDatabase keep its table well formed.
use deals_server.Prelude.{◌<◌, ◌≡◌, List, [], ◌∷◌, Outcome, ok, err, foreign}
use deals_server.Types.Country.{CountryCode}
use deals_server.Types.Iata.{IataCode}
use deals_server.Types.Date.{Date}
use deals_server.Types.Scalars.{Number}
use deals_server.Query.Search.{SearchQuery, Garbage}
use deals_server.Memory.Table.{Settings, World}
use deals_server.Memory.Table.Reservations.{expire_of}
use deals_server.Memory.Operations.{process_records}
use deals_server.Memory.Operations.Adding.{IsTable, IsSettings}
use deals_server.Memory.Operations.Steps.{adds, processes, cleans, Step-IsTable}
use deals_server.Top.Counting.{Visit, DstInfo, Sorting}
use deals_server.Top.Caching.{Results, get_cached_result, save_result_to_cache}
use deals_server.Top.Database.{
  TopDstDatabase, adding, add_destination, truncate, saved, searched, executed, or_search,
  get_locale_top, top_query, visit_of,
}

abbrev pub IsTop : Settings Visit → TopDstDatabase → Type 0
IsTop st db = IsTable st db.db_index

module _ (st : Settings Visit) (w : World) (is_settings : IsSettings st) where
  adding-IsTop :
      (db : TopDstDatabase) (o : Outcome Visit)
      → 0 < expire_of st w 0
      → IsTop st db
      → IsTop st (adding st w db o).1
  adding-IsTop db (ok v) expires is =
      Step-IsTable st is_settings (adds w (v ∷ []) 0 db.db_index expires) is
  adding-IsTop db (err e) expires is = is
  adding-IsTop db foreign expires is = is

  pub add_destination-IsTop :
      (locale : CountryCode) (destination : IataCode) (departure_date : Date) (db : TopDstDatabase)
      → 0 < expire_of st w 0
      → IsTop st db
      → IsTop st (add_destination st w locale destination departure_date db).1
  unfolding add_destination
  add_destination-IsTop locale destination departure_date db expires is =
      adding-IsTop db (visit_of locale destination departure_date) expires is

  -- A truncate that returns.
  pub truncate-IsTop :
      (db : TopDstDatabase)
      → IsTop st db
      → (truncate st w db).0 ≡ ok tt
      → IsTop st (truncate st w db).1
  unfolding truncate
  truncate-IsTop db is e = Step-IsTable st is_settings (cleans w db.db_index e) is

  module _ (locale : CountryCode) (from to : Date) where
    saved-IsTop :
        (db : TopDstDatabase) (o : Outcome (List DstInfo))
        → IsTop st db
        → IsTop st (saved w.now locale from to db o).1
    saved-IsTop db (err e) is = is
    saved-IsTop db foreign is = is
    saved-IsTop db (ok result) is =
        by_cache (save_result_to_cache w.now locale from to result db.result_cache_by_locale)
      where
        by_cache :
            (c : Outcome Results)
            → IsTop st
                (elim c as (λ c. Outcome (List DstInfo) × TopDstDatabase) [
                  | ok entries ↦ (ok result, record db { result_cache_by_locale = entries })
                  | err e ↦ (err e, db)
                  | foreign ↦ (foreign, db)
                ]).1
        by_cache (ok entries) = is
        by_cache (err e) = is
        by_cache foreign = is

    searched-IsTop :
        (s : Sorting) (db : TopDstDatabase) (o : Outcome SearchQuery)
        → IsTop st db
        → IsTop st (searched s st w locale from to db o).1
    searched-IsTop s db (err e) is = is
    searched-IsTop s db foreign is = is
    searched-IsTop s db (ok q) is =
        saved-IsTop (record db { db_index = (process_records st w db.db_index).1 })
          (executed s q (process_records st w db.db_index).0)
          (Step-IsTable st is_settings (processes w db.db_index) is)

    or_search-IsTop :
        (o : Outcome (List DstInfo) × TopDstDatabase)
        (search : TopDstDatabase → Outcome (List DstInfo) × TopDstDatabase)
        → IsTop st o.1
        → ((db : TopDstDatabase) → IsTop st db → IsTop st (search db).1)
        → IsTop st (or_search o search).1
    or_search-IsTop (ok [], db) search is keeps = keeps db is
    or_search-IsTop (ok (r ∷ result), db) search is keeps = is
    or_search-IsTop (err e, db) search is keeps = is
    or_search-IsTop (foreign, db) search is keeps = is

    pub get_locale_top-IsTop :
        (s : Sorting) (g : Garbage) (limit : Number) (db : TopDstDatabase)
        → IsTop st db
        → IsTop st (get_locale_top s st g w locale from to limit db).1
    unfolding get_locale_top
    get_locale_top-IsTop s g limit db is =
        let (result, entries) =
          get_cached_result w.now locale from to limit db.result_cache_by_locale in
        or_search-IsTop (result, record db { result_cache_by_locale = entries })
          (λ db. searched s st w locale from to db (top_query g locale from to limit)) is
          (λ db is. searched-IsTop s db (top_query g locale from to limit) is)
