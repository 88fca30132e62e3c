-- ===== src/Top/Database.antt =====
-- TopDstDatabase: the table of the visits, the query on it and the cache.
pub mod Keeping
use deals_server.Prelude.{ℕ, List, [], ◌∷◌, Outcome, ok, err, foreign, ◌>>=◌}
use deals_server.Types.Country.{CountryCode, country_get_code}
use deals_server.Types.Iata.{IataCode, iata_get_code}
use deals_server.Types.Date.{Date, get_code}
use deals_server.Types.Scalars.{Number}
use deals_server.Query.Search.{SearchQuery, Garbage, fresh}
use deals_server.Query.Setters
use deals_server.Memory.Table.{Settings, Table, World}
use deals_server.Memory.Operations.{Extractor, add_record, process_records, cleanup}
use deals_server.Top.Counting.{Visit, DstInfo, Sorting, exec}
use deals_server.Top.Caching.{Results, get_cached_result, save_result_to_cache}

pub record TopDstDatabase : Type 0 where
  pub db_index : Table Visit
  pub result_cache_by_locale : Results

-- The element that is added.
unfoldable pub visit_of : CountryCode → IataCode → Date → Outcome Visit
visit_of locale destination departure_date = do
  locale_code ← country_get_code locale
  destination_code ← iata_get_code destination
  date_code ← get_code departure_date
  ok (record { locale = locale_code; destination = destination_code; departure_date = date_code })

abbrev pub on_index {ℓ} :
    {A : Type ℓ} → TopDstDatabase → Outcome A × Table Visit → Outcome A × TopDstDatabase
on_index db (o, t) = (o, record db { db_index = t })

abbrev pub adding :
    Settings Visit → World → TopDstDatabase → Outcome Visit → Outcome Extractor × TopDstDatabase
adding st w db (ok v) = on_index db (add_record st w (v ∷ []) 0 db.db_index)
adding st w db (err e) = (err e, db)
adding st w db foreign = (foreign, db)

unfoldable pub add_destination :
    Settings Visit
    → World
    → CountryCode
    → IataCode
    → Date
    → TopDstDatabase
    → Outcome Extractor × TopDstDatabase
add_destination st w locale destination departure_date db =
    adding st w db (visit_of locale destination departure_date)

unfoldable pub truncate :
    Settings Visit → World → TopDstDatabase → Outcome (Unit {0}) × TopDstDatabase
truncate st w db = on_index db (cleanup st w db.db_index)

-- The query of getLocaleTop.
unfoldable pub top_query : Garbage → CountryCode → Date → Date → Number → Outcome SearchQuery
top_query g locale departure_date_from departure_date_to limit = do
  q ← Setters.locale (fresh g) locale
  q ← Setters.departure_dates q departure_date_from departure_date_to
  Setters.result_limit q limit

-- What follows when the cache gave nothing.
abbrev pub executed : Sorting → SearchQuery → Outcome (List Visit) → Outcome (List DstInfo)
executed s q (ok visits) = ok (exec s q visits)
executed s q (err e) = err e
executed s q foreign = foreign

abbrev pub saved :
    ℕ
    → CountryCode
    → Date
    → Date
    → TopDstDatabase
    → Outcome (List DstInfo)
    → Outcome (List DstInfo) × TopDstDatabase
saved now locale from to db (err e) = (err e, db)
saved now locale from to db foreign = (foreign, db)
saved now locale from to db (ok result) =
    elim (save_result_to_cache now locale from to result db.result_cache_by_locale) [
      | ok entries ↦ (ok result, record db { result_cache_by_locale = entries })
      | err e ↦ (err e, db)
      | foreign ↦ (foreign, db)
    ]

abbrev pub searched :
    Sorting
    → Settings Visit
    → World
    → CountryCode
    → Date
    → Date
    → TopDstDatabase
    → Outcome SearchQuery
    → Outcome (List DstInfo) × TopDstDatabase
searched s st w locale from to db (err e) = (err e, db)
searched s st w locale from to db foreign = (foreign, db)
searched s st w locale from to db (ok q) =
    let (visits, t) = process_records st w db.db_index in
    saved w.now locale from to (record db { db_index = t }) (executed s q visits)

-- A result that is not empty is served; otherwise the table is searched.
abbrev pub or_search :
    Outcome (List DstInfo) × TopDstDatabase
    → (TopDstDatabase → Outcome (List DstInfo) × TopDstDatabase)
    → Outcome (List DstInfo) × TopDstDatabase
or_search (ok [], db) search = search db
or_search (ok (r ∷ result), db) search = (ok (r ∷ result), db)
or_search (err e, db) search = (err e, db)
or_search (foreign, db) search = (foreign, db)

unfoldable pub get_locale_top :
    Sorting
    → Settings Visit
    → Garbage
    → World
    → CountryCode
    → Date
    → Date
    → Number
    → TopDstDatabase
    → Outcome (List DstInfo) × TopDstDatabase
get_locale_top s st g w locale from to limit db =
    let (result, entries) =
      get_cached_result w.now locale from to limit db.result_cache_by_locale in
    or_search (result, record db { result_cache_by_locale = entries })
      λ db. searched s st w locale from to db (top_query g locale from to limit)
