-- ===== src/Database/Keeping.antt =====
-- The operations of DealsDatabase keep its tables well formed.
use deals_server.Prelude.{
  ℕ, ◌<◌, ◌≡◌, refl, List, [], ◌∷◌, Option, none, some, Text, Outcome, ok, err, foreign,
}
use deals_server.Query.Search.{Garbage}
use deals_server.Query.Requests.{Request}
use deals_server.Deals.Info.{DealInfo}
use deals_server.Deals.Search.{Sorting}
use deals_server.Deals.Adding
use deals_server.Deals.Adding.{NewDeal}
use deals_server.Memory.Table.{Settings, Table, World}
use deals_server.Memory.Table.Reservations.{expire_of}
use deals_server.Memory.Operations.{
  Extractor, add_record, process_records, get_element_data, cleanup,
}
use deals_server.Memory.Operations.Adding.{IsTable, IsSettings}
use deals_server.Memory.Operations.Steps.{adds, processes, extracts, cleans, Step-IsTable}
use deals_server.Database.{
  DealsDatabase, DatabaseSettings, on_index, on_data, add_deal, add_info, with_data, stored_at,
  first_bytes, deal_data, extractor_of, in_front, cons_data, fill_deals_with_data, truncate,
  then_index,
}
use deals_server.Database.Searching.{
  QueryClass, Prepared, results, fill_results, executed, search_for, reported, get_stats,
  get_unique_routes_deals,
}

-- The settings of both tables are in range, and what is added does not expire at once.
pub record IsDatabaseSettings (st : DatabaseSettings) (w : World) : Type 0 where
  pub index_settings : IsSettings st.of_index
  pub data_settings : IsSettings st.of_data
  pub index_expires : 0 < expire_of st.of_index w 0
  pub data_expires : 0 < expire_of st.of_data w 0

pub record IsDatabase (st : DatabaseSettings) (db : DealsDatabase) : Type 0 where
  pub index_table : IsTable st.of_index db.db_index
  pub data_table : IsTable st.of_data db.db_data

shared {ℓ} :
    {E : Type ℓ} (st : Settings E) (t : Table E) (n : ℕ)
    → IsTable st t
    → IsTable st (record t { global_expire_at = n })
shared st t n is = record { index = is.index; sized = is.sized; pages = is.pages }

module _ (st : DatabaseSettings) {A : Type 0} where
  on_index-IsDatabase :
      (run : Table DealInfo → Outcome A × Table DealInfo) (db : DealsDatabase)
      → ((t : Table DealInfo) → IsTable st.of_index t → IsTable st.of_index (run t).1)
      → IsDatabase st db
      → IsDatabase st (on_index run db).1
  on_index-IsDatabase run db keeps is = record {
    index_table = keeps _ (shared st.of_index db.db_index db.global_expire_at is.index_table);
    data_table = is.data_table;
  }

  on_data-IsDatabase :
      (run : Table ℕ → Outcome A × Table ℕ) (db : DealsDatabase)
      → ((t : Table ℕ) → IsTable st.of_data t → IsTable st.of_data (run t).1)
      → IsDatabase st db
      → IsDatabase st (on_data run db).1
  on_data-IsDatabase run db keeps is = record {
    index_table = is.index_table;
    data_table = keeps _ (shared st.of_data db.db_data db.global_expire_at is.data_table);
  }

module _ (st : Settings ℕ) (w : World) (is_settings : IsSettings st) where
  first_bytes-table : (n : ℕ) (o : Outcome Text × Table ℕ) → (first_bytes n o).1 ≡ o.1
  first_bytes-table n (ok bytes, t) = refl
  first_bytes-table n (err e, t) = refl
  first_bytes-table n (foreign, t) = refl

  deal_data-IsTable :
      (deal : DealInfo) (t : Table ℕ) → IsTable st t → IsTable st (deal_data st w deal t).1
  unfolding deal_data
  deal_data-IsTable deal t is =
      rw (first_bytes-table deal.size (get_element_data st w (extractor_of deal) t))
        (Step-IsTable st is_settings (extracts w (extractor_of deal) t) is)

  in_front-table : (text : Text) (o : Outcome (List Text) × Table ℕ) → (in_front text o).1 ≡ o.1
  in_front-table text (ok texts, t) = refl
  in_front-table text (err e, t) = refl
  in_front-table text (foreign, t) = refl

  cons_data-IsTable :
      (o : Outcome Text × Table ℕ) (rest : Table ℕ → Outcome (List Text) × Table ℕ)
      → IsTable st o.1
      → ((t : Table ℕ) → IsTable st t → IsTable st (rest t).1)
      → IsTable st (cons_data o rest).1
  cons_data-IsTable (err e, t) rest is keeps = is
  cons_data-IsTable (foreign, t) rest is keeps = is
  cons_data-IsTable (ok text, t) rest is keeps = rw (in_front-table text (rest t)) (keeps t is)

  fill_deals_with_data-IsTable :
      (deals : List DealInfo) (t : Table ℕ)
      → IsTable st t
      → IsTable st (fill_deals_with_data st w deals t).1
  unfolding fill_deals_with_data
  fill_deals_with_data-IsTable [] t is = is
  fill_deals_with_data-IsTable (deal ∷ deals) t is =
      cons_data-IsTable (deal_data st w deal t) (fill_deals_with_data st w deals)
        (deal_data-IsTable deal t is) (fill_deals_with_data-IsTable deals)

module _ (st : DatabaseSettings) (w : World) (is_settings : IsDatabaseSettings st w) where
  fill_results-IsDatabase :
      (sorting : Sorting) (p : Prepared) (n : ℕ) (o : Outcome (List DealInfo) × DealsDatabase)
      → IsDatabase st o.1
      → IsDatabase st (fill_results sorting st w p n o).1
  fill_results-IsDatabase sorting p n (ok table, db) is =
      on_data-IsDatabase st (fill_deals_with_data st.of_data w (results sorting p n w.now table)) db
        (fill_deals_with_data-IsTable st.of_data w is_settings.data_settings
          (results sorting p n w.now table))
        is
  fill_results-IsDatabase sorting p n (err e, db) is = is
  fill_results-IsDatabase sorting p n (foreign, db) is = is

  processed-IsDatabase :
      (db : DealsDatabase)
      → IsDatabase st db
      → IsDatabase st (on_index (process_records st.of_index w) db).1
  processed-IsDatabase db is =
      on_index-IsDatabase st (process_records st.of_index w) db
        (λ t h. Step-IsTable st.of_index is_settings.index_settings (processes w t) h) is

  executed-IsDatabase :
      (sorting : Sorting) (o : Outcome Prepared) (db : DealsDatabase)
      → IsDatabase st db
      → IsDatabase st (executed sorting st w db o).1
  executed-IsDatabase sorting (ok p) db is =
      fill_results-IsDatabase sorting p db.global_expire_at
        (on_index (process_records st.of_index w) db) (processed-IsDatabase db is)
  executed-IsDatabase sorting (err e) db is = is
  executed-IsDatabase sorting foreign db is = is

  pub search_for-IsDatabase :
      (sorting : Sorting) (g : Garbage) (class : QueryClass) (r : Request) (db : DealsDatabase)
      → IsDatabase st db
      → IsDatabase st (search_for sorting st w g class r db).1
  unfolding search_for
  search_for-IsDatabase sorting g class r db is = executed-IsDatabase sorting _ db is

  reported-IsDatabase :
      (report : List DealInfo → Text) (o : Outcome (List DealInfo) × DealsDatabase)
      → IsDatabase st o.1
      → IsDatabase st (reported report o).1
  reported-IsDatabase report (ok table, db) is = is
  reported-IsDatabase report (err e, db) is = is
  reported-IsDatabase report (foreign, db) is = is

  pub get_stats-IsDatabase :
      (db : DealsDatabase) → IsDatabase st db → IsDatabase st (get_stats st w db).1
  unfolding get_stats
  get_stats-IsDatabase db is = reported-IsDatabase _ _ (processed-IsDatabase db is)

  pub get_unique_routes_deals-IsDatabase :
      (db : DealsDatabase) → IsDatabase st db → IsDatabase st (get_unique_routes_deals st w db).1
  unfolding get_unique_routes_deals
  get_unique_routes_deals-IsDatabase db is = reported-IsDatabase _ _ (processed-IsDatabase db is)

  -- What an addDeal leaves, where it makes no read outside a table.
  abbrev pub LeavesDatabase : Option (Outcome Extractor × DealsDatabase) → Type 0
  LeavesDatabase none = Unit {0}
  LeavesDatabase (some (o, db)) = IsDatabase st db

  add_info-IsDatabase :
      (db : DealsDatabase) (o : Option (Outcome DealInfo))
      → IsDatabase st db
      → LeavesDatabase (add_info st w db o)
  add_info-IsDatabase db none is = tt
  add_info-IsDatabase db (some (ok info)) is =
      on_index-IsDatabase st (add_record st.of_index w (info ∷ []) 0) db
        (λ t h.
          Step-IsTable st.of_index is_settings.index_settings
            (adds w (info ∷ []) 0 t is_settings.index_expires) h)
        is
  add_info-IsDatabase db (some (err e)) is = is
  add_info-IsDatabase db (some foreign) is = is

  with_data-IsDatabase :
      (deal : NewDeal) (o : Outcome Extractor × DealsDatabase)
      → IsDatabase st o.1
      → LeavesDatabase (with_data st w deal o)
  with_data-IsDatabase deal (ok x, db) is =
      add_info-IsDatabase db (Adding.add_deal w.now (stored_at x) deal) is
  with_data-IsDatabase deal (err e, db) is = is
  with_data-IsDatabase deal (foreign, db) is = is

  pub add_deal-IsDatabase :
      (deal : NewDeal) (data_text : Text) (db : DealsDatabase)
      → IsDatabase st db
      → LeavesDatabase (add_deal st w deal data_text db)
  unfolding add_deal
  add_deal-IsDatabase deal data_text db is =
      with_data-IsDatabase deal (on_data (add_record st.of_data w data_text 0) db) (
        on_data-IsDatabase st (add_record st.of_data w data_text 0) db
          (λ t h.
            Step-IsTable st.of_data is_settings.data_settings
              (adds w data_text 0 t is_settings.data_expires) h)
          is)

  then_index-IsDatabase :
      (o : Outcome (Unit {0}) × DealsDatabase)
      (next : DealsDatabase → Outcome (Unit {0}) × DealsDatabase)
      → (o.0 ≡ ok tt → IsDatabase st o.1)
      → ((db : DealsDatabase) → IsDatabase st db → (next db).0 ≡ ok tt → IsDatabase st (next db).1)
      → (then_index o next).0 ≡ ok tt
      → IsDatabase st (then_index o next).1
  then_index-IsDatabase (ok tt, db) next first second e = second db (first refl) e
  then_index-IsDatabase (err x, db) next first second e = absurd (cc e)
  then_index-IsDatabase (foreign, db) next first second e = absurd (cc e)

  -- A truncate that returns.
  pub truncate-IsDatabase :
      (db : DealsDatabase)
      → IsDatabase st db
      → (truncate st w db).0 ≡ ok tt
      → IsDatabase st (truncate st w db).1
  unfolding truncate
  truncate-IsDatabase db is =
      then_index-IsDatabase (on_data (cleanup st.of_data w) db)
        (λ db. on_index (cleanup st.of_index w) db)
        (λ e. record {
          index_table = is.index_table;
          data_table =
              Step-IsTable st.of_data is_settings.data_settings (cleans w _ e)
                (shared st.of_data db.db_data db.global_expire_at is.data_table);
        })
        (λ db is e. record {
          index_table =
              Step-IsTable st.of_index is_settings.index_settings (cleans w _ e)
                (shared st.of_index db.db_index db.global_expire_at is.index_table);
          data_table = is.data_table;
        })
