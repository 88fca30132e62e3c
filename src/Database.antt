-- ===== src/Database.antt =====
-- DealsDatabase of src/deals_database.cpp: the tables of the deals and of their data, which share the
-- context's global expiry.
pub mod Answering
pub mod Searching
pub mod Keeping
use deals_server.Prelude.{
  ℕ, Bool, true, false, List, [], ◌∷◌, ◌++◌, Option, none, some, Text, Outcome, ok, err, foreign,
  take,
}
use deals_server.Deals.Info.{DealInfo}
use deals_server.Deals.Adding
use deals_server.Deals.Adding.{NewDeal, Stored}
use deals_server.Memory.Table.{Settings, Table, World}
use deals_server.Memory.Operations.{Extractor, add_record, get_element_data, cleanup}

pub record DealsDatabase : Type 0 where
  pub global_expire_at : ℕ
  pub db_index : Table DealInfo
  pub db_data : Table ℕ

pub record DatabaseSettings : Type 0 where
  pub of_index : Settings DealInfo
  pub of_data : Settings ℕ

-- An operation on one of the tables, with the expiry that both read and raise.
module _ {ℓ} {A : Type ℓ} where
  abbrev pub on_index :
      (Table DealInfo → Outcome A × Table DealInfo) → DealsDatabase → Outcome A × DealsDatabase
  on_index run db =
      let (o, t) = run (record db.db_index { global_expire_at = db.global_expire_at }) in
      (o, record db { global_expire_at = t.global_expire_at; db_index = t })

  abbrev pub on_data : (Table ℕ → Outcome A × Table ℕ) → DealsDatabase → Outcome A × DealsDatabase
  on_data run db =
      let (o, t) = run (record db.db_data { global_expire_at = db.global_expire_at }) in
      (o, record db { global_expire_at = t.global_expire_at; db_data = t })

abbrev pub then_index :
    Outcome (Unit {0}) × DealsDatabase
    → (DealsDatabase → Outcome (Unit {0}) × DealsDatabase)
    → Outcome (Unit {0}) × DealsDatabase
then_index (ok u, db) next = next db
then_index (err e, db) next = (err e, db)
then_index (foreign, db) next = (foreign, db)

unfoldable pub truncate :
    DatabaseSettings → World → DealsDatabase → Outcome (Unit {0}) × DealsDatabase
truncate st w db =
    then_index (on_data (cleanup st.of_data w) db) λ db. on_index (cleanup st.of_index w) db

abbrev pub stored_at : Extractor → Stored
stored_at x = record { page_name = x.page_name; index = x.index; size = x.size }

-- The second half of addDeal: the record for the index, once the data has its place; `none` is a
-- weekday that is read outside the table of months.
abbrev pub add_info :
    DatabaseSettings
    → World
    → DealsDatabase
    → Option (Outcome DealInfo)
    → Option (Outcome Extractor × DealsDatabase)
add_info st w db none = none
add_info st w db (some (ok info)) = some (on_index (add_record st.of_index w (info ∷ []) 0) db)
add_info st w db (some (err e)) = some (err e, db)
add_info st w db (some foreign) = some (foreign, db)

abbrev pub with_data :
    DatabaseSettings
    → World
    → NewDeal
    → Outcome Extractor × DealsDatabase
    → Option (Outcome Extractor × DealsDatabase)
with_data st w deal (ok x, db) = add_info st w db (Adding.add_deal w.now (stored_at x) deal)
with_data st w deal (err e, db) = some (err e, db)
with_data st w deal (foreign, db) = some (foreign, db)

unfoldable pub add_deal :
    DatabaseSettings
    → World
    → NewDeal
    → Text
    → DealsDatabase
    → Option (Outcome Extractor × DealsDatabase)
add_deal st w deal data_text db =
    with_data st w deal (on_data (add_record st.of_data w data_text 0) db)

-- The data of a deal: as many bytes as it names, from its extractor on.
abbrev pub extractor_of : DealInfo → Extractor
extractor_of deal = record { page_name = deal.page_name; index = deal.index; size = deal.size }

abbrev pub first_bytes : ℕ → Outcome Text × Table ℕ → Outcome Text × Table ℕ
first_bytes size (ok bytes, t) = (ok (take size bytes), t)
first_bytes size (err e, t) = (err e, t)
first_bytes size (foreign, t) = (foreign, t)

unfoldable pub deal_data : Settings ℕ → World → DealInfo → Table ℕ → Outcome Text × Table ℕ
deal_data st w deal t = first_bytes deal.size (get_element_data st w (extractor_of deal) t)

abbrev pub in_front : Text → Outcome (List Text) × Table ℕ → Outcome (List Text) × Table ℕ
in_front text (ok texts, t) = (ok (text ∷ texts), t)
in_front text (err e, t) = (err e, t)
in_front text (foreign, t) = (foreign, t)

abbrev pub cons_data :
    Outcome Text × Table ℕ
    → (Table ℕ → Outcome (List Text) × Table ℕ)
    → Outcome (List Text) × Table ℕ
cons_data (err e, t) rest = (err e, t)
cons_data (foreign, t) rest = (foreign, t)
cons_data (ok text, t) rest = in_front text (rest t)

-- fill_deals_with_data of a build that is not for tests.
unfoldable pub fill_deals_with_data :
    Settings ℕ → World → List DealInfo → Table ℕ → Outcome (List Text) × Table ℕ
fill_deals_with_data st w [] t = (ok [], t)
fill_deals_with_data st w (deal ∷ deals) t =
    cons_data (deal_data st w deal t) (fill_deals_with_data st w deals)
