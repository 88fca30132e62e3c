-- ===== src/Server/Actions.antt =====
-- The state of DealsServer, src/deals_server.hpp, and what a handler does to it before it answers or
-- throws.
use deals_server.Prelude.{Bool, Option, none, some, Outcome, ok, err, foreign}
use deals_server.Query.Search.{Garbage}
use deals_server.Deals.Search
use deals_server.Memory.Table.{Settings, World}
use deals_server.Top.Counting
use deals_server.Top.Counting.{Visit}
use deals_server.Top.Database.{TopDstDatabase}
use deals_server.Database.{DealsDatabase, DatabaseSettings}

pub record DealsServer : Type 0 where
  pub db : DealsDatabase
  pub db_dst : TopDstDatabase
  pub quit_request : Bool

-- The settings of the tables, the two sorts, what the memory of a new query holds, and what the clock
-- and the system say in a handler.
pub record Environment : Type 0 where
  pub of_deals : DatabaseSettings
  pub of_top : Settings Visit
  pub sorting : Search.Sorting
  pub top_sorting : Counting.Sorting
  pub garbage : Garbage
  pub top_garbage : Garbage
  pub world : World

-- `none` is a read outside a table, of which nothing more is said; what is thrown leaves the state
-- that there was.
abbrev pub Action : Type 0 → Type 0
Action A = DealsServer → Option (Outcome A × DealsServer)

unfoldable pub and_then :
    {A B : Type 0}
    → Option (Outcome A × DealsServer)
    → (A → Action B)
    → Option (Outcome B × DealsServer)
and_then none next = none
and_then (some (ok a, s)) next = next a s
and_then (some (err e, s)) next = some (err e, s)
and_then (some (foreign, s)) next = some (foreign, s)

infixl 5 ◌>>=◌ ◌>>◌
abbrev pub ◌>>=◌ : {A B : Type 0} → Action A → (A → Action B) → Action B
◌>>=◌ run next s = and_then (run s) next

abbrev pub ◌>>◌ : {A B : Type 0} → Action A → Action B → Action B
run >> next = run >>= λ _. next

module _ {A : Type 0} where
  -- What does not read the state.
  abbrev pub lift : Outcome A → Action A
  lift o s = some (o, s)

  abbrev pub return : A → Action A
  return a = lift (ok a)

  -- A call on the databases.
  abbrev pub in_db :
      DealsServer → Option (Outcome A × DealsDatabase) → Option (Outcome A × DealsServer)
  in_db s none = none
  in_db s (some (o, db)) = some (o, record s { db = db })

  abbrev pub on_db : (DealsDatabase → Outcome A × DealsDatabase) → Action A
  on_db call s = in_db s (some (call s.db))

  abbrev pub on_db_unguarded : (DealsDatabase → Option (Outcome A × DealsDatabase)) → Action A
  on_db_unguarded call s = in_db s (call s.db)

  abbrev pub on_db_dst : (TopDstDatabase → Outcome A × TopDstDatabase) → Action A
  on_db_dst call s = let (o, db_dst) = call s.db_dst in some (o, record s { db_dst = db_dst })
