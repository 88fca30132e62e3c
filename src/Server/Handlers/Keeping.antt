-- ===== src/Server/Handlers/Keeping.antt =====
-- What the handlers leave of the tables.
use deals_server.Prelude.{
  ◌<◌, Bool, true, false, not, Option, none, some, if◌then◌else◌, Text, Outcome, ok, err, foreign,
  Error, bad, line,
}
use deals_server.Types.Params.{ObjectMap, required_of_optional}
use deals_server.Types.Country.{CountryCode, country_parameter}
use deals_server.Query.Requests.{Request}
use deals_server.Memory.Table.Reservations.{expire_of}
use deals_server.Memory.Operations.Adding.{IsSettings}
use deals_server.Database.{DealsDatabase, add_deal as store_deal}
use deals_server.Database.Searching.{search_for}
use deals_server.Memory.Operations.{Extractor}
use deals_server.Database.Keeping.{
  IsDatabaseSettings, IsDatabase, LeavesDatabase, search_for-IsDatabase, add_deal-IsDatabase,
}
use deals_server.Top.Database.{TopDstDatabase, get_locale_top, add_destination}
use deals_server.Top.Database.Keeping.{IsTop, add_destination-IsTop, get_locale_top-IsTop}
use deals_server.Server.Parameters.{
  TopRequest, is_set, checked_parameters, destinations_parameters, add_deal_parameters,
}
use deals_server.Server.Actions.{
  DealsServer, Environment, Action, and_then, lift, return, ◌>>=◌, in_db, on_db, on_db_dst,
}
use deals_server.Server.Handlers.{
  get_top, get_destinations_top, add_deal, with_locale_top, query_class, add_destinations,
}

-- The settings of the three tables are in range, and what is added does not expire at once.
pub record IsEnvironment (env : Environment) : Type 0 where
  pub deals_settings : IsDatabaseSettings env.of_deals env.world
  pub top_settings : IsSettings env.of_top
  pub top_expires : 0 < expire_of env.of_top env.world 0

-- The three tables are well formed.
pub record IsServer (env : Environment) (s : DealsServer) : Type 0 where
  pub database : IsDatabase env.of_deals s.db
  pub destinations : IsTop env.of_top s.db_dst

-- What holds of the state where a handler returns, and where it throws.
pub data Leaves {A : Type 0} (P B : DealsServer → Type 0)
    : Option (Outcome A × DealsServer) → Type 0 where
  unknown : Leaves P B none
  returns : {a : A} {s : DealsServer} → P s → Leaves P B (some (ok a, s))
  throws : {e : Error} {s : DealsServer} → B s → Leaves P B (some (err e, s))
  throws_foreign : {s : DealsServer} → B s → Leaves P B (some (foreign, s))

module _ (P B : DealsServer → Type 0) where
  pub and_then-Leaves :
      {A C : Type 0} (m : Option (Outcome A × DealsServer)) (next : A → Action C)
      → Leaves P B m
      → ((a : A) (s : DealsServer) → P s → Leaves P B (next a s))
      → Leaves P B (and_then m next)
  unfolding and_then
  and_then-Leaves none next h keeps = unknown
  and_then-Leaves (some (ok a, s)) next (returns p) keeps = keeps a s p
  and_then-Leaves (some (err e, s)) next (throws b) keeps = throws b
  and_then-Leaves (some (foreign, s)) next (throws_foreign b) keeps = throws_foreign b

module _ (P : DealsServer → Type 0) where
  pub always : {A : Type 0} (o : Outcome A) (s : DealsServer) → P s → Leaves P P (some (o, s))
  always (ok a) s p = returns p
  always (err e) s p = throws p
  always foreign s p = throws_foreign p

module _ (env : Environment) (is_env : IsEnvironment env) where
  abbrev pub Keeps : {A : Type 0} → Option (Outcome A × DealsServer) → Type 0
  Keeps = Leaves (IsServer env) (IsServer env)

  pub then_Keeps :
      {A C : Type 0} (m : Option (Outcome A × DealsServer)) (next : A → Action C)
      → Keeps m
      → ((a : A) (s : DealsServer) → IsServer env s → Keeps (next a s))
      → Keeps (and_then m next)
  then_Keeps = and_then-Leaves (IsServer env) (IsServer env)

  pub with_db :
      (s : DealsServer) (db : DealsDatabase)
      → IsServer env s
      → IsDatabase env.of_deals db
      → IsServer env (record s { db = db })
  with_db s db is d = record { database = d; destinations = is.destinations }

  pub with_db_dst :
      (s : DealsServer) (db : TopDstDatabase)
      → IsServer env s
      → IsTop env.of_top db
      → IsServer env (record s { db_dst = db })
  with_db_dst s db is d = record { database = is.database; destinations = d }

  pub on_db-Keeps :
      {A : Type 0} (call : DealsDatabase → Outcome A × DealsDatabase) (s : DealsServer)
      → ((db : DealsDatabase) → IsDatabase env.of_deals db → IsDatabase env.of_deals (call db).1)
      → IsServer env s
      → Keeps (on_db call s)
  on_db-Keeps call s keeps is =
      always (IsServer env) (call s.db).0 (record s { db = (call s.db).1 })
        (with_db s (call s.db).1 is (keeps s.db is.database))

  pub on_db_dst-Keeps :
      {A : Type 0} (call : TopDstDatabase → Outcome A × TopDstDatabase) (s : DealsServer)
      → ((db : TopDstDatabase) → IsTop env.of_top db → IsTop env.of_top (call db).1)
      → IsServer env s
      → Keeps (on_db_dst call s)
  on_db_dst-Keeps call s keeps is =
      always (IsServer env) (call s.db_dst).0 (record s { db_dst = (call s.db_dst).1 })
        (with_db_dst s (call s.db_dst).1 is (keeps s.db_dst is.destinations))

  with_locale_top-Keeps :
      (t : TopRequest) (s : DealsServer) → IsServer env s → Keeps (with_locale_top env t s)
  unfolding with_locale_top
  with_locale_top-Keeps t s is = by_top (is_set t.add_locale_top)
    where
      from_top : Action Request
      from_top = do
        locale ← lift (required_of_optional {Base = CountryCode} t.locale)
        result ← on_db_dst (
            get_locale_top env.top_sorting env.of_top env.top_garbage env.world locale
              t.request.departure_date_from t.request.departure_date_to t.request.limit)
        destinations ← lift (add_destinations t.request.destinations result)
        return (record t.request { destinations = destinations })

      no_locale : Action Request
      no_locale = lift (err (bad (line "No locale provided on add_locale_top=true")))

      by_locale : (b : Bool) → Keeps ((if b then no_locale else from_top) s)
      by_locale true = throws is
      by_locale false =
          then_Keeps _ _
            (always (IsServer env) (required_of_optional {Base = CountryCode} t.locale) s is)
            λ locale s is.
              then_Keeps _ _
                (on_db_dst-Keeps
                  (get_locale_top env.top_sorting env.of_top env.top_garbage env.world locale
                    t.request.departure_date_from t.request.departure_date_to t.request.limit)
                  s
                  (get_locale_top-IsTop env.of_top env.world is_env.top_settings locale
                    t.request.departure_date_from t.request.departure_date_to env.top_sorting
                    env.top_garbage t.request.limit)
                  is)
                λ result s is.
                  then_Keeps _ _
                    (always (IsServer env) (add_destinations t.request.destinations result) s is)
                    λ destinations s is. returns is

      by_top :
          (b : Bool)
          → Keeps (
              (if not b
                  then return t.request
                  else if t.locale.base.paramter_undefined
                  then no_locale
                  else from_top)
                s)
      by_top true = by_locale t.locale.base.paramter_undefined
      by_top false = returns is

  pub get_top-Keeps :
      (params : ObjectMap) (s : DealsServer) → IsServer env s → Keeps (get_top env params s)
  unfolding get_top
  get_top-Keeps params s is =
      then_Keeps _ _ (always (IsServer env) (checked_parameters params) s is) λ t s is.
        then_Keeps _ _ (with_locale_top-Keeps t s is) λ r s is.
          then_Keeps _ _
            (on_db-Keeps
              (search_for env.sorting env.of_deals env.world env.garbage (query_class t) r) s
              (search_for-IsDatabase env.of_deals env.world is_env.deals_settings env.sorting
                env.garbage (query_class t) r)
              is)
            λ blocks s is. returns is

  pub get_destinations_top-Keeps :
      (params : ObjectMap) (s : DealsServer)
      → IsServer env s
      → Keeps (get_destinations_top env params s)
  unfolding get_destinations_top
  get_destinations_top-Keeps params s is =
      then_Keeps _ _ (always (IsServer env) (destinations_parameters params) s is) λ t s is.
        then_Keeps _ _
          (on_db_dst-Keeps
            (get_locale_top env.top_sorting env.of_top env.top_garbage env.world t.locale
              t.departure_date_from t.departure_date_to t.destinations_limit)
            s
            (get_locale_top-IsTop env.of_top env.world is_env.top_settings t.locale
              t.departure_date_from t.departure_date_to env.top_sorting env.top_garbage
              t.destinations_limit)
            is)
          λ result s is. returns is

  in_db-Keeps :
      (s : DealsServer) (o : Option (Outcome Extractor × DealsDatabase))
      → IsServer env s
      → LeavesDatabase env.of_deals env.world is_env.deals_settings o
      → Keeps (in_db s o)
  in_db-Keeps s none is h = unknown
  in_db-Keeps s (some (o, db)) is h =
      always (IsServer env) o (record s { db = db }) (with_db s db is h)

  pub add_deal-Keeps :
      (params : ObjectMap) (body : Text) (s : DealsServer)
      → IsServer env s
      → Keeps (add_deal env params body s)
  unfolding add_deal
  add_deal-Keeps params body s is =
      then_Keeps _ _ (always (IsServer env) (add_deal_parameters params) s is) λ a s is.
        then_Keeps _ _
          (in_db-Keeps s (store_deal env.of_deals env.world a.deal body s.db) is (
            add_deal-IsDatabase env.of_deals env.world is_env.deals_settings a.deal body s.db
              is.database))
          λ x s is.
            then_Keeps _ _
              (on_db_dst-Keeps
                (add_destination env.of_top env.world a.locale a.deal.destination
                  a.deal.departure_date)
                s
                (λ db h.
                  add_destination-IsTop env.of_top env.world is_env.top_settings a.locale
                    a.deal.destination a.deal.departure_date db is_env.top_expires h)
                is)
              λ y s is. returns is
