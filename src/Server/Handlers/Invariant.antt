-- ===== src/Server/Handlers/Invariant.antt =====
-- Whatever comes on a connection, the tables of the server stay well formed.
use deals_server.Prelude.{
  ◌≡◌, refl, ◌⊎◌, inl, inr, Bool, true, false, not, ◌++◌, Option, none, some, if◌then◌else◌, Text,
  Outcome, ok, err, foreign, ErrorCode, bad_parameter, internal_error,
}
use deals_server.Database.{truncate as truncate_deals}
use deals_server.Database.Keeping.{
  truncate-IsDatabase, get_stats-IsDatabase, get_unique_routes_deals-IsDatabase,
}
use deals_server.Database.Searching.{get_stats as table_stats, get_unique_routes_deals}
use deals_server.Top.Database.{truncate as truncate_destinations}
use deals_server.Top.Database.Keeping.{truncate-IsTop}
use deals_server.Http.Parser.{HttpParser, write, get_body}
use deals_server.Http.Response.{HttpResponse, response_text}
use deals_server.Tcp.Connection.{Connection}
use deals_server.Server.Routing
use deals_server.Server.Routing.{
  Route, route, Reaction, reaction, closes, waits, handles, terminate_with_error, error_response,
  bad_format, unavailable,
}
use deals_server.Server.Actions.{DealsServer, Environment, Action, and_then, on_db, on_db_dst}
use deals_server.Server.Handlers.{
  get_unique_routes, get_stats, handle, answered, with_parser, on_data,
}
use deals_server.Server.Handlers.Keeping.{
  IsEnvironment, IsServer, Leaves, and_then-Leaves, returns, throws, throws_foreign, Keeps,
  then_Keeps, with_db, with_db_dst, on_db-Keeps, get_top-Keeps, get_destinations_top-Keeps,
  add_deal-Keeps,
}

-- The routes that clear a table.
abbrev pub is_clearing : Route → Bool
is_clearing Route.clear_deals = true
is_clearing Route.clear_destinations = true
is_clearing Route.clear_all = true
is_clearing _ = false

-- A response of an error.
abbrev pub IsFailure : HttpResponse → Type 0
IsFailure r = (r.status_code ≡ 400) ⊎ (r.status_code ≡ 500)

error_response-IsFailure : (code : ErrorCode) (t : Text) → IsFailure (error_response code t)
error_response-IsFailure bad_parameter t = inl refl
error_response-IsFailure internal_error t = inr refl

-- The state after the data; or a request to clear has failed.
abbrev pub Stays :
    Environment → Connection HttpParser → Option (Connection HttpParser × DealsServer) → Type 0
Stays env c none = Unit {0}
Stays env c (some (c', s')) =
    IsServer env s'
    ⊎ ((is_clearing (route c'.context.request.method c'.context.request.query.path) ≡ true)
        × ((r : HttpResponse) × IsFailure r × (c'.data_out ≡ c.data_out ++ response_text r)))

module _ (env : Environment) (is_env : IsEnvironment env) where
  -- What a handler leaves: its throw matters if it clears.
  abbrev Left : Route → Option (Outcome HttpResponse × DealsServer) → Type 0
  Left r = Leaves (IsServer env) (λ s. IsServer env s ⊎ (is_clearing r ≡ true))

  Keeps-Left :
      (r : Route) (o : Option (Outcome HttpResponse × DealsServer)) → Keeps env is_env o → Left r o
  Keeps-Left r none h = Leaves.unknown
  Keeps-Left r (some (ok a, s)) (returns is) = returns is
  Keeps-Left r (some (err e, s)) (throws is) = throws (inl is)
  Keeps-Left r (some (foreign, s)) (throws_foreign is) = throws_foreign (inl is)

  -- A truncate, of which what follows if it returns is known.
  cleared :
      (r : Route) (o : Outcome (Unit {0})) (s : DealsServer)
      → is_clearing r ≡ true
      → (o ≡ ok tt → IsServer env s)
      → Leaves (IsServer env) (λ s. IsServer env s ⊎ (is_clearing r ≡ true)) (some (o, s))
  cleared r (ok tt) s clears is = returns (is refl)
  cleared r (err e) s clears is = throws (inr clears)
  cleared r foreign s clears is = throws_foreign (inr clears)

  deals_cleared :
      (r : Route) (s : DealsServer)
      → is_clearing r ≡ true
      → IsServer env s
      → Leaves
          (IsServer env)
          (λ s. IsServer env s ⊎ (is_clearing r ≡ true))
          (on_db (truncate_deals env.of_deals env.world) s)
  deals_cleared r s clears is =
      cleared r (truncate_deals env.of_deals env.world s.db).0
        (record s { db = (truncate_deals env.of_deals env.world s.db).1 }) clears
        (λ e.
          with_db env is_env s (truncate_deals env.of_deals env.world s.db).1 is
            (truncate-IsDatabase env.of_deals env.world is_env.deals_settings s.db is.database e))

  destinations_cleared :
      (r : Route) (s : DealsServer)
      → is_clearing r ≡ true
      → IsServer env s
      → Leaves
          (IsServer env)
          (λ s. IsServer env s ⊎ (is_clearing r ≡ true))
          (on_db_dst (truncate_destinations env.of_top env.world) s)
  destinations_cleared r s clears is =
      cleared r (truncate_destinations env.of_top env.world s.db_dst).0
        (record s { db_dst = (truncate_destinations env.of_top env.world s.db_dst).1 }) clears
        (λ e.
          with_db_dst env is_env s (truncate_destinations env.of_top env.world s.db_dst).1 is
            (truncate-IsTop env.of_top env.world is_env.top_settings s.db_dst is.destinations e))

  then_Left :
      {A : Type 0} (r : Route) (m : Option (Outcome A × DealsServer))
      (next : A → Action HttpResponse)
      → Leaves (IsServer env) (λ s. IsServer env s ⊎ (is_clearing r ≡ true)) m
      → ((a : A) (s : DealsServer) → IsServer env s → Left r (next a s))
      → Left r (and_then m next)
  then_Left r = and_then-Leaves (IsServer env) (λ s. IsServer env s ⊎ (is_clearing r ≡ true))

  handle-Left :
      (r : Route) (p : HttpParser) (s : DealsServer) → IsServer env s → Left r (handle env r p s)
  unfolding handle get_unique_routes get_stats
  handle-Left Route.get_top p s is =
      Keeps-Left Route.get_top _ (get_top-Keeps env is_env p.request.query.params s is)
  handle-Left Route.get_unique_routes p s is = Keeps-Left Route.get_unique_routes _ (
      then_Keeps env is_env _ _
        (on_db-Keeps env is_env (get_unique_routes_deals env.of_deals env.world) s
          (get_unique_routes_deals-IsDatabase env.of_deals env.world is_env.deals_settings) is)
        λ t s is. returns is)
  handle-Left Route.get_stats p s is = Keeps-Left Route.get_stats _ (
      then_Keeps env is_env _ _
        (on_db-Keeps env is_env (table_stats env.of_deals env.world) s
          (get_stats-IsDatabase env.of_deals env.world is_env.deals_settings) is)
        λ t s is. returns is)
  handle-Left Route.get_destinations_top p s is =
      Keeps-Left Route.get_destinations_top _
        (get_destinations_top-Keeps env is_env p.request.query.params s is)
  handle-Left Route.add_deal p s is =
      Keeps-Left Route.add_deal _
        (add_deal-Keeps env is_env p.request.query.params (get_body p) s is)
  handle-Left Route.ping p s is = returns is
  handle-Left Route.quit_server p s is =
      then_Left Route.quit_server _ _ (returns (quitting s is)) λ u s is. returns is
    where
      quitting :
          (s : DealsServer) → IsServer env s → IsServer env (record s { quit_request = true })
      quitting s is = record { database = is.database; destinations = is.destinations }
  handle-Left Route.method_unknown p s is = returns is
  handle-Left Route.clear_deals p s is =
      then_Left Route.clear_deals _ _ (deals_cleared Route.clear_deals s refl is)
        λ u s is. returns is
  handle-Left Route.clear_destinations p s is =
      then_Left Route.clear_destinations _ _
        (destinations_cleared Route.clear_destinations s refl is) λ u s is. returns is
  handle-Left Route.clear_all p s is =
      then_Left Route.clear_all _ _ (deals_cleared Route.clear_all s refl is) λ u s is.
        then_Left Route.clear_all _ _ (destinations_cleared Route.clear_all s refl is)
          λ u s is. returns is

  answered-Stays :
      (c : Connection HttpParser) (p : HttpParser) (o : Option (Outcome HttpResponse × DealsServer))
      → Left (route p.request.method p.request.query.path) o
      → Stays env c (answered env (record c { context = p }) o)
  answered-Stays c p none h = tt
  answered-Stays c p (some (ok a, s)) (returns is) = inl is
  answered-Stays c p (some (err e, s)) (throws (inl is)) = inl is
  answered-Stays c p (some (err e, s)) (throws (inr clears)) =
      inr (clears, (terminate_with_error e, error_response-IsFailure e.error_code e.message, refl))
  answered-Stays c p (some (foreign, s)) (throws_foreign (inl is)) = inl is
  answered-Stays c p (some (foreign, s)) (throws_foreign (inr clears)) =
      inr (clears, (_, inr refl, refl))

  reaction-Stays :
      (c : Connection HttpParser) (p : HttpParser) (s : DealsServer)
      → IsServer env s
      → Stays env c (with_parser env c s (reaction p, p))
  reaction-Stays c p s is = by_bad p.bad_request
    where
      called : Reaction
      called = handles (route p.request.method p.request.query.path)

      by_part : (b : Bool) → Stays env c (with_parser env c s (if b then waits else called, p))
      by_part true = inl is
      by_part false =
          answered-Stays c p _ (handle-Left (route p.request.method p.request.query.path) p s is)

      by_bad :
          (b : Bool)
          → Stays env c (
              with_parser env c s (
                if b
                    then closes (terminate_with_error (bad_format p))
                    else if not p.parsing_complete
                    then waits
                    else called,
                p,
              ))
      by_bad true = inl is
      by_bad false = by_part (not p.parsing_complete)

  -- With tables whose settings are in range, and an expiry that is not 0: whatever comes on a
  -- connection, unless a read outside a table is made, the three tables stay well formed, also where
  -- an error is answered; or the request was to clear a table, and an error is answered.
  pub on_data-IsServer :
      (c : Connection HttpParser) (s : DealsServer) → IsServer env s → Stays env c (on_data env c s)
  unfolding on_data Routing.on_data
  on_data-IsServer c s is = by_quit s.quit_request
    where
      by_quit :
          (b : Bool)
          → Stays env c (
              with_parser env c s (
                if b
                then (closes unavailable, c.context)
                else (reaction (write c.context c.data_in), write c.context c.data_in)))
      by_quit true = inl is
      by_quit false = reaction-Stays c (write c.context c.data_in) s is
