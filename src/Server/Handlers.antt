-- ===== src/Server/Handlers.antt =====
-- The handlers of src/deals_server.cpp, and the whole of `on_data`.
pub mod Answers
pub mod Keeping
pub mod Invariant
pub mod Repeats
use deals_server.Prelude.{
  Bool, true, false, not, List, [], ◌∷◌, ◌++◌, Option, none, some, if◌then◌else◌, Text, codes, line,
  Outcome, ok, err, foreign, bad,
}
use deals_server.Prelude.Decimal.{to_string}
use deals_server.Types.Params.{ObjectMap, required_of_optional}
use deals_server.Types.Iata.{IataCodes, iatas_add_code, code_to_origin}
use deals_server.Types.Country.{CountryCode, country_parameter}
use deals_server.Query.Requests.{Request}
use deals_server.Top.Counting.{DstInfo}
use deals_server.Top.Database.{get_locale_top, add_destination, truncate as truncate_destinations}
use deals_server.Database.{add_deal as store_deal, truncate as truncate_deals}
use deals_server.Database.Searching.{
  QueryClass, simply_cheapest, cheapest_by_country, cheapest_by_day, search_for,
  get_stats as table_stats, get_unique_routes_deals,
}
use deals_server.Http.Parser.{HttpParser, get_body}
use deals_server.Http.Response.{HttpResponse, response_with, response_text}
use deals_server.Tcp.Connection.{Connection, close_with}
use deals_server.Server.Routing
use deals_server.Server.Routing.{
  Route, method_unknown_response, respond, Reaction, closes, waits, handles,
}
use deals_server.Server.Responses.{empty_result, result_with, write_top_result, write_text}
use deals_server.Server.Parameters.{
  is_set, Addition, add_deal_parameters, TopRequest, checked_parameters, destinations_parameters,
}
use deals_server.Server.Actions.{
  DealsServer, Environment, Action, ◌>>=◌, ◌>>◌, lift, return, on_db, on_db_unguarded, on_db_dst,
}

-- Destinations are added to those of the request.
unfoldable pub add_destinations : IataCodes → List DstInfo → Outcome IataCodes
add_destinations destinations [] = ok destinations
add_destinations destinations (dst ∷ result) =
    let rest = λ (cs : IataCodes). add_destinations cs result in
    elim (iatas_add_code destinations dst.destination) [
      | ok cs ↦ rest cs
      | err e ↦ err e
      | foreign ↦ foreign
    ]

abbrev pub query_class : TopRequest → QueryClass
query_class t =
    if is_set t.group_by_date
    then cheapest_by_day
    else if is_set t.group_by_country
    then cheapest_by_country
    else simply_cheapest

-- The lines of getDestiantionsTop.
unfoldable pub destinations_text : List DstInfo → Text
destinations_text [] = []
destinations_text (elm ∷ result) =
    code_to_origin elm.destination
    ++ (b';' ∷ (to_string elm.counter ++ (10 ∷ destinations_text result)))

abbrev pub destinations_response : List DstInfo → HttpResponse
destinations_response [] = empty_result (codes "empty result")
destinations_response (elm ∷ result) =
    result_with (codes "text/plain") (destinations_text (elm ∷ result))

abbrev pub text_response : Text → HttpResponse
text_response body = response_with 200 (codes "OK") body

module _ (env : Environment) where
  -- `add_locale_top` of getTop; the locale is read again as a required parameter.
  unfoldable pub with_locale_top : TopRequest → Action Request
  with_locale_top t =
      if not (is_set t.add_locale_top)
      then return t.request
      else if t.locale.base.paramter_undefined
      then lift (err (bad (line "No locale provided on add_locale_top=true")))
      else (do
        locale ← lift (required_of_optional {Base = CountryCode} t.locale)
        result ← on_db_dst (
            get_locale_top env.top_sorting env.of_top env.top_garbage env.world locale
              t.request.departure_date_from t.request.departure_date_to t.request.limit)
        destinations ← lift (add_destinations t.request.destinations result)
        return (record t.request { destinations = destinations }))

  unfoldable pub get_top : ObjectMap → Action HttpResponse
  get_top params = do
    t ← lift (checked_parameters params)
    r ← with_locale_top t
    blocks ← on_db (search_for env.sorting env.of_deals env.world env.garbage (query_class t) r)
    return (write_top_result blocks)

  unfoldable pub get_unique_routes : Action HttpResponse
  get_unique_routes = do
    result ← on_db (get_unique_routes_deals env.of_deals env.world)
    return (write_text result)

  unfoldable pub get_stats : Action HttpResponse
  get_stats = do result ← on_db (table_stats env.of_deals env.world); return (write_text result)

  unfoldable pub get_destinations_top : ObjectMap → Action HttpResponse
  get_destinations_top params = do
    t ← lift (destinations_parameters params)
    result ← on_db_dst (
        get_locale_top env.top_sorting env.of_top env.top_garbage env.world t.locale
          t.departure_date_from t.departure_date_to t.destinations_limit)
    return (destinations_response result)

  unfoldable pub add_deal : ObjectMap → Text → Action HttpResponse
  add_deal params body = do
    a ← lift (add_deal_parameters params)
    on_db_unguarded (store_deal env.of_deals env.world a.deal body)
    on_db_dst
        (add_destination env.of_top env.world a.locale a.deal.destination a.deal.departure_date)
    return (text_response (line "Well done"))

  -- quit().
  abbrev pub quit : Action (Unit {0})
  quit s = some (ok tt, record s { quit_request = true })

  -- The handler of a path.
  unfoldable pub handle : Route → HttpParser → Action HttpResponse
  handle Route.get_top p = get_top p.request.query.params
  handle Route.get_unique_routes p = get_unique_routes
  handle Route.get_stats p = get_stats
  handle Route.get_destinations_top p = get_destinations_top p.request.query.params
  handle Route.clear_deals p = do
    on_db (truncate_deals env.of_deals env.world)
    return (text_response (line "deals cleared"))
  handle Route.clear_destinations p = do
    on_db_dst (truncate_destinations env.of_top env.world)
    return (text_response (line "destinations cleared"))
  handle Route.clear_all p = do
    on_db (truncate_deals env.of_deals env.world)
    on_db_dst (truncate_destinations env.of_top env.world)
    return (text_response (line "ALL cleared"))
  handle Route.ping p = return (text_response (line "pong"))
  handle Route.quit_server p = do quit; return (text_response (line "quiting..."))
  handle Route.add_deal p = add_deal p.request.query.params (get_body p)
  handle Route.method_unknown p = return method_unknown_response

  -- The connection is closed with what the handler ends with.
  abbrev pub answered :
      Connection HttpParser
      → Option (Outcome HttpResponse × DealsServer)
      → Option (Connection HttpParser × DealsServer)
  answered c none = none
  answered c (some (o, s)) = some (close_with c (response_text (respond o)), s)

  abbrev pub react :
      Reaction → Connection HttpParser → DealsServer → Option (Connection HttpParser × DealsServer)
  react (closes response) c s = some (close_with c (response_text response), s)
  react waits c s = some (c, s)
  react (handles route) c s = answered c (handle route c.context s)

  abbrev pub with_parser :
      Connection HttpParser
      → DealsServer
      → Reaction × HttpParser
      → Option (Connection HttpParser × DealsServer)
  with_parser c s (r, p) = react r (record c { context = p }) s

  unfoldable pub on_data :
      Connection HttpParser → DealsServer → Option (Connection HttpParser × DealsServer)
  on_data c s = with_parser c s (Routing.on_data s.quit_request c.context c.data_in)
