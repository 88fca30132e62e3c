-- ===== src/Server/Handlers/Answers.antt =====
-- What the answers of the handlers are.
use deals_server.Prelude.{
  ℕ, ◌≡◌, refl, ◌⊎◌, inl, inr, Bool, true, false, not, List, [], ◌∷◌, Option, none, some, Text,
  Outcome, ok, err, foreign, arith, Error, ErrorCode, bad_parameter, internal_error, if◌then◌else◌,
}
use deals_server.Top.Counting.{DstInfo}
use deals_server.Http.Parser.{HttpParser, write}
use deals_server.Http.Response.{HttpResponse, response_text, add_header}
use deals_server.Tcp.Connection.{Connection, close_with}
use deals_server.Server.Routing
use deals_server.Server.Routing.{
  terminate_with_error, error_response, bad_format, unavailable, reaction, Route, respond, Reaction,
  closes, waits, handles,
}
use deals_server.Server.Responses.{write_top_result, write_text}
use deals_server.Server.Actions.{DealsServer, Environment, Action, and_then}
use deals_server.Server.Handlers.{
  get_top, get_unique_routes, get_stats, get_destinations_top, add_deal, handle, answered,
  with_parser, on_data, destinations_response,
}

-- The status of what a handler returns.
abbrev pub IsFound : ℕ → Type 0
IsFound n = (n ≡ 200) ⊎ ((n ≡ 204) ⊎ (n ≡ 404))

-- The status of a response that is sent.
abbrev pub IsStatus : ℕ → Type 0
IsStatus n = IsFound n ⊎ ((n ≡ 400) ⊎ ((n ≡ 500) ⊎ (n ≡ 503)))

-- What a handler ends with: nothing more is said, a response, or what is thrown.
data IsAnswer : Option (Outcome HttpResponse × DealsServer) → Type 0 where
  unknown : IsAnswer none
  responds :
      {r : HttpResponse} {s : DealsServer} → IsFound r.status_code → IsAnswer (some (ok r, s))
  throws : {e : Error} {s : DealsServer} → IsAnswer (some (err e, s))
  throws_foreign : {s : DealsServer} → IsAnswer (some (foreign, s))

-- The answer of a chain is that of its last part.
and_then-IsAnswer :
    {A : Type 0} (m : Option (Outcome A × DealsServer)) (next : A → Action HttpResponse)
    → ((a : A) (s : DealsServer) → IsAnswer (next a s))
    → IsAnswer (and_then m next)
unfolding and_then
and_then-IsAnswer none next h = unknown
and_then-IsAnswer (some (ok a, s)) next h = h a s
and_then-IsAnswer (some (err e, s)) next h = throws
and_then-IsAnswer (some (foreign, s)) next h = throws_foreign

write_top_result-IsFound : (blocks : List Text) → IsFound (write_top_result blocks).status_code
unfolding write_top_result add_header
write_top_result-IsFound [] = inr (inl refl)
write_top_result-IsFound (block ∷ blocks) = inl refl

write_text-IsFound : (t : Text) → IsFound (write_text t).status_code
unfolding write_text add_header
write_text-IsFound [] = inr (inl refl)
write_text-IsFound (b ∷ t) = ground arith

destinations_response-IsFound :
    (result : List DstInfo) → IsFound (destinations_response result).status_code
unfolding add_header
destinations_response-IsFound [] = inr (inl refl)
destinations_response-IsFound (elm ∷ result) = inl refl

error_response-IsStatus :
    (code : ErrorCode) (t : Text) → IsStatus (error_response code t).status_code
error_response-IsStatus bad_parameter t = inr (inl refl)
error_response-IsStatus internal_error t = inr (inr (inl refl))

-- The connection waits for more data; or it is closed, and one response is behind what waited to
-- be sent.
abbrev pub IsWaiting :
    Connection HttpParser → DealsServer → Connection HttpParser → DealsServer → Type 0
IsWaiting c s c' s' =
    (c' ≡ record c { context = c'.context })
    × (s' ≡ s)
    × (s.quit_request ≡ false)
    × (c'.context.bad_request ≡ false)
    × (c'.context.parsing_complete ≡ false)

abbrev pub IsClosed :
    Connection HttpParser → DealsServer → Connection HttpParser → DealsServer → Type 0
IsClosed c s c' s' =
    (r : HttpResponse) × IsStatus r.status_code
    × (c' ≡ close_with (record c { context = c'.context }) (response_text r))
    × ((s' ≡ s)
        ⊎ ((s.quit_request ≡ false)
            × (c'.context.bad_request ≡ false)
            × (c'.context.parsing_complete ≡ true)))

abbrev pub IsHandled :
    Connection HttpParser → DealsServer → Option (Connection HttpParser × DealsServer) → Type 0
IsHandled c s none = Unit {0}
IsHandled c s (some (c', s')) = IsWaiting c s c' s' ⊎ IsClosed c s c' s'

module _ (env : Environment) where
  handle-IsAnswer : (r : Route) (p : HttpParser) (s : DealsServer) → IsAnswer (handle env r p s)
  unfolding handle get_top get_unique_routes get_stats get_destinations_top add_deal
  handle-IsAnswer Route.get_top p s = and_then-IsAnswer _ _ λ t s.
      and_then-IsAnswer _ _
        λ r s. and_then-IsAnswer _ _ λ blocks s. responds (write_top_result-IsFound blocks)
  handle-IsAnswer Route.get_unique_routes p s =
      and_then-IsAnswer _ _ λ t s. responds (write_text-IsFound t)
  handle-IsAnswer Route.get_stats p s = and_then-IsAnswer _ _ λ t s. responds (write_text-IsFound t)
  handle-IsAnswer Route.get_destinations_top p s =
      and_then-IsAnswer _ _
        λ t s. and_then-IsAnswer _ _ λ result s. responds (destinations_response-IsFound result)
  handle-IsAnswer Route.clear_deals p s = and_then-IsAnswer _ _ λ u s. responds (inl refl)
  handle-IsAnswer Route.clear_destinations p s = and_then-IsAnswer _ _ λ u s. responds (inl refl)
  handle-IsAnswer Route.clear_all p s =
      and_then-IsAnswer _ _ λ u s. and_then-IsAnswer _ _ λ u s. responds (inl refl)
  handle-IsAnswer Route.ping p s = responds (inl refl)
  handle-IsAnswer Route.quit_server p s = and_then-IsAnswer _ _ λ u s. responds (inl refl)
  handle-IsAnswer Route.add_deal p s =
      and_then-IsAnswer _ _
        λ a s. and_then-IsAnswer _ _ λ x s. and_then-IsAnswer _ _ λ y s. responds (inl refl)
  handle-IsAnswer Route.method_unknown p s = responds (inr (inr refl))

  answered-IsHandled :
      (c : Connection HttpParser) (p : HttpParser) (s : DealsServer)
      (o : Option (Outcome HttpResponse × DealsServer))
      → IsAnswer o
      → s.quit_request ≡ false
      → p.bad_request ≡ false
      → p.parsing_complete ≡ true
      → IsHandled c s (answered env (record c { context = p }) o)
  answered-IsHandled c p s none h q b e = tt
  answered-IsHandled c p s (some (ok r, s')) (responds found) q b e =
      inr (r, inl found, refl, inr (q, b, e))
  answered-IsHandled c p s (some (err e, s')) h q b done = inr (
    terminate_with_error e,
    error_response-IsStatus e.error_code e.message,
    refl,
    inr (q, b, done),
  )
  answered-IsHandled c p s (some (foreign, s')) h q b e =
      inr (_, inr (inr (inl refl)), refl, inr (q, b, e))

  reaction-IsHandled :
      (c : Connection HttpParser) (p : HttpParser) (s : DealsServer)
      → s.quit_request ≡ false
      → IsHandled c s (with_parser env c s (reaction p, p))
  reaction-IsHandled c p s q = by_bad p.bad_request refl
    where
      called : Reaction
      called = handles (Routing.route p.request.method p.request.query.path)

      by_whole :
          p.bad_request ≡ false
          → (b : Bool) → p.parsing_complete ≡ b
          → IsHandled c s (with_parser env c s (if not b then waits else called, p))
      by_whole good false part = inl (refl, refl, q, good, part)
      by_whole good true whole =
          answered-IsHandled c p s _
            (handle-IsAnswer (Routing.route p.request.method p.request.query.path) p s) q good whole

      by_bad :
          (b : Bool)
          → p.bad_request ≡ b
          → IsHandled c s (
              with_parser env c s (
                if b
                    then closes (terminate_with_error (bad_format p))
                    else if not p.parsing_complete
                    then waits
                    else called,
                p,
              ))
      by_bad true bad = inr (
        terminate_with_error (bad_format p),
        error_response-IsStatus (bad_format p).error_code (bad_format p).message,
        refl,
        inl refl,
      )
      by_bad false good = by_whole good p.parsing_complete refl

  -- Whatever comes on a connection, unless a read outside a table is made: the request is neither bad
  -- nor complete, nothing is answered and the server's state stays; or the connection is closed with
  -- one response, behind what already waited to be sent, whose status is 200, 204, 400, 404, 500 or
  -- 503, and the state stays unless a complete request came and no quit had been asked for.
  pub on_data-IsHandled :
      (c : Connection HttpParser) (s : DealsServer) → IsHandled c s (on_data env c s)
  unfolding on_data Routing.on_data
  on_data-IsHandled c s = by_quit s.quit_request refl
    where
      by_quit :
          (b : Bool)
          → s.quit_request ≡ b
          → IsHandled c s (
              with_parser env c s (
                if b
                then (closes unavailable, c.context)
                else (reaction (write c.context c.data_in), write c.context c.data_in)))
      by_quit true e = inr (unavailable, inr (inr (inr refl)), refl, inl refl)
      by_quit false e = reaction-IsHandled c (write c.context c.data_in) s e
