-- ===== src/Server/Handlers/Repeats.antt =====
-- What comes behind a request that was answered.
use deals_server.Prelude.{◌≡◌, refl, ap, ◌∙◌, Bool, true, false, Text, arith}
use deals_server.Http.Messages.{HttpRequest}
use deals_server.Http.Parser.{HttpParser, write, check_body}
use deals_server.Tcp.Connection.{Connection}
use deals_server.Server.Routing
use deals_server.Server.Routing.{route, handles}
use deals_server.Server.Actions.{DealsServer, Environment}
use deals_server.Server.Handlers.{handle, answered, with_parser, on_data}

-- A parser that is done stays so, with its request.
write_complete :
    (p : HttpParser) (msg : Text)
    → p.headers_written ≡ true
    → p.parsing_complete ≡ true
    → ((write p msg).parsing_complete ≡ true)
      × ((write p msg).bad_request ≡ p.bad_request)
      × ((write p msg).request ≡ p.request)
unfolding write check_body
write_complete p msg h e = ground arith

serving :
    (b : Bool)
    → b ≡ false
    → (p : HttpParser) (data_in : Text)
    → Routing.on_data b p data_in ≡ (Routing.reaction (write p data_in), write p data_in)
unfolding Routing.on_data
serving true q p data_in = absurd (cc q)
serving false q p data_in = refl

reaction_lem :
    (p : HttpParser)
    → p.bad_request ≡ false
    → p.parsing_complete ≡ true
    → Routing.reaction p ≡ handles (route p.request.method p.request.query.path)
reaction_lem p good whole = simp (good, whole)

-- While no quit was asked for: whatever comes on a connection whose request is complete, also after
-- it was answered and closed, runs the handler of that request again, and answers again.
pub on_data-handle :
    (env : Environment) (c : Connection HttpParser) (s : DealsServer)
    → s.quit_request ≡ false
    → c.context.headers_written ≡ true
    → c.context.parsing_complete ≡ true
    → c.context.bad_request ≡ false
    → on_data env c s
      ≡ answered env
          (record c { context = write c.context c.data_in })
          (handle env
            (route c.context.request.method c.context.request.query.path)
            (write c.context c.data_in)
            s)
unfolding on_data
on_data-handle env c s q h e good =
    let p = write c.context c.data_in in
    let (whole, same_bad, same) = write_complete c.context c.data_in h e in
    ap (with_parser env c s) (serving s.quit_request q c.context c.data_in)
    ∙ (ap (λ r. with_parser env c s (r, p)) (reaction_lem p (same_bad ∙ good) whole)
        ∙ ap
            (λ (r : HttpRequest).
              answered env (record c { context = p })
                (handle env (route r.method r.query.path) p s))
            same)
