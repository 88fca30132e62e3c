-- ===== src/Server/Serving.antt =====
-- DealsServer of src/deals_server.cpp on top of TCPServer: its virtual methods, its rounds and the
-- signals.
pub mod Draining
use deals_server.Prelude.{Bool, true, false, List, Option, none, some, ◌==◌, if◌then◌else◌}
use deals_server.Http.Parser.{HttpParser, new_parser}
use deals_server.Tcp.Connection.{Connection}
use deals_server.Tcp.Polling
use deals_server.Tcp.Polling.{Handlers, Tick, Processed, active_connections}
use deals_server.Server.Actions.{DealsServer, Environment}
use deals_server.Server.Handlers.{on_data}

abbrev pub kept :
    Connection HttpParser
    → Option (Connection HttpParser × DealsServer)
    → Connection HttpParser × Option DealsServer
kept c none = (c, none)
kept c (some (c', s)) = (c', some s)

-- `none` once a read outside a table is made; nothing is said of what comes then.
abbrev pub handle_data :
    Environment
    → Connection HttpParser
    → Option DealsServer
    → Connection HttpParser × Option DealsServer
handle_data env c none = (c, none)
handle_data env c (some s) = kept c (on_data env c s)

-- on_connect does nothing.
abbrev pub deals_handlers : Environment → Handlers HttpParser (Option DealsServer)
deals_handlers env = record {
  new_context = new_parser;
  on_connect = λ c s. (c, s);
  on_data = handle_data env;
}

-- The state of the process, with `gotQuitSignal`.
pub record Serving : Type 0 where
  pub connections : List (Connection HttpParser)
  pub server : Option DealsServer
  pub got_quit_signal : Bool

-- The process ends, goes on, or has read outside a table.
pub data Progress : Type 0 where
  exits unknown : Progress
  goes_on : Serving → Progress

-- signalHandler: the second signal in a row ends the process.
unfoldable pub signal_handler : Serving → Progress
signal_handler v =
    if v.got_quit_signal then exits else goes_on (record v { got_quit_signal = true })

-- What follows a round of TCPServer in `process`.
abbrev pub check_quit :
    Bool → Processed HttpParser (Option DealsServer) → Option DealsServer → Progress
check_quit signalled p none = unknown
check_quit signalled p (some s) =
    let server = record s { quit_request = if signalled then true else s.quit_request } in
    if server.quit_request
    then (if active_connections p == 0
        then exits
        else goes_on
            (record { connections = p.connections; server = some server; got_quit_signal = false }))
    else goes_on
        (record { connections = p.connections; server = some server; got_quit_signal = false })

-- DealsServer::process.
unfoldable pub process : Environment → Tick → Serving → Progress
process env t v =
    let p = Polling.process (deals_handlers env) t v.connections v.server in
    check_quit v.got_quit_signal p p.state
