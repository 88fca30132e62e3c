-- ===== src/Tests/Serving.antt =====
-- The TCP layer and the server at concrete inputs.
use deals_server.Prelude.{
  ℕ, ◌+◌, ◌<◌, ◌≡◌, refl, ◌⊎◌, inl, inr, true, false, [], ◌∷◌, ◌++◌, some, Text, codes, arith,
  length, All,
}
use deals_server.Deals.Info.{no_deal}
use deals_server.Memory.Pages.{page_memory_size}
use deals_server.Memory.Table.{Settings, new_table}
use deals_server.Memory.Operations.Adding.{IsSettings}
use deals_server.Memory.Operations.Steps.{new_table-IsTable}
use deals_server.Top.Counting.{Visit}
use deals_server.Database.{DatabaseSettings}
use deals_server.Http.Parser.{HttpParser, new_parser, write}
use deals_server.Tcp.Connection.{Connection, Network, new_connection, network_write, is_alive}
use deals_server.Tcp.Connection.Sending.{IsSent, network_write-IsSent}
use deals_server.Tcp.Polling
use deals_server.Tcp.Polling.{Revents, Tick, Polled, ready, sockets, pollfds}
use deals_server.Tcp.Polling.Lifetimes.{IsTimely, process-IsTimely}
use deals_server.Tcp.Polling.Descriptors.{count, accepted, process-count}
use deals_server.Server.Routing.{route}
use deals_server.Server.Actions.{DealsServer, Environment}
use deals_server.Server.Handlers.{on_data, handle, answered}
use deals_server.Server.Handlers.Answers.{IsHandled, on_data-IsHandled}
use deals_server.Server.Handlers.Keeping.{IsEnvironment, IsServer}
use deals_server.Server.Handlers.Invariant.{Stays, on_data-IsServer}
use deals_server.Server.Handlers.Repeats.{on_data-handle}
use deals_server.Server.Serving.{deals_handlers, exits, goes_on, process}
use deals_server.Server.Serving.Draining.{
  deals_handlers-IsContract, round, waiting_on, process_drains, process_ends,
}
use deals_server.Tests.Sorts.{by_insertion}
use deals_server.Tests.Requests.{garbage}
use deals_server.Tests.Tables.{at_time}

abbrev settings_of {ℓ} : {E : Type ℓ} → Text → E → Settings E
settings_of name cleared = record {
  table_name = name;
  table_max_pages = 2;
  record_expire_seconds = 10;
  format = record { system_page = 4096; element_size = 4; elements = 3; cleared = cleared };
}

settings_of-IsSettings {ℓ} :
    {E : Type ℓ} (name : Text) (cleared : E) → IsSettings (settings_of name cleared)
unfolding page_memory_size
settings_of-IsSettings name cleared = record { small = omega arith; positive = omega arith }

abbrev pub of_deals : DatabaseSettings
of_deals = record {
  of_index = settings_of (codes "I") no_deal;
  of_data = settings_of (codes "D") 0;
}

abbrev no_visit : Visit
no_visit = record { locale = 0; destination = 0; departure_date = 0 }

abbrev environment : Environment
environment = record {
  of_deals = of_deals;
  of_top = settings_of (codes "V") no_visit;
  sorting = by_insertion;
  top_sorting = record { sort = λ before ds. ds };
  garbage = garbage;
  top_garbage = garbage;
  world = at_time 100;
}

abbrev pub new_server : DealsServer
new_server = record {
  db = record {
    global_expire_at = 0;
    db_index = new_table of_deals.of_index;
    db_data = new_table of_deals.of_data;
  };
  db_dst = record { db_index = new_table environment.of_top; result_cache_by_locale = [] };
  quit_request = false;
}

abbrev quitting_server : DealsServer
quitting_server = record new_server { quit_request = true }

environment-IsEnvironment : IsEnvironment environment
environment-IsEnvironment = record {
  deals_settings = record {
    index_settings = settings_of-IsSettings (codes "I") no_deal;
    data_settings = settings_of-IsSettings (codes "D") 0;
    index_expires = omega arith;
    data_expires = omega arith;
  };
  top_settings = settings_of-IsSettings (codes "V") no_visit;
  top_expires = omega arith;
}

new_server-IsServer : IsServer environment new_server
new_server-IsServer = record {
  database = record {
    index_table = new_table-IsTable of_deals.of_index (settings_of-IsSettings (codes "I") no_deal);
    data_table = new_table-IsTable of_deals.of_data (settings_of-IsSettings (codes "D") 0);
  };
  destinations = new_table-IsTable environment.of_top (settings_of-IsSettings (codes "V") no_visit);
}

abbrev ping_request : Text
ping_request = codes "GET /ping HTTP/1.0" ++ (13 ∷ 10 ∷ 13 ∷ 10 ∷ [])

-- A connection on the descriptor 5, and one on 6 that is closed with data to send.
abbrev pinging : Connection HttpParser
pinging = record (new_connection new_parser (record { now = 100; sockfd = some 5 })) {
  data_in = ping_request;
}

abbrev closing : Connection HttpParser
closing = record (new_connection new_parser (record { now = 95; sockfd = some 6 })) {
  data_out = codes "bye";
  connection_alive = false;
}

abbrev answering : Connection HttpParser
answering = record pinging {
  context = record new_parser { headers_written = true; parsing_complete = true };
}

abbrev a_network : Network
a_network = record { now = 101; ioctl = some 22; recv = some ping_request; send = some 2 }

abbrev readable_writable : ℕ → Revents
readable_writable i = record { pollhup = false; pollin = true; pollout = true }

abbrev writable : ℕ → Revents
writable i = record { pollhup = false; pollin = false; pollout = true }

-- A round in which the descriptor 7 connects, and one in which nobody does.
abbrev busy_tick : Tick
busy_tick = record {
  current_time = 101;
  poll = λ fds. ready true readable_writable;
  network = λ i. a_network;
  accept = record { now = 101; sockfd = some 7 };
}

abbrev last_tick : Tick
last_tick = record busy_tick { poll = λ fds. ready false writable }

network_write-IsSent_example : IsSent closing (network_write a_network closing)
network_write-IsSent_example = network_write-IsSent a_network closing (omega arith)

process-IsTimely_example :
    All
      (IsTimely 101 101)
      (Polling.process
        (deals_handlers environment)
        busy_tick
        (pinging ∷ closing ∷ [])
        (some new_server)).connections
process-IsTimely_example =
    process-IsTimely (deals_handlers environment) (deals_handlers-IsContract environment) busy_tick
      (pinging ∷ closing ∷ []) (some new_server)

process-count_example :
    count 5 (
        sockets
          (Polling.process
            (deals_handlers environment)
            busy_tick
            (pinging ∷ closing ∷ [])
            (some new_server)).connections)
      + count 5
          (Polling.process
            (deals_handlers environment)
            busy_tick
            (pinging ∷ closing ∷ [])
            (some new_server)).closed_sockets
    ≡ count 5 (sockets (pinging ∷ closing ∷ []))
      + count 5 (accepted busy_tick (busy_tick.poll (pollfds (pinging ∷ closing ∷ []))))
process-count_example =
    process-count (deals_handlers environment) (deals_handlers-IsContract environment) 5 busy_tick
      (pinging ∷ closing ∷ []) (some new_server)

on_data-IsHandled_example : IsHandled pinging new_server (on_data environment pinging new_server)
on_data-IsHandled_example = on_data-IsHandled environment pinging new_server

on_data-IsServer_example : Stays environment pinging (on_data environment pinging new_server)
on_data-IsServer_example =
    on_data-IsServer environment environment-IsEnvironment pinging new_server new_server-IsServer

on_data-handle_example :
    on_data environment answering new_server
    ≡ answered environment
        (record answering { context = write answering.context ping_request })
        (handle environment (route [] []) (write answering.context ping_request) new_server)
on_data-handle_example = on_data-handle environment answering new_server refl refl refl refl

process_drains_example :
    (((round environment quitting_server refl last_tick (closing ∷ [])).connections ≡ [])
      × (process environment last_tick
            (waiting_on environment quitting_server refl true (closing ∷ []))
          ≡ exits))
    ⊎ ((0 < length (round environment quitting_server refl last_tick (closing ∷ [])).connections)
        × (process environment last_tick
              (waiting_on environment quitting_server refl true (closing ∷ []))
            ≡ goes_on (
                waiting_on environment quitting_server refl false
                  (round environment quitting_server refl last_tick (closing ∷ [])).connections)))
unfolding Polling.process Polling.get_alive_connections Polling.serve_all Polling.expire_all
    is_alive Polling.serve network_write Polling.expire
process_drains_example =
    process_drains environment quitting_server refl true last_tick (closing ∷ []) (omega arith)

process_ends_example :
    process environment last_tick (waiting_on environment quitting_server refl true (closing ∷ []))
    ≡ exits
process_ends_example =
    process_ends environment quitting_server refl true last_tick (closing ∷ []) writable refl
      (inl refl, tt) (inr (refl, inr (refl, omega arith)), tt)
