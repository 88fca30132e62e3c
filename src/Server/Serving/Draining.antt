-- ===== src/Server/Serving/Draining.antt =====
-- How the server behaves once it is asked to quit.
use mathlib.Core.Path.{subst}
use deals_server.Prelude.{
  ℕ, suc, ◌%◌, ◌^◌, ◌<◌, ◌≡◌, refl, sym, ap, ◌∙◌, ◌⊎◌, inl, inr, Bool, true, false, List, [], ◌∷◌,
  Option, none, some, ◌==◌, if◌then◌else◌, length, arith, Bool-cases, nil_of_length, All,
}
use deals_server.Http.Parser.{HttpParser, new_parser}
use deals_server.Tcp.Connection.{
  Connection, Network, Accepted, is_alive, new_connection, network_read,
}
use deals_server.Tcp.Polling
use deals_server.Tcp.Polling.{
  Handlers, Revents, Tick, Polled, failed, timed_out, ready, Processed, active_connections, sockets,
  pollfds, get_alive_connections, serve, serve_all, accept_new_connection, expire_all, polled,
  read_step, write_step,
}
use deals_server.Tcp.Polling.Contract.{IsTame, IsContract, IsTame-refl}
use deals_server.Tcp.Polling.Closing.{IsLeaving, Flushing, process-IsLeft}
use deals_server.Server.Routing
use deals_server.Server.Actions.{DealsServer, Environment}
use deals_server.Server.Handlers.{on_data}
use deals_server.Server.Handlers.Answers.{IsHandled, on_data-IsHandled}
use deals_server.Server.Serving.{
  handle_data, kept, deals_handlers, Serving, exits, goes_on, check_quit, process,
}

module _ (env : Environment) where
  kept-IsTame :
      (c : Connection HttpParser) (s : DealsServer)
      (o : Option (Connection HttpParser × DealsServer))
      → IsHandled c s o
      → IsTame c (kept c o).0
  kept-IsTame c s none h = IsTame-refl c
  kept-IsTame c s (some (c', s')) (inl (e, same, serves, good, part)) =
      subst (λ c'. IsTame c c') (sym e)
        (record { same_socket = refl; same_time = refl; stays_closed = λ h. h })
  kept-IsTame c s (some (c', s')) (inr (r, status, e, state)) =
      subst (λ c'. IsTame c c') (sym e)
        (record { same_socket = refl; same_time = refl; stays_closed = λ h. refl })

  handle_data-IsTame :
      (c : Connection HttpParser) (o : Option DealsServer) → IsTame c (handle_data env c o).0
  handle_data-IsTame c none = IsTame-refl c
  handle_data-IsTame c (some s) = kept-IsTame c s (on_data env c s) (on_data-IsHandled env c s)

  pub deals_handlers-IsContract : IsContract (deals_handlers env)
  deals_handlers-IsContract = record {
    connects = λ c s. IsTame-refl c;
    handles = handle_data-IsTame;
  }

  -- Once a quit is asked for, a connection's data is answered, and the server stays as it is.
  handle_data_quitting :
      (c : Connection HttpParser) (s : DealsServer)
      → s.quit_request ≡ true
      → (handle_data env c (some s)).1 ≡ some s
  unfolding on_data Routing.on_data
  handle_data_quitting c s q = rw q refl

  quitting_kept :
      (c : Connection HttpParser) (o : Option DealsServer) (s : DealsServer)
      → s.quit_request ≡ true
      → o ≡ some s
      → (handle_data env c o).1 ≡ some s
  quitting_kept c o s q e = ap (λ o. (handle_data env c o).1) e ∙ handle_data_quitting c s q

  write_step_kept :
      (r : Revents) (n : Network) (m : Connection HttpParser × Option DealsServer)
      → (write_step (deals_handlers env) r n m).1 ≡ m.1
  write_step_kept r n (c, o) = elim (Bool-cases r.pollout) [
    | inl writable ↦ rw writable refl
    | inr busy ↦ rw busy refl
  ]

  module _ (s : DealsServer) (q : s.quit_request ≡ true) where
    serve_quitting :
        (r : Revents) (n : Network) (c : Connection HttpParser) (o : Option DealsServer)
        → o ≡ some s
        → (serve (deals_handlers env) r n c o).1 ≡ some s
    unfolding serve
    serve_quitting r n c o e = elim (Bool-cases r.pollhup) [
      | inl gone ↦ rw gone e
      | inr there ↦ rw there (
          write_step_kept r n (read_step (deals_handlers env) r n c o)
          ∙ (elim (Bool-cases r.pollin) [
            | inl readable ↦ rw readable (quitting_kept (network_read n c) o s q e)
            | inr quiet ↦ rw quiet e
          ]))
    ]

    serve_all_quitting :
        (revents : ℕ → Revents) (network : ℕ → Network) (i : ℕ) (cs : List (Connection HttpParser))
        (o : Option DealsServer)
        → o ≡ some s
        → (serve_all (deals_handlers env) revents network i cs o).1 ≡ some s
    unfolding serve_all
    serve_all_quitting revents network i [] o e = e
    serve_all_quitting revents network i (c ∷ cs) o e =
        serve_all_quitting revents network (suc i) cs
          (serve (deals_handlers env) (revents i) (network i) c o).1
          (serve_quitting (revents i) (network i) c o e)

    accept_quitting :
        (a : Accepted) (cs : List (Connection HttpParser)) (o : Option DealsServer)
        → o ≡ some s
        → (accept_new_connection (deals_handlers env) a (cs, o)).1 ≡ some s
    unfolding accept_new_connection
    accept_quitting a cs o e = elim (Bool-cases (is_alive (new_connection new_parser a))) [
      | inl there ↦ rw there e
      | inr missing ↦ rw missing e
    ]

    -- A round of the TCP layer leaves the server as it is.
    process_quitting :
        (t : Tick) (cs : List (Connection HttpParser))
        → (Polling.process (deals_handlers env) t cs (some s)).state ≡ some s
    unfolding Polling.process
    process_quitting t cs = by_events (t.poll (pollfds cs))
      where
        old : List (Connection HttpParser)
        old = expire_all t.current_time cs

        by_events : (p : Polled) → (polled (deals_handlers env) t old (some s) p).state ≡ some s
        by_events failed = refl
        by_events timed_out = refl
        by_events (ready true revents) =
            accept_quitting t.accept
              (serve_all (deals_handlers env) revents t.network 0 old (some s)).0
              (serve_all (deals_handlers env) revents t.network 0 old (some s)).1
              (serve_all_quitting revents t.network 0 old (some s) refl)
        by_events (ready false revents) = serve_all_quitting revents t.network 0 old (some s) refl

    abbrev pub waiting_on : Bool → List (Connection HttpParser) → Serving
    waiting_on signalled cs = record {
      connections = cs;
      server = some s;
      got_quit_signal = signalled;
    }

    abbrev pub round :
        Tick → List (Connection HttpParser) → Processed HttpParser (Option DealsServer)
    round t cs = Polling.process (deals_handlers env) t cs (some s)

    check_quit_quitting :
        (signalled : Bool) (p : Processed HttpParser (Option DealsServer))
        → check_quit signalled p (some s)
          ≡ (if active_connections p == 0 then exits else goes_on (waiting_on false p.connections))
    check_quit_quitting true p = rw q refl
    check_quit_quitting false p = rw q refl

    process-round :
        (signalled : Bool) (t : Tick) (cs : List (Connection HttpParser))
        → process env t (waiting_on signalled cs) ≡ (
            if active_connections (round t cs) == 0
            then exits
            else goes_on (waiting_on false (round t cs).connections))
    unfolding process
    process-round signalled t cs =
        ap (check_quit signalled (round t cs)) (process_quitting t cs)
        ∙ check_quit_quitting signalled (round t cs)

    -- Once a quit is asked for, a round that leaves fewer than 2^16 connections ends the process where
    -- it leaves none; otherwise the server goes on with those, its databases as they were.
    pub process_drains :
        (signalled : Bool) (t : Tick) (cs : List (Connection HttpParser))
        → length (round t cs).connections < 2 ^ 16
        → (((round t cs).connections ≡ []) × (process env t (waiting_on signalled cs) ≡ exits))
          ⊎ ((0 < length (round t cs).connections)
              × (process env t (waiting_on signalled cs)
                  ≡ goes_on (waiting_on false (round t cs).connections)))
    process_drains signalled t cs few = elim (Bool-cases (active_connections (round t cs) == 0)) [
      | inl over ↦ inl (
        nil_of_length (round t cs).connections (ground arith),
        process-round signalled t cs ∙ rw over refl,
      )
      | inr busy ↦ inr (ground arith, process-round signalled t cs ∙ rw busy refl)
    ]

    -- Once a quit is asked for, the process ends in the round in which nobody connects, every
    -- connection is closed or out of time, and the other side of each is gone, or sends nothing
    -- and takes fewer than 2^32 bytes where there are some.
    pub process_ends :
        (signalled : Bool) (t : Tick) (cs : List (Connection HttpParser)) (revents : ℕ → Revents)
        → t.poll (pollfds cs) ≡ ready false revents
        → All (IsLeaving t.current_time) cs
        → Flushing revents 0 cs
        → process env t (waiting_on signalled cs) ≡ exits
    process_ends signalled t cs revents e leaving flushed =
        none_stays
          (process-IsLeft (deals_handlers env) deals_handlers-IsContract t cs (some s) false revents
            e leaving flushed).0
      where
        none_stays :
            (◌≡◌ {A = Bool} false true) ⊎ ((round t cs).connections ≡ [])
            → process env t (waiting_on signalled cs) ≡ exits
        none_stays (inl absurdity) = cc
        none_stays (inr empty) =
            process-round signalled t cs
            ∙ ap
                (λ (l : List (Connection HttpParser)).
                  if length l % 2 ^ 16 == 0 then exits else goes_on (waiting_on false l))
                empty
