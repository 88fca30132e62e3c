-- ===== src/Tcp/Polling.antt =====
-- TCPServer of src/tcp_server.hpp: one round of `process` over the connections.
pub mod Contract
pub mod Lifetimes
pub mod Closing
pub mod Descriptors
use deals_server.Prelude.{
  ℕ, suc, ◌%◌, ◌^◌, Bool, true, false, List, [], ◌∷◌, ◌++◌, Option, none, some, ltb, if◌then◌else◌,
  length, Text,
}
use deals_server.Utils.Calendar.{sub_u32}
use deals_server.Tcp.Connection.{
  Connection, Accepted, Network, new_connection, close, reset, has_something_to_send, is_alive,
  get_socket, network_read, network_write,
}

-- What a class derived from TCPServer gives: its context, and the two virtual methods over its state.
pub record Handlers {ℓ} (Context State : Type ℓ) : Type ℓ where
  pub new_context : Context
  pub on_connect : Connection Context → State → Connection Context × State
  pub on_data : Connection Context → State → Connection Context × State

-- A pollfd that is handed to poll, with POLLIN always, and its revents.
pub record Pollfd : Type 0 where
  pub fd : ℕ
  pub wants_out : Bool

pub record Revents : Type 0 where
  pub pollhup : Bool
  pub pollin : Bool
  pub pollout : Bool

-- poll returns -1, 0, or the events of the main socket and of each connection, by its index.
pub data Polled : Type 0 where
  failed timed_out : Polled
  ready : Bool → (ℕ → Revents) → Polled

-- What the clock and the system say in a round; `network` by the index of the connection.
pub record Tick : Type 0 where
  pub current_time : ℕ
  pub poll : List Pollfd → Polled
  pub network : ℕ → Network
  pub accept : Accepted

-- The connections and the state after a round, and the descriptors that were closed.
pub record Processed {ℓ} (Context State : Type ℓ) : Type ℓ where
  pub connections : List (Connection Context)
  pub state : State
  pub closed_sockets : List ℕ

abbrev pub max_connection_lifetime_sec : ℕ
max_connection_lifetime_sec = 10

abbrev pub max_connection_idle_time_sec : ℕ
max_connection_idle_time_sec = 2

abbrev pub opened : Option ℕ → List ℕ
opened none = []
opened (some fd) = fd ∷ []

module _ {ℓ} {Context : Type ℓ} where
  abbrev pub pollfd_of : Connection Context → Pollfd
  pollfd_of c = record { fd = get_socket c.sockfd; wants_out = has_something_to_send c }

  -- The set-up of poll, for one connection and for all.
  unfoldable pub expire : ℕ → Connection Context → Connection Context
  expire current_time c =
      if ltb max_connection_lifetime_sec (sub_u32 current_time c.created_time)
      then close c
      else if ltb max_connection_idle_time_sec (sub_u32 current_time c.last_beat_time)
      then close c
      else c

  unfoldable pub pollfds : List (Connection Context) → List Pollfd
  pollfds [] = []
  pollfds (c ∷ cs) = pollfd_of c ∷ pollfds cs

  unfoldable pub expire_all : ℕ → List (Connection Context) → List (Connection Context)
  expire_all current_time [] = []
  expire_all current_time (c ∷ cs) = expire current_time c ∷ expire_all current_time cs

  -- The descriptors of connections.
  unfoldable pub sockets : List (Connection Context) → List ℕ
  sockets [] = []
  sockets (c ∷ cs) = opened c.sockfd ++ sockets cs

  -- get_alive_connections: those that are kept, and the descriptors that the destructors close.
  unfoldable pub get_alive_connections : List (Connection Context) → List (Connection Context)
  get_alive_connections [] = []
  get_alive_connections (c ∷ cs) =
      let rest = get_alive_connections cs in if is_alive c then c ∷ rest else rest

  unfoldable pub deleted_sockets : List (Connection Context) → List ℕ
  deleted_sockets [] = []
  deleted_sockets (c ∷ cs) =
      let rest = deleted_sockets cs in if is_alive c then rest else opened c.sockfd ++ rest

module _ {ℓ} {Context State : Type ℓ} where
  module _ (h : Handlers Context State) where
    abbrev pub read_step :
        Revents → Network → Connection Context → State → Connection Context × State
    read_step r n c s = if r.pollin then h.on_data (network_read n c) s else (c, s)

    abbrev pub write_step :
        Revents → Network → Connection Context × State → Connection Context × State
    write_step r n (c, s) = if r.pollout then ((network_write n c).1, s) else (c, s)

    -- The body of the loop over the events.
    unfoldable pub serve :
        Revents → Network → Connection Context → State → Connection Context × State
    serve r n c s = if r.pollhup then (reset c, s) else write_step r n (read_step r n c s)

    unfoldable pub serve_all :
        (ℕ → Revents)
        → (ℕ → Network)
        → ℕ
        → List (Connection Context)
        → State
        → List (Connection Context) × State
    serve_all revents network i [] s = ([], s)
    serve_all revents network i (c ∷ cs) s =
        let (c', s') = serve (revents i) (network i) c s in
        let (cs', s'') = serve_all revents network (suc i) cs s' in (c' ∷ cs', s'')

    unfoldable pub accept_new_connection :
        Accepted → List (Connection Context) × State → List (Connection Context) × State
    accept_new_connection a (cs, s) =
        let c = new_connection h.new_context a in
        let (c', s') = h.on_connect c s in if is_alive c then (cs ++ c' ∷ [], s') else (cs, s)

    abbrev pub update : List (Connection Context) × State → Processed Context State
    update (cs, s) = record {
      connections = get_alive_connections cs;
      state = s;
      closed_sockets = deleted_sockets cs;
    }

    abbrev pub polled : Tick → List (Connection Context) → State → Polled → Processed Context State
    polled t cs s failed = update (cs, s)
    polled t cs s timed_out = update (cs, s)
    polled t cs s (ready main revents) =
        let served = serve_all revents t.network 0 cs s in
        update (if main then accept_new_connection t.accept served else served)

    unfoldable pub process : Tick → List (Connection Context) → State → Processed Context State
    process t cs s = polled t (expire_all t.current_time cs) s (t.poll (pollfds cs))

  -- What `process` returns, a uint16_t.
  abbrev pub active_connections : Processed Context State → ℕ
  active_connections p = length p.connections % 2 ^ 16
