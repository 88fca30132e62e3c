-- ===== src/Tcp/Connection.antt =====
-- TCPConnection of src/tcp_server.cpp, with the context that TCPServer::Connection adds: the buffers
-- of a connection and the life of its descriptor.
pub mod Sending
use deals_server.Prelude.{
  ℕ, ◌%◌, ◌^◌, Bool, true, false, not, List, [], ◌∷◌, ◌++◌, Option, none, some, ◌==◌, if◌then◌else◌,
  length, Text, take,
}

-- `sockfd` is `none` for -1.
pub record Connection {ℓ} (Context : Type ℓ) : Type ℓ where
  pub created_time : ℕ
  pub last_beat_time : ℕ
  pub data_in : Text
  pub data_out : Text
  pub sockfd : Option ℕ
  pub connection_alive : Bool
  pub context : Context

-- What the clock and accept say, and the descriptor that accept gives.
pub record Accepted : Type 0 where
  pub now : ℕ
  pub sockfd : Option ℕ

-- What the clock, ioctl with FIONREAD, recv and send say; -1 is `none`. What recv gives are the bytes
-- that are read, what send gives is the number of the bytes that it took.
pub record Network : Type 0 where
  pub now : ℕ
  pub ioctl : Option ℕ
  pub recv : Option Text
  pub send : Option ℕ

abbrev pub is_socket : Option ℕ → Bool
is_socket none = false
is_socket (some fd) = true

-- get_socket, of a descriptor; it returns a uint16_t.
abbrev pub get_socket : Option ℕ → ℕ
get_socket none = 65535
get_socket (some fd) = fd % 2 ^ 16

module _ {ℓ} {Context : Type ℓ} where
  -- The constructor.
  abbrev pub new_connection : Context → Accepted → Connection Context
  new_connection context a = record {
    created_time = a.now;
    last_beat_time = a.now;
    data_in = [];
    data_out = [];
    sockfd = a.sockfd;
    connection_alive = is_socket a.sockfd;
    context = context;
  }

  abbrev pub close : Connection Context → Connection Context
  close c = record c { connection_alive = false }

  abbrev pub write : Connection Context → Text → Connection Context
  write c out = record c { data_out = c.data_out ++ out }

  -- close(msg).
  abbrev pub close_with : Connection Context → Text → Connection Context
  close_with c msg = close (write c msg)

  abbrev pub reset : Connection Context → Connection Context
  reset c = record (close c) { data_out = [] }

  abbrev pub has_something_to_send : Connection Context → Bool
  has_something_to_send c = not (length c.data_out == 0)

  unfoldable pub is_alive : Connection Context → Bool
  is_alive c = if has_something_to_send c then true else c.connection_alive

  abbrev pub received : ℕ → Connection Context → Option Text → Connection Context
  received now c none = close c
  received now c (some []) = close c
  received now c (some (b ∷ bytes)) = record c { last_beat_time = now; data_in = b ∷ bytes }

  abbrev pub read_count : Network → Connection Context → Option ℕ → Connection Context
  read_count n c none = close c
  read_count n c (some count) = if count == 0 then close c else received n.now c n.recv

  unfoldable pub network_read : Network → Connection Context → Connection Context
  network_read n c = read_count n c n.ioctl

  -- The bytes that leave the machine, and the connection after.
  abbrev pub sent : Connection Context → Option ℕ → Text × Connection Context
  sent c none = ([], reset c)
  sent c (some count) =
      if count == 0 then ([], reset c) else (take count c.data_out, record c { data_out = [] })

  -- network_write without NET_MAX_PACKET_SIZE; the length is a uint32_t.
  unfoldable pub network_write : Network → Connection Context → Text × Connection Context
  network_write n c =
      if length c.data_out % 2 ^ 32 == 0
      then ([], c)
      else sent (record c { last_beat_time = n.now }) n.send
