-- ===== src/Statsd.antt =====
-- The metrics' client: src/statsd_client.hpp and src/statsd_client.cpp.
pub mod Cleaning
pub mod Sockets
use deals_server.Prelude.{
  ℕ, zero, suc, ◌+◌, ◌%◌, ◌^◌, Bool, true, false, not, ◌||◌, List, [], ◌∷◌, ◌++◌, Option, none,
  some, ltb, ◌==◌, if◌then◌else◌, length, Text, codes, text_eq, set,
}
use deals_server.Prelude.Decimal.{to_string}

-- An int32_t that is sent: not negative, or -(n + 1).
pub data Amount : Type 0 where
  pos negsuc : ℕ → Amount

abbrev pub amount_text : Amount → Text
amount_text (pos n) = to_string n
amount_text (negsuc n) = b'-' ∷ to_string (n + 1)

-- A rate, a float: whether it is 1 up to 0.0001, whether the random number is below it, and its text.
pub record Rate : Type 0 where
  pub is_one : Bool
  pub is_drawn : Bool
  pub text : Text

abbrev pub should_send : Rate → Bool
should_send rate = if rate.is_one then true else rate.is_drawn

-- operator< of std::string, on bytes.
unfoldable pub text_lt : Text → Text → Bool
text_lt s [] = false
text_lt [] (b ∷ t) = true
text_lt (a ∷ s) (b ∷ t) = if ltb a b then true else if a == b then text_lt s t else false

-- Tags: a std::map in the order of its keys; insert keeps what is there.
abbrev pub Tags : Type 0
Tags = List (Text × Text)

unfoldable pub insert : Text → Text → Tags → Tags
insert k v [] = (k, v) ∷ []
insert k v ((j, w) ∷ tags) =
    if text_lt k j
    then (k, v) ∷ (j, w) ∷ tags
    else if text_eq k j
    then (j, w) ∷ tags
    else (j, w) ∷ insert k v tags

unfoldable pub tags_of : Tags → Tags → Tags
tags_of tags [] = tags
tags_of tags ((k, v) ∷ kv) = tags_of (insert k v tags) kv

abbrev pub is_special : ℕ → Bool
is_special c = c == b':' || (c == b'|' || c == b'@')

-- key.find_first_of(":|@").
unfoldable pub find_special : Text → Option ℕ
find_special [] = none
find_special (c ∷ key) =
    if is_special c then some 0 else elim (find_special key) [ none ↦ none | some i ↦ some (suc i) ]

-- The loop of cleanup; `none` is the loop still running.
unfoldable pub clean : ℕ → Text → Option Text
clean zero key = none
clean (suc rounds) key = elim (find_special key) [
  | none ↦ some key
  | some i ↦ clean rounds (set key i b'_')
]

-- The rounds that are enough.
abbrev pub cleanup : Text → Option Text
cleanup key = clean (suc (length key)) key

unfoldable pub tags_text : Tags → Text
tags_text [] = []
tags_text ((k, v) ∷ tags) = codes "," ++ (k ++ (codes "=" ++ (v ++ tags_text tags)))

-- The message of `send`, with the key that cleanup leaves.
unfoldable pub message : Text → Text → Tags → Amount → Text → Rate → Text
message ns key tags value type rate =
    (ns ++ (key ++ (tags_text tags ++ (codes ":" ++ (amount_text value ++ (codes "|" ++ type))))))
    ++ (if rate.is_one then [] else codes "|@" ++ rate.text)

-- ClientData: the socket, its address and whether it is set up; `sock` is `none` for -1.
pub record Client : Type 0 where
  pub sock : Option ℕ
  pub ns : Text
  pub host : Text
  pub port : ℕ
  pub is_init : Bool

-- What the system says: a new socket, whether the host is an address or a known name, and whether
-- sendto fails.
pub record Network : Type 0 where
  pub socket : Option ℕ
  pub inet_aton : Bool
  pub getaddrinfo : Bool
  pub sends : Bool

-- What a call returns, the message that was sent, the client after it, and the sockets that it opened
-- and closed.
pub record Sent : Type 0 where
  pub code : Amount
  pub sent : Option Text
  pub client : Client
  pub opened : List ℕ
  pub closed : List ℕ

abbrev pub sockets : Option ℕ → List ℕ
sockets none = []
sockets (some sock) = sock ∷ []

-- config: the client after it, and the sockets that it closed; of the port, a short, 16 bits are kept.
abbrev pub config : Text → ℕ → Text → Client → Client × List ℕ
config host port ns c = (
  record { sock = none; ns = ns; host = host; port = port % 2 ^ 16; is_init = false },
  sockets c.sock,
)

abbrev pub sent_over : Network → Text → Client → List ℕ → Sent
sent_over n text c opened = record {
  code = if n.sends then pos 0 else negsuc 0;
  sent = if n.sends then some text else none;
  client = c;
  opened = opened;
  closed = [];
}

-- init with a socket, up to the message.
abbrev pub init_host : Network → Text → Client → ℕ → Sent
init_host n text c sock =
    if n.inet_aton || n.getaddrinfo
    then sent_over n text (record c { sock = some sock; is_init = true }) (sock ∷ [])
    else record {
      code = negsuc 1;
      sent = none;
      client = record c { sock = none };
      opened = sock ∷ [];
      closed = sock ∷ [];
    }

abbrev pub init_socket : Network → Text → Client → Option ℕ → Sent
init_socket n text c none = record {
  code = negsuc 0;
  sent = none;
  client = record c { sock = none };
  opened = [];
  closed = [];
}
init_socket n text c (some sock) = init_host n text c sock

-- send_to_daemon, with init.
unfoldable pub send_to_daemon : Network → Text → Client → Sent
send_to_daemon n text c = if c.is_init then sent_over n text c [] else init_socket n text c n.socket

abbrev pub not_sent : Client → Sent
not_sent c = record { code = pos 0; sent = none; client = c; opened = []; closed = [] }

abbrev pub cleaned : Network → Client → Tags → Amount → Text → Rate → Option Text → Option Sent
cleaned n c tags value type rate none = none
cleaned n c tags value type rate (some key) =
    some (send_to_daemon n (message c.ns key tags value type rate) c)

-- send(key, value, tags, type, rate).
unfoldable pub send : Network → Text → Amount → Tags → Text → Rate → Client → Option Sent
send n key value tags type rate c =
    if should_send rate then cleaned n c tags value type rate (cleanup key) else some (not_sent c)

abbrev pub count : Network → Text → Amount → Tags → Rate → Client → Option Sent
count n key value tags rate c = send n key value tags (codes "c") rate c

abbrev pub inc : Network → Text → Tags → Rate → Client → Option Sent
inc n key tags rate c = count n key (pos 1) tags rate c

abbrev pub dec : Network → Text → Tags → Rate → Client → Option Sent
dec n key tags rate c = count n key (negsuc 0) tags rate c

abbrev pub gauge : Network → Text → Amount → Tags → Rate → Client → Option Sent
gauge n key value tags rate c = send n key value tags (codes "g") rate c

abbrev pub timing : Network → Text → Amount → Tags → Rate → Client → Option Sent
timing n key ms tags rate c = send n key ms tags (codes "ms") rate c
