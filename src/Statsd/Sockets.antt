-- ===== src/Statsd/Sockets.antt =====
-- The socket of the client.
use deals_server.Prelude.{
  ℕ, ◌≡◌, refl, ap, ◌⊎◌, inl, inr, Bool, true, false, ◌||◌, List, [], ◌∷◌, ◌++◌, Option, none, some,
  if◌then◌else◌, Text, Bool-cases, append-nil,
}
use deals_server.Statsd.{
  Client, Network, Sent, pos, negsuc, sockets, send_to_daemon, sent_over, init_socket,
}

-- A client has a socket exactly when it is set up.
abbrev pub IsClient : Client → Type 0
IsClient c =
    ((c.is_init ≡ true) × ((sock : ℕ) × (c.sock ≡ some sock)))
    ⊎ ((c.is_init ≡ false) × (c.sock ≡ none))

-- After a call: a client, whose sockets are those before and those opened, less those closed; a code
-- of 0 for a message that was sent, and another for none.
pub record IsSent (c : Client) (r : Sent) : Type 0 where
  pub client : IsClient r.client
  pub balanced : sockets c.sock ++ r.opened ≡ r.closed ++ sockets r.client.sock
  pub reported :
      ((r.code ≡ pos 0) × ((text : Text) × (r.sent ≡ some text)))
      ⊎ (((n : ℕ) × (r.code ≡ negsuc n)) × (r.sent ≡ none))

reported_lem :
    (b : Bool) (text : Text)
    → (((if b then pos 0 else negsuc 0) ≡ pos 0)
        × ((t : Text) × ((if b then some text else none) ≡ some t)))
      ⊎ (((n : ℕ) × ((if b then pos 0 else negsuc 0) ≡ negsuc n))
          × (◌≡◌ {A = Option Text} (if b then some text else none) none))
reported_lem true text = inl (refl, (text, refl))
reported_lem false text = inr ((0, refl), refl)

sent_over-IsSent :
    (n : Network) (text : Text) (c c' : Client) (opened : List ℕ)
    → IsClient c'
    → sockets c.sock ++ opened ≡ sockets c'.sock
    → IsSent c (sent_over n text c' opened)
sent_over-IsSent n text c c' opened is same = record {
  client = is;
  balanced = same;
  reported = reported_lem n.sends text;
}

init_socket-IsSent :
    (n : Network) (text : Text) (c : Client) (o : Option ℕ)
    → c.is_init ≡ false
    → c.sock ≡ none
    → IsSent c (init_socket n text c o)
init_socket-IsSent n text c none idle closed = record {
  client = inr (idle, refl);
  balanced = ap (λ o. sockets o ++ []) closed;
  reported = inr ((0, refl), refl);
}
init_socket-IsSent n text c (some sock) idle closed =
    elim (Bool-cases (n.inet_aton || n.getaddrinfo)) [
      | inl known ↦ rw known (
          sent_over-IsSent n text c (record c { sock = some sock; is_init = true }) (sock ∷ [])
            (inl (refl, (sock, refl))) (ap (λ o. sockets o ++ sock ∷ []) closed))
      | inr strange ↦ rw strange (record {
        client = inr (idle, refl);
        balanced = ap (λ o. sockets o ++ sock ∷ []) closed;
        reported = inr ((1, refl), refl);
      })
    ]

-- For every client that has a socket exactly when it is set up, sending a message leaves such a
-- client, whatever the system answers: no socket is lost, since those that the client had and those
-- that were opened are those that were closed and those that it has. 0 is returned exactly where the
-- message was sent.
pub send_to_daemon-IsSent :
    (n : Network) (text : Text) (c : Client) → IsClient c → IsSent c (send_to_daemon n text c)
unfolding send_to_daemon
send_to_daemon-IsSent n text c (inl (ready, open_socket)) = by_init c.is_init ready
  where
    by_init :
        (b : Bool)
        → b ≡ true
        → IsSent c (if b then sent_over n text c [] else init_socket n text c n.socket)
    by_init true e =
        sent_over-IsSent n text c c [] (inl (ready, open_socket)) (append-nil (sockets c.sock))
    by_init false e = cc
send_to_daemon-IsSent n text c (inr (idle, closed)) = by_init c.is_init idle
  where
    by_init :
        (b : Bool)
        → b ≡ false
        → IsSent c (if b then sent_over n text c [] else init_socket n text c n.socket)
    by_init true e = cc
    by_init false e = init_socket-IsSent n text c n.socket idle closed
