-- ===== src/Tcp/Polling/Descriptors.antt =====
-- The descriptors of TCPServer: what a round opens and closes.
use deals_server.Prelude.{
  ℕ, suc, ◌+◌, ◌≡◌, refl, sym, ap, ◌∙◌, inl, inr, true, false, List, [], ◌∷◌, ◌++◌, ◌==◌, Option,
  none, some, if◌then◌else◌, arith, Bool-cases, append_assoc, append-nil,
}
use deals_server.Tcp.Connection.{Connection, Network, Accepted, is_alive, is_socket, new_connection}
use deals_server.Tcp.Polling.{
  Handlers, Revents, Tick, Polled, failed, timed_out, ready, expire_all, serve, serve_all, sockets,
  pollfds, get_alive_connections, deleted_sockets, accept_new_connection, process, polled, opened,
  update,
}
use deals_server.Tcp.Polling.Contract.{IsContract, serve-IsTame, expire-IsTame}

-- How often a descriptor occurs.
abbrev pub count : ℕ → List ℕ → ℕ
count fd [] = 0
count fd (x ∷ xs) = (if x == fd then 1 else 0) + count fd xs

count-append : (fd : ℕ) (xs ys : List ℕ) → count fd (xs ++ ys) ≡ count fd xs + count fd ys
count-append fd [] ys = omega arith
count-append fd (x ∷ xs) ys = omega (arith, count-append fd xs ys)

-- The descriptors that a round opens.
abbrev pub accepted : Tick → Polled → List ℕ
accepted t failed = []
accepted t timed_out = []
accepted t (ready true revents) = opened t.accept.sockfd
accepted t (ready false revents) = []

module _ {ℓ} {Context : Type ℓ} where
  -- Each connection is kept, or its descriptor is closed.
  get_alive_connections-count :
      (fd : ℕ) (cs : List (Connection Context))
      → count fd (sockets (get_alive_connections cs)) + count fd (deleted_sockets cs)
        ≡ count fd (sockets cs)
  unfolding get_alive_connections deleted_sockets sockets
  get_alive_connections-count fd [] = omega arith
  get_alive_connections-count fd (c ∷ cs) = elim (Bool-cases (is_alive c)) [
    | inl kept ↦ rw kept (
        omega (
          arith,
          get_alive_connections-count fd cs,
          count-append fd (opened c.sockfd) (sockets (get_alive_connections cs)),
          count-append fd (opened c.sockfd) (sockets cs),
        ))
    | inr gone ↦ rw gone (
        omega (
          arith,
          get_alive_connections-count fd cs,
          count-append fd (opened c.sockfd) (deleted_sockets cs),
          count-append fd (opened c.sockfd) (sockets cs),
        ))
  ]

  sockets-expire_all :
      (now : ℕ) (cs : List (Connection Context)) → sockets (expire_all now cs) ≡ sockets cs
  unfolding expire_all sockets
  sockets-expire_all now [] = refl
  sockets-expire_all now (c ∷ cs) =
      cc (ap opened (expire-IsTame now c).same_socket, sockets-expire_all now cs)

  sockets-append :
      (cs ds : List (Connection Context)) → sockets (cs ++ ds) ≡ sockets cs ++ sockets ds
  unfolding sockets
  sockets-append [] ds = refl
  sockets-append (c ∷ cs) ds =
      ap (λ l. opened c.sockfd ++ l) (sockets-append cs ds)
      ∙ sym (append_assoc (opened c.sockfd) (sockets cs) (sockets ds))

module _ {ℓ} {Context State : Type ℓ} (h : Handlers Context State) (k : IsContract h) where
  sockets-serve_all :
      (revents : ℕ → Revents) (network : ℕ → Network) (i : ℕ) (cs : List (Connection Context))
      (s : State)
      → sockets (serve_all h revents network i cs s).0 ≡ sockets cs
  unfolding serve_all sockets
  sockets-serve_all revents network i [] s = refl
  sockets-serve_all revents network i (c ∷ cs) s =
      let (c', s') = serve h (revents i) (network i) c s in
      cc (
        ap opened (serve-IsTame h k (revents i) (network i) c s).same_socket,
        sockets-serve_all revents network (suc i) cs s',
      )

  new_connection-is_alive :
      (a : Accepted) → is_alive (new_connection h.new_context a) ≡ is_socket a.sockfd
  unfolding is_alive
  new_connection-is_alive a = refl

  sockets-accept_new_connection :
      (a : Accepted) (cs : List (Connection Context)) (s : State)
      → sockets (accept_new_connection h a (cs, s)).0 ≡ sockets cs ++ opened a.sockfd
  unfolding accept_new_connection sockets
  sockets-accept_new_connection a cs s = by_socket a.sockfd refl
    where
      c : Connection Context
      c = new_connection h.new_context a

      c' : Connection Context
      c' = (h.on_connect c s).0

      by_socket :
          (o : Option ℕ)
          → a.sockfd ≡ o
          → sockets (accept_new_connection h a (cs, s)).0 ≡ sockets cs ++ opened a.sockfd
      by_socket none e =
          let missing : is_alive c ≡ false = new_connection-is_alive a ∙ ap is_socket e in
          rw missing (rw e (sym (append-nil (sockets cs))))
      by_socket (some fd) e =
          let there : is_alive c ≡ true = new_connection-is_alive a ∙ ap is_socket e in
          rw there (
            sockets-append cs (c' ∷ [])
            ∙ ap (λ l. sockets cs ++ l)
                (append-nil (opened c'.sockfd) ∙ ap opened (k.connects c s).same_socket))

  update-count :
      (fd : ℕ) (cs before : List (Connection Context)) (new : List ℕ) (s : State)
      → sockets cs ≡ sockets before ++ new
      → count fd (sockets (update h (cs, s)).connections)
          + count fd (update h (cs, s)).closed_sockets
        ≡ count fd (sockets before) + count fd new
  update-count fd cs before new s e =
      get_alive_connections-count fd cs ∙ (ap (count fd) e ∙ count-append fd (sockets before) new)

  -- With virtual methods that keep the descriptor and the time of a connection, and leave a closed
  -- one closed: for every round and every descriptor, as often as it is held by a
  -- connection before the round or is accepted in it, it is held by a connection after the round
  -- or closed in it.
  pub process-count :
      (fd : ℕ) (t : Tick) (cs : List (Connection Context)) (s : State)
      → count fd (sockets (process h t cs s).connections)
          + count fd (process h t cs s).closed_sockets
        ≡ count fd (sockets cs) + count fd (accepted t (t.poll (pollfds cs)))
  unfolding process
  process-count fd t cs s = by_events (t.poll (pollfds cs))
    where
      old : List (Connection Context)
      old = expire_all t.current_time cs

      same : sockets old ≡ sockets cs
      same = sockets-expire_all t.current_time cs

      idle : sockets old ≡ sockets cs ++ []
      idle = same ∙ sym (append-nil (sockets cs))

      by_events :
          (p : Polled)
          → count fd (sockets (polled h t old s p).connections)
              + count fd (polled h t old s p).closed_sockets
            ≡ count fd (sockets cs) + count fd (accepted t p)
      by_events failed = update-count fd old cs [] s idle
      by_events timed_out = update-count fd old cs [] s idle
      by_events (ready false revents) =
          let (cs', s') = serve_all h revents t.network 0 old s in
          update-count fd cs' cs [] s' (sockets-serve_all revents t.network 0 old s ∙ idle)
      by_events (ready true revents) =
          let (cs', s') = serve_all h revents t.network 0 old s in
          let (cs'', s'') = accept_new_connection h t.accept (cs', s') in
          update-count fd cs'' cs (opened t.accept.sockfd) s'' (
            sockets-accept_new_connection t.accept cs' s'
            ∙ ap (λ l. l ++ opened t.accept.sockfd)
                (sockets-serve_all revents t.network 0 old s ∙ same))
