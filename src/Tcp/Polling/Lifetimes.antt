-- ===== src/Tcp/Polling/Lifetimes.antt =====
-- How long TCPServer keeps a connection.
use deals_server.Prelude.{
  ℕ, suc, ◌<◌, ◌≤◌, ◌≡◌, ◌∙◌, ◌⊎◌, inl, inr, true, false, List, [], ◌∷◌, length, arith, Bool-cases,
  All, All-append,
}
use deals_server.Utils.Calendar.{sub_u32}
use deals_server.Tcp.Connection.{Connection, Accepted, Network, is_alive, new_connection}
use deals_server.Tcp.Polling.{
  Handlers, Revents, Tick, Polled, failed, timed_out, ready, expire, expire_all, serve, serve_all,
  get_alive_connections, accept_new_connection, process, pollfds, polled,
}
use deals_server.Tcp.Polling.Contract.{IsTame, IsContract, serve-IsTame}

module _ {ℓ} {Context : Type ℓ} where
  -- What is said of a connection at the end of a round: it is open and was made at most ten seconds
  -- before the round or in it, or it is closed and has data to send.
  abbrev pub IsTimely : ℕ → ℕ → Connection Context → Type 0
  IsTimely current_time accepted_at c =
      ((c.connection_alive ≡ true)
        × ((sub_u32 current_time c.created_time ≤ 10) ⊎ (c.created_time ≡ accepted_at)))
      ⊎ ((c.connection_alive ≡ false) × (0 < length c.data_out))

  -- Open only if it is young, or was just accepted.
  abbrev pub IsYoung : ℕ → ℕ → Connection Context → Type 0
  IsYoung current_time accepted_at c =
      (c.connection_alive ≡ false)
      ⊎ ((sub_u32 current_time c.created_time ≤ 10) ⊎ (c.created_time ≡ accepted_at))

  expire-IsYoung : (now at : ℕ) (c : Connection Context) → IsYoung now at (expire now c)
  unfolding expire
  expire-IsYoung now at c = ground arith

  IsTame-IsYoung :
      (now at : ℕ) (c c' : Connection Context) → IsTame c c' → IsYoung now at c → IsYoung now at c'
  IsTame-IsYoung now at c c' t (inl closed) = inl (t.stays_closed closed)
  IsTame-IsYoung now at c c' t (inr (inl young)) = inr (inl (rw t.same_time young))
  IsTame-IsYoung now at c c' t (inr (inr new)) = inr (inr (t.same_time ∙ new))

  expire_all-IsYoung :
      (now at : ℕ) (cs : List (Connection Context)) → All (IsYoung now at) (expire_all now cs)
  unfolding expire_all
  expire_all-IsYoung now at [] = tt
  expire_all-IsYoung now at (c ∷ cs) = (expire-IsYoung now at c, expire_all-IsYoung now at cs)

  is_alive-IsTimely :
      (now at : ℕ) (c : Connection Context)
      → is_alive c ≡ true
      → IsYoung now at c
      → IsTimely now at c
  unfolding is_alive
  is_alive-IsTimely now at c alive young = ground arith

  get_alive_connections-IsTimely :
      (now at : ℕ) (cs : List (Connection Context))
      → All (IsYoung now at) cs
      → All (IsTimely now at) (get_alive_connections cs)
  unfolding get_alive_connections
  get_alive_connections-IsTimely now at [] h = tt
  get_alive_connections-IsTimely now at (c ∷ cs) (y, h) = elim (Bool-cases (is_alive c)) [
    | inl kept ↦
        rw kept (is_alive-IsTimely now at c kept y, get_alive_connections-IsTimely now at cs h)
    | inr dropped ↦ rw dropped (get_alive_connections-IsTimely now at cs h)
  ]

module _ {ℓ} {Context State : Type ℓ} (h : Handlers Context State) (k : IsContract h) where
  serve_all-IsYoung :
      (now at : ℕ) (revents : ℕ → Revents) (network : ℕ → Network) (i : ℕ)
      (cs : List (Connection Context)) (s : State)
      → All (IsYoung now at) cs
      → All (IsYoung now at) (serve_all h revents network i cs s).0
  unfolding serve_all
  serve_all-IsYoung now at revents network i [] s young = tt
  serve_all-IsYoung now at revents network i (c ∷ cs) s (y, young) = (
    IsTame-IsYoung now at c (serve h (revents i) (network i) c s).0
        (serve-IsTame h k (revents i) (network i) c s) y,
    serve_all-IsYoung now at revents network (suc i) cs (serve h (revents i) (network i) c s).1
        young,
  )

  accept_new_connection-IsYoung :
      (now : ℕ) (a : Accepted) (cs : List (Connection Context)) (s : State)
      → All (IsYoung now a.now) cs
      → All (IsYoung now a.now) (accept_new_connection h a (cs, s)).0
  unfolding accept_new_connection
  accept_new_connection-IsYoung now a cs s young =
      elim (Bool-cases (is_alive (new_connection h.new_context a))) [
        | inl there ↦ rw there (
            All-append (IsYoung now a.now) cs
              ((h.on_connect (new_connection h.new_context a) s).0 ∷ []) young
              (inr (inr (k.connects (new_connection h.new_context a) s).same_time), tt))
        | inr missing ↦ rw missing young
      ]

  -- With virtual methods that keep the descriptor and the time of a connection, and leave a closed
  -- one closed: after every round, each connection that TCPServer keeps is open and was made at
  -- most ten seconds before the round or in it, or it is closed and has data to send.
  pub process-IsTimely :
      (t : Tick) (cs : List (Connection Context)) (s : State)
      → All (IsTimely t.current_time t.accept.now) (process h t cs s).connections
  unfolding process
  process-IsTimely t cs s = by_events (t.poll (pollfds cs))
    where
      young : All (IsYoung t.current_time t.accept.now) (expire_all t.current_time cs)
      young = expire_all-IsYoung t.current_time t.accept.now cs

      by_events :
          (p : Polled)
          → All
              (IsTimely t.current_time t.accept.now)
              (polled h t (expire_all t.current_time cs) s p).connections
      by_events failed = get_alive_connections-IsTimely _ _ _ young
      by_events timed_out = get_alive_connections-IsTimely _ _ _ young
      by_events (ready true revents) = get_alive_connections-IsTimely _ _ _ (
          accept_new_connection-IsYoung t.current_time t.accept _ _
            (serve_all-IsYoung _ _ revents t.network 0 _ s young))
      by_events (ready false revents) =
          get_alive_connections-IsTimely _ _ _ (serve_all-IsYoung _ _ revents t.network 0 _ s young)
