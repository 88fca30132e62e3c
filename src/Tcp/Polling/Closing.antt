-- ===== src/Tcp/Polling/Closing.antt =====
-- When TCPServer lets a connection go.
use deals_server.Prelude.{
  ℕ, suc, ◌^◌, ◌<◌, ◌≤◌, ◌≡◌, refl, sym, ap, ◌∙◌, ◌⊎◌, inl, inr, Bool, true, false, List, [], ◌∷◌,
  ◌++◌, length, arith, Bool-cases, All, append_assoc, append-nil,
}
use mathlib.Core.Path.{subst}
use deals_server.Utils.Calendar.{sub_u32}
use deals_server.Tcp.Connection.{
  Connection, Network, Accepted, is_alive, network_write, new_connection,
}
use deals_server.Tcp.Polling.{
  Handlers, Revents, Tick, ready, expire, expire_all, serve, serve_all, sockets, pollfds,
  get_alive_connections, deleted_sockets, accept_new_connection, process, polled, opened, update,
  Processed, write_step, read_step,
}
use deals_server.Tcp.Polling.Contract.{
  IsContract, serve-IsTame, expire-IsTame, network_write-IsTame,
}
use deals_server.Tcp.Connection.Sending.{network_write-IsSent}

module _ {ℓ} {Context : Type ℓ} where
  -- The connection is closed, or its time has run out.
  abbrev pub IsLeaving : ℕ → Connection Context → Type 0
  IsLeaving now c =
      (c.connection_alive ≡ false)
      ⊎ ((10 < sub_u32 now c.created_time) ⊎ (2 < sub_u32 now c.last_beat_time))

  -- The other side is gone, or sends nothing and takes data where there is some.
  abbrev pub IsFlushed : Revents → Connection Context → Type 0
  IsFlushed r c =
      (r.pollhup ≡ true)
      ⊎ ((r.pollin ≡ false)
          × ((c.data_out ≡ []) ⊎ ((r.pollout ≡ true) × (length c.data_out < 2 ^ 32))))

  abbrev pub Flushing : (ℕ → Revents) → ℕ → List (Connection Context) → Type 0
  Flushing revents i [] = Unit {0}
  Flushing revents i (c ∷ cs) = IsFlushed (revents i) c × Flushing revents (suc i) cs

  expire-closed :
      (now : ℕ) (c : Connection Context)
      → IsLeaving now c
      → ((expire now c).connection_alive ≡ false) × ((expire now c).data_out ≡ c.data_out)
  unfolding expire
  expire-closed now c leaving = ground arith

  dead :
      (c : Connection Context) → c.connection_alive ≡ false → c.data_out ≡ [] → is_alive c ≡ false
  unfolding is_alive
  dead c closed empty = rw (empty, closed)

  -- What is written leaves nothing behind.
  written_dead :
      (n : Network) (c : Connection Context)
      → c.connection_alive ≡ false
      → length c.data_out < 2 ^ 32
      → is_alive (network_write n c).1 ≡ false
  written_dead n c closed short =
      dead (network_write n c).1 ((network_write-IsTame n c).stays_closed closed)
        (network_write-IsSent n c short).0

  empty_short : (c : Connection Context) → c.data_out ≡ [] → length c.data_out < 2 ^ 32
  empty_short c empty = rw empty (omega arith)

  -- Connections that are dead are deleted, and their descriptors closed.
  abbrev IsDead : Connection Context → Type 0
  IsDead c = is_alive c ≡ false

  get_alive_connections-append :
      (cs ds : List (Connection Context))
      → All IsDead cs
      → (get_alive_connections (cs ++ ds) ≡ get_alive_connections ds)
        × (deleted_sockets (cs ++ ds) ≡ sockets cs ++ deleted_sockets ds)
  unfolding get_alive_connections deleted_sockets sockets
  get_alive_connections-append [] ds h = (refl, refl)
  get_alive_connections-append (c ∷ cs) ds (d, h) =
      let (kept, closed) = get_alive_connections-append cs ds h in
      rw d (
        kept,
        ap (λ l. opened c.sockfd ++ l) closed
            ∙ sym (append_assoc (opened c.sockfd) (sockets cs) (deleted_sockets ds)),
      )

module _ {ℓ} {Context State : Type ℓ} (h : Handlers Context State) where
  write_step_dead :
      (r : Revents) (n : Network) (c : Connection Context) (s : State)
      → c.connection_alive ≡ false
      → (c.data_out ≡ []) ⊎ ((r.pollout ≡ true) × (length c.data_out < 2 ^ 32))
      → is_alive (write_step h r n (c, s)).0 ≡ false
  write_step_dead r n c s closed flushed = elim (Bool-cases r.pollout) [
    | inl writable ↦ rw writable (written_dead n c closed (short flushed))
    | inr busy ↦ rw busy (empty flushed busy)
  ]
    where
      short :
          (c.data_out ≡ []) ⊎ ((r.pollout ≡ true) × (length c.data_out < 2 ^ 32))
          → length c.data_out < 2 ^ 32
      short (inl none_waits) = empty_short c none_waits
      short (inr (w, le)) = le

      empty :
          (c.data_out ≡ []) ⊎ ((r.pollout ≡ true) × (length c.data_out < 2 ^ 32))
          → r.pollout ≡ false
          → is_alive c ≡ false
      empty (inl none_waits) b = dead c closed none_waits
      empty (inr (w, le)) b = cc

  serve_dead :
      (r : Revents) (n : Network) (c : Connection Context) (s : State)
      → c.connection_alive ≡ false
      → IsFlushed r c
      → is_alive (serve h r n c s).0 ≡ false
  unfolding serve
  serve_dead r n c s closed flushed = elim (Bool-cases r.pollhup) [
    | inl gone ↦ rw gone (dead _ refl refl)
    | inr there ↦ rw there (quietly flushed there)
  ]
    where
      quietly :
          IsFlushed r c
          → r.pollhup ≡ false
          → is_alive (write_step h r n (read_step h r n c s)).0 ≡ false
      quietly (inl gone) there = cc
      quietly (inr (quiet, flushed)) there = rw quiet (write_step_dead r n c s closed flushed)

  module _ (k : IsContract h) where
    serve_all-IsDead :
        (revents : ℕ → Revents) (network : ℕ → Network) (i now : ℕ) (cs : List (Connection Context))
        (s : State)
        → All (IsLeaving now) cs
        → Flushing revents i cs
        → All IsDead (serve_all h revents network i (expire_all now cs) s).0
          × (sockets (serve_all h revents network i (expire_all now cs) s).0 ≡ sockets cs)
    unfolding serve_all expire_all sockets
    serve_all-IsDead revents network i now [] s leaving flushed = (tt, refl)
    serve_all-IsDead revents network i now (c ∷ cs) s (l, leaving) (f, flushed) =
        let (closed, same) = expire-closed now c l in
        let (c', s') = serve h (revents i) (network i) (expire now c) s in
        let (d, kept) = serve_all-IsDead revents network (suc i) now cs s' leaving flushed in
        (
          (serve_dead (revents i) (network i) (expire now c) s closed (still (revents i) c l f), d),
          cc (
            ap opened (
                (serve-IsTame h k (revents i) (network i) (expire now c) s).same_socket
                ∙ (expire-IsTame now c).same_socket),
            kept,
          ),
        )
      where
        still :
            (r : Revents) (c : Connection Context)
            → IsLeaving now c
            → IsFlushed r c
            → IsFlushed r (expire now c)
        still r c l f = rw (expire-closed now c l).1 f

    -- What a round leaves behind the dead connections: at most the new one.
    abbrev pub IsLeft : Bool → ℕ → List (Connection Context) → Processed Context State → Type ℓ
    IsLeft main at cs p =
        ((main ≡ true) ⊎ (p.connections ≡ []))
        × (length p.connections ≤ 1)
        × All (λ c. c.created_time ≡ at) p.connections
        × ((rest : List ℕ) × (p.closed_sockets ≡ sockets cs ++ rest))

    update-IsLeft :
        (main : Bool) (at : ℕ) (cs before ds : List (Connection Context)) (s : State)
        → All IsDead cs
        → sockets cs ≡ sockets before
        → length (get_alive_connections ds) ≤ 1
        → All (λ c. c.created_time ≡ at) (get_alive_connections ds)
        → (main ≡ true) ⊎ (get_alive_connections ds ≡ [])
        → IsLeft main at before (update h (cs ++ ds, s))
    update-IsLeft main at cs before ds s gone same few new unless =
        let (kept, closed) = get_alive_connections-append cs ds gone in
        (
          rw kept unless,
          rw kept few,
          rw kept new,
          (deleted_sockets ds, closed ∙ ap (λ l. l ++ deleted_sockets ds) same),
        )

    one_left :
        (at : ℕ) (c : Connection Context)
        → c.created_time ≡ at
        → (length (get_alive_connections (c ∷ [])) ≤ 1)
          × All (λ c. c.created_time ≡ at) (get_alive_connections (c ∷ []))
    unfolding get_alive_connections
    one_left at c new = elim (Bool-cases (is_alive c)) [
      | inl there ↦ rw there (omega arith, (new, tt))
      | inr gone ↦ rw gone (omega arith, tt)
    ]

    nothing_stays :
        (main : Bool) (at : ℕ) (cs before : List (Connection Context)) (s : State)
        → All IsDead cs
        → sockets cs ≡ sockets before
        → IsLeft main at before (update h (cs, s))
    unfolding get_alive_connections
    nothing_stays main at cs before s dead same =
        subst (λ l. IsLeft main at before (update h (l, s))) (append-nil cs)
          (update-IsLeft main at cs before [] s dead same (omega arith) tt (inr refl))

    accept_new_connection-IsLeft :
        (a : Accepted) (cs before : List (Connection Context)) (s : State)
        → All IsDead cs
        → sockets cs ≡ sockets before
        → IsLeft true a.now before (update h (accept_new_connection h a (cs, s)))
    unfolding accept_new_connection
    accept_new_connection-IsLeft a cs before s dead same =
        let c = new_connection h.new_context a in
        let (few, new) = one_left a.now (h.on_connect c s).0 (k.connects c s).same_time in
        elim (Bool-cases (is_alive c)) [
          | inl there ↦ rw there (
              update-IsLeft true a.now cs before ((h.on_connect c s).0 ∷ []) (h.on_connect c s).1
                dead same few new (inl refl))
          | inr missing ↦ rw missing (nothing_stays true a.now cs before s dead same)
        ]

    -- In a round where every connection is closed or out of time, and the other side of each is gone,
    -- or sends nothing and takes fewer than 2^32 bytes where there are some, all the connections go:
    -- their descriptors are closed, and at most one connection is left, accepted in this round, or none
    -- where nobody connects.
    pub process-IsLeft :
        (t : Tick) (cs : List (Connection Context)) (s : State) (main : Bool)
        (revents : ℕ → Revents)
        → t.poll (pollfds cs) ≡ ready main revents
        → All (IsLeaving t.current_time) cs
        → Flushing revents 0 cs
        → IsLeft main t.accept.now cs (process h t cs s)
    unfolding process
    process-IsLeft t cs s main revents e leaving flushed =
        subst (λ p. IsLeft main t.accept.now cs (polled h t (expire_all t.current_time cs) s p))
          (sym e) (by_main main)
      where
        served : List (Connection Context) × State
        served = serve_all h revents t.network 0 (expire_all t.current_time cs) s

        gone : All IsDead served.0 × (sockets served.0 ≡ sockets cs)
        gone = serve_all-IsDead revents t.network 0 t.current_time cs s leaving flushed

        by_main :
            (main : Bool)
            → IsLeft main t.accept.now cs
                (polled h t (expire_all t.current_time cs) s (ready main revents))
        by_main true = accept_new_connection-IsLeft t.accept served.0 cs served.1 gone.0 gone.1
        by_main false = nothing_stays false t.accept.now served.0 cs served.1 gone.0 gone.1
