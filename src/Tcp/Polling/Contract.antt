-- ===== src/Tcp/Polling/Contract.antt =====
-- What the TCP layer relies on in a class derived from TCPServer.
use deals_server.Prelude.{
  ℕ, ◌≡◌, refl, ◌∙◌, inl, inr, false, [], ◌∷◌, Option, none, some, ◌==◌, Text, arith, Bool-cases,
}
use deals_server.Tcp.Connection.{
  Connection, Network, network_read, network_write, read_count, received,
}
use deals_server.Tcp.Polling.{Handlers, Revents, expire, serve, read_step, write_step}

-- A method may write to a connection and close it, and change its context; it does not open it again.
pub record IsTame {ℓ} {Context : Type ℓ} (c c' : Connection Context) : Type ℓ where
  pub same_socket : c'.sockfd ≡ c.sockfd
  pub same_time : c'.created_time ≡ c.created_time
  pub stays_closed : c.connection_alive ≡ false → c'.connection_alive ≡ false

pub record IsContract {ℓ} {Context State : Type ℓ} (h : Handlers Context State) : Type ℓ where
  pub connects : (c : Connection Context) (s : State) → IsTame c (h.on_connect c s).0
  pub handles : (c : Connection Context) (s : State) → IsTame c (h.on_data c s).0

module _ {ℓ} {Context : Type ℓ} where
  pub IsTame-refl : (c : Connection Context) → IsTame c c
  IsTame-refl c = record { same_socket = refl; same_time = refl; stays_closed = λ h. h }

  pub IsTame-trans : {a b c : Connection Context} → IsTame a b → IsTame b c → IsTame a c
  IsTame-trans h k = record {
    same_socket = k.same_socket ∙ h.same_socket;
    same_time = k.same_time ∙ h.same_time;
    stays_closed = λ e. k.stays_closed (h.stays_closed e);
  }

  received-IsTame :
      (now : ℕ) (c : Connection Context) (o : Option Text) → IsTame c (received now c o)
  received-IsTame now c none = ground arith
  received-IsTame now c (some []) = ground arith
  received-IsTame now c (some (b ∷ bytes)) = ground arith

  network_read-IsTame : (n : Network) (c : Connection Context) → IsTame c (network_read n c)
  unfolding network_read
  network_read-IsTame n c = counted c n.ioctl
    where
      counted : (c : Connection Context) (o : Option ℕ) → IsTame c (read_count n c o)
      counted c none = ground arith
      counted c (some count) = elim (Bool-cases (count == 0)) [
        | inl empty ↦ rw empty (ground arith)
        | inr some_bytes ↦ rw some_bytes (received-IsTame n.now c n.recv)
      ]

  pub network_write-IsTame : (n : Network) (c : Connection Context) → IsTame c (network_write n c).1
  unfolding network_write
  network_write-IsTame n c = ground arith

  pub expire-IsTame : (now : ℕ) (c : Connection Context) → IsTame c (expire now c)
  unfolding expire
  expire-IsTame now c = ground arith

module _ {ℓ} {Context State : Type ℓ} (h : Handlers Context State) (k : IsContract h) where
  read_step-IsTame :
      (r : Revents) (n : Network) (c : Connection Context) (s : State)
      → IsTame c (read_step h r n c s).0
  read_step-IsTame r n c s = elim (Bool-cases r.pollin) [
    | inl readable ↦
        rw readable (IsTame-trans (network_read-IsTame n c) (k.handles (network_read n c) s))
    | inr quiet ↦ rw quiet (IsTame-refl c)
  ]

  write_step-IsTame :
      (r : Revents) (n : Network) (c : Connection Context) (s : State)
      → IsTame c (write_step h r n (c, s)).0
  write_step-IsTame r n c s = elim (Bool-cases r.pollout) [
    | inl writable ↦ rw writable (network_write-IsTame n c)
    | inr busy ↦ rw busy (IsTame-refl c)
  ]

  pub serve-IsTame :
      (r : Revents) (n : Network) (c : Connection Context) (s : State)
      → IsTame c (serve h r n c s).0
  unfolding serve
  serve-IsTame r n c s = elim (Bool-cases r.pollhup) [
    | inl gone ↦ rw gone (record { same_socket = refl; same_time = refl; stays_closed = λ e. refl })
    | inr there ↦ rw there (
        IsTame-trans (read_step-IsTame r n c s)
          (write_step-IsTame r n (read_step h r n c s).0 (read_step h r n c s).1))
  ]
