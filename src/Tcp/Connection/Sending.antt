-- ===== src/Tcp/Connection/Sending.antt =====
-- What network_write does with the bytes that wait in a connection.
use deals_server.Prelude.{
  ℕ, zero, suc, ◌%◌, ◌^◌, ◌<◌, ◌≤◌, ◌≡◌, refl, sym, ap, ◌⊎◌, inl, inr, false, List, [], ◌∷◌, Option,
  none, some, ◌==◌, length, Text, take, arith, Bool-cases, nil_of_length, leb,
}
use deals_server.Tcp.Connection.{Connection, Network, network_write, sent}

take_all {ℓ} : {A : Type ℓ} (xs : List A) (n : ℕ) → length xs ≤ n → take n xs ≡ xs
take_all [] zero h = refl
take_all [] (suc n) h = refl
take_all (x ∷ xs) zero h = absurd (omega arith)
take_all (x ∷ xs) (suc n) h = ap (λ t. x ∷ t) (take_all xs n (omega arith))

module _ {ℓ} {Context : Type ℓ} where
  -- What comes of the data that waited: all of it leaves, or none and the connection is closed, or
  -- only its first bytes.
  abbrev pub IsSent : Connection Context → Text × Connection Context → Type 0
  IsSent c (out, c') =
      (c'.data_out ≡ [])
      × (((out ≡ c.data_out) × (c'.connection_alive ≡ c.connection_alive))
          ⊎ ((out ≡ []) × (c'.connection_alive ≡ false))
          ⊎ ((n : ℕ) × (0 < n)
              × (n < length c.data_out)
              × (out ≡ take n c.data_out)
              × (c'.connection_alive ≡ c.connection_alive)))

  sent-IsSent : (c : Connection Context) (o : Option ℕ) → IsSent c (sent c o)
  sent-IsSent c none = (refl, inr (inl (refl, refl)))
  sent-IsSent c (some zero) = (refl, inr (inl (refl, refl)))
  sent-IsSent c (some (suc n)) =
      let positive : (suc n == 0) ≡ false = ground arith in
      rw positive (elim (Bool-cases (leb (length c.data_out) (suc n))) [
        | inl whole ↦ (refl, inl (take_all c.data_out (suc n) (ground arith), refl))
        | inr part ↦ (refl, inr (inr (suc n, omega arith, ground arith, refl, refl)))
      ])

  -- For a connection with fewer than 2^32 bytes to send, nothing waits after network_write: the bytes
  -- have left, all of them, or the first of them where send took only these, and the connection is as
  -- alive as before; or none has left, and the connection is closed.
  pub network_write-IsSent :
      (n : Network) (c : Connection Context)
      → length c.data_out < 2 ^ 32
      → IsSent c (network_write n c)
  unfolding network_write
  network_write-IsSent n c h = elim (Bool-cases (length c.data_out % 2 ^ 32 == 0)) [
    | inl none_waits ↦
        let e : c.data_out ≡ [] = nil_of_length c.data_out (ground arith) in
        rw none_waits (e, inl (sym e, refl))
    | inr waits ↦ rw waits (sent-IsSent (record c { last_beat_time = n.now }) n.send)
  ]
