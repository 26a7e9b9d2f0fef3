-- ===== src/Proxy/Connection/Pieces.antt =====
-- What a connection gives of each piece that it takes, by what the system does of the sends.
use sphere_multithreading_cp.Prelude.{
  [], ap, append-nil, arith, length, refl, subst, suc, sym, take, true, zero, ℕ, ◌++◌, ◌∷◌, ◌≡◌,
  ◌≤◌,
}
use sphere_multithreading_cp.Shell.{Text}
use sphere_multithreading_cp.Proxy.Connection.{
  Op, connect, read_server, read_client, write_server, write_client, Connection, bytes_from, bytes,
  start, Reach, buf_size,
}
use sphere_multithreading_cp.Proxy.Connection.Active.{new_connection, active-Balanced}
use sphere_multithreading_cp.Proxy.Connection.Balanced.{
  UnderWay, ToClient, ToServer, Balanced, connecting, relaying,
}

take-bytes_from :
    (i m n : ℕ) (buf : ℕ → ℕ) → m ≤ n → take m (bytes_from i n buf) ≡ bytes_from i m buf
unfolding bytes_from
take-bytes_from i zero n buf l = refl
take-bytes_from i (suc m) zero buf l = absurd (omega arith)
take-bytes_from i (suc m) (suc n) buf l =
    ap (◌∷◌ (buf i)) (take-bytes_from (suc i) m n buf (omega arith))

length-bytes_from : (i n : ℕ) (buf : ℕ → ℕ) → length (bytes_from i n buf) ≡ n
unfolding bytes_from
length-bytes_from i zero buf = refl
length-bytes_from i (suc n) buf = omega (arith, length-bytes_from (suc i) n buf)

module _ (sends : ℕ → ℕ → Type 0) (part : (m n : ℕ) → sends m n → m ≤ n) where
  -- `from` came in pieces, and of each piece `to` has as much of its beginning as the system sent.
  pub data Pieces : (from to : Text) → Type 0 where
    none_yet : Pieces [] []
    piece :
        (f t p : Text) (m : ℕ) → Pieces f t → sends m (length p) → Pieces (f ++ p) (t ++ take m p)

  -- Behind the pieces stands one at most that is still on its way.
  abbrev pub Relayed : Text → Text → Type 0
  Relayed from to =
      (before rest : Text) × (from ≡ before ++ rest) × Pieces before to × (length rest ≤ buf_size)

  Pieces-bytes :
      (from to : Text) (buf : ℕ → ℕ) (m n : ℕ)
      → sends m n
      → Pieces from to
      → Pieces (from ++ bytes n buf) (to ++ bytes m buf)
  Pieces-bytes from to buf m n s h =
      subst (λ l. Pieces (from ++ bytes n buf) (to ++ l)) (take-bytes_from 0 m n buf (part m n s))
        (piece from to (bytes n buf) m h (rw (length-bytes_from 0 n buf) s))

  Pieces-Relayed : (from to : Text) → Pieces from to → Relayed from to
  Pieces-Relayed from to h = (from, [], sym (append-nil from), h, omega arith)

  UnderWay-Relayed :
      (from to : Text) (buf : ℕ → ℕ) (n : ℕ) → UnderWay Pieces from to buf n → Relayed from to
  UnderWay-Relayed from to buf n h =
      (h.0, bytes n buf, h.1, h.2, rw (length-bytes_from 0 n buf) h.3)

  client_Relayed :
      (from to : Text) (buf : ℕ → ℕ) (x : Op) → ToClient Pieces from to buf x → Relayed from to
  client_Relayed from to buf read_server h = Pieces-Relayed from to h
  client_Relayed from to buf (write_client n) h = UnderWay-Relayed from to buf n h
  client_Relayed from to buf connect h = absurd h
  client_Relayed from to buf read_client h = absurd h
  client_Relayed from to buf (write_server n) h = absurd h

  server_Relayed :
      (from to : Text) (buf : ℕ → ℕ) (y : Op) → ToServer Pieces from to buf y → Relayed from to
  server_Relayed from to buf read_client h = Pieces-Relayed from to h
  server_Relayed from to buf (write_server n) h = UnderWay-Relayed from to buf n h
  server_Relayed from to buf connect h = absurd h
  server_Relayed from to buf read_server h = absurd h
  server_Relayed from to buf (write_client n) h = absurd h

  Balanced-Relayed :
      (c : Connection)
      → Balanced Pieces c
      → Relayed c.from_server c.to_client × Relayed c.from_client c.to_server
  Balanced-Relayed c (connecting e s1 s2) =
      (Pieces-Relayed c.from_server c.to_client s1, Pieces-Relayed c.from_client c.to_server s2)
  Balanced-Relayed c (relaying x y e f g) = (
    client_Relayed c.from_server c.to_client c.server_buffer x f,
    server_Relayed c.from_client c.to_server c.client_buffer y g,
  )

  -- While a connection is active, what each peer has sent falls into pieces, of each of which the other
  -- was sent the beginning, as much as the system sent of it and once, in order; and a rest that fits
  -- into one buffer and is still on its way. A send may end after any part.
  pub relay-pieces :
      (s b : ℕ → ℕ) {c : Connection}
      → Reach sends (start (new_connection s b)) c
      → c.is_active ≡ true
      → Relayed c.from_server c.to_client × Relayed c.from_client c.to_server
  relay-pieces s b {c} r a =
      Balanced-Relayed c (active-Balanced Pieces none_yet sends Pieces-bytes s b r a)
