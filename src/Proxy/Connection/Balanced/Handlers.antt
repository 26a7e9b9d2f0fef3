-- ===== src/Proxy/Connection/Balanced/Handlers.antt =====
-- Each handler keeps the operations of a connection balanced.
use mathlib.Core.Option.{some-injective}
use sphere_multithreading_cp.Prelude.{
  List, ap, inl, inr, length, none, refl, some, ℕ, ◌++◌, ◌<◌, ◌∷◌, ◌≡◌, ◌≤◌,
}
use sphere_multithreading_cp.Shell.{Text}
use sphere_multithreading_cp.Proxy.Connection.{
  buf_size, Op, connect, read_server, read_client, write_server, write_client, Connection, bytes,
  fill, handle_connect_server, handle_read_from_server, handle_write_to_server,
  handle_read_from_client, handle_write_to_client, Takes,
}
use sphere_multithreading_cp.Proxy.Connection.Balanced.{
  bytes-fill, Passed, Balanced, relaying, connection, to_client, to_server, Takes-Left, positive,
}

-- Each completion without an error keeps the connection balanced.
module _ {r : Passed} (c : Connection) (b : Balanced r c) (os : List Op) where
  pub connected-Balanced :
      (c' : Connection)
      → Takes connect c.pending os
      → handle_connect_server none (record c { pending = os }) ≡ some c'
      → Balanced r c'
  unfolding handle_connect_server
  connected-Balanced c' t h =
      let p = some-injective _ _ h in
      rw (← p) (elim (Takes-Left b t) [
        | connection _ e s1 s2 ↦
            relaying read_server read_client (inl (ap (λ l. read_server ∷ read_client ∷ l) e)) s1 s2
        | to_client y e f g ↦ absurd f
        | to_server x e f g ↦ absurd g
      ])

  pub got_server-Balanced :
      (s : Text) (c' : Connection)
      → Takes read_server c.pending os
      → 0 < length s
      → length s ≤ buf_size
      → handle_read_from_server none (length s) (record c {
        pending = os;
        server_buffer = fill 0 s c.server_buffer;
        from_server = c.from_server ++ s;
      })
        ≡ some c'
      → Balanced r c'
  unfolding handle_read_from_server
  got_server-Balanced s c' t low high h =
      let p = some-injective _ _ (rw (handle_read_from_server, positive s low) at h) in
      rw (← p) (elim (Takes-Left b t) [
        | connection e _ _ _ ↦ cc
        | to_client y e f g ↦
            relaying (write_client (length s)) y (inl (ap (◌∷◌ (write_client (length s))) e))
              (c.from_server, rw (bytes-fill 0 s c.server_buffer) refl, f, high) g
        | to_server x e f g ↦ absurd g
      ])

  pub got_client-Balanced :
      (s : Text) (c' : Connection)
      → Takes read_client c.pending os
      → 0 < length s
      → length s ≤ buf_size
      → handle_read_from_client none (length s) (record c {
        pending = os;
        client_buffer = fill 0 s c.client_buffer;
        from_client = c.from_client ++ s;
      })
        ≡ some c'
      → Balanced r c'
  unfolding handle_read_from_client
  got_client-Balanced s c' t low high h =
      let p = some-injective _ _ (rw (handle_read_from_client, positive s low) at h) in
      rw (← p) (elim (Takes-Left b t) [
        | connection e _ _ _ ↦ cc
        | to_client y e f g ↦ absurd f
        | to_server x e f g ↦
            relaying x (write_server (length s)) (inr (ap (◌∷◌ (write_server (length s))) e)) f
              (c.from_client, rw (bytes-fill 0 s c.client_buffer) refl, g, high)
      ])

  pub sent_client-Balanced :
      (m n : ℕ) (c' : Connection)
      → ((from to : Text)
          → r from to
          → r (from ++ bytes n c.server_buffer) (to ++ bytes m c.server_buffer))
      → Takes (write_client n) c.pending os
      → handle_write_to_client none
          (record c { pending = os; to_client = c.to_client ++ bytes m c.server_buffer })
        ≡ some c'
      → Balanced r c'
  unfolding handle_write_to_client
  sent_client-Balanced m n c' push t h =
      let p = some-injective _ _ h in
      rw (← p) (elim (Takes-Left b t) [
        | connection e _ _ _ ↦ cc
        | to_client y e f g ↦
            relaying read_server y (inl (ap (◌∷◌ read_server) e))
              (rw f.1 (push f.0 c.to_client f.2)) g
        | to_server x e f g ↦ absurd g
      ])

  pub sent_server-Balanced :
      (m n : ℕ) (c' : Connection)
      → ((from to : Text)
          → r from to
          → r (from ++ bytes n c.client_buffer) (to ++ bytes m c.client_buffer))
      → Takes (write_server n) c.pending os
      → handle_write_to_server none
          (record c { pending = os; to_server = c.to_server ++ bytes m c.client_buffer })
        ≡ some c'
      → Balanced r c'
  unfolding handle_write_to_server
  sent_server-Balanced m n c' push t h =
      let p = some-injective _ _ h in
      rw (← p) (elim (Takes-Left b t) [
        | connection e _ _ _ ↦ cc
        | to_client y e f g ↦ absurd f
        | to_server x e f g ↦
            relaying x read_client (inr (ap (◌∷◌ read_client) e)) f
              (rw g.1 (push g.0 c.to_server g.2))
      ])
