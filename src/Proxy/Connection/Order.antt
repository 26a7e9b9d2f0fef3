-- ===== src/Proxy/Connection/Order.antt =====
-- What holds of a connection whatever part of a send the system does.
use mathlib.Core.List.{Sublist, nil-sublist, sublist-append_left}
use mathlib.Core.List.Sublist
use sphere_multithreading_cp.Prelude.{[], arith, suc, true, zero, ℕ, ◌≡◌, ◌≤◌}
use sphere_multithreading_cp.Shell.{Text}
use sphere_multithreading_cp.Proxy.Connection.{
  Op, connect, read_server, read_client, write_server, write_client, Connection, bytes_from, bytes,
  start, Reach,
}
use sphere_multithreading_cp.Proxy.Connection.Active.{new_connection, active-Balanced}
use sphere_multithreading_cp.Proxy.Connection.Balanced.{
  Passed, UnderWay, ToClient, ToServer, Balanced, connecting, relaying,
}

-- What was given was taken, in this order.
abbrev Ordered : Passed
Ordered from to = Sublist to from

bytes_from-Sublist :
    (i m n : ℕ) (buf : ℕ → ℕ) → m ≤ n → Sublist (bytes_from i m buf) (bytes_from i n buf)
unfolding bytes_from
bytes_from-Sublist i zero n buf l = nil-sublist (bytes_from i n buf)
bytes_from-Sublist i (suc m) zero buf l = absurd (omega arith)
bytes_from-Sublist i (suc m) (suc n) buf l =
    Sublist.cons-cons (buf i) (bytes_from-Sublist (suc i) m n buf (omega arith))

UnderWay-Sublist :
    (from to : Text) (buf : ℕ → ℕ) (n : ℕ) → UnderWay Ordered from to buf n → Sublist to from
UnderWay-Sublist from to buf n h =
    rw h.1 (Sublist.trans h.2 (sublist-append_left h.0 (bytes n buf)))

client_Ordered :
    (from to : Text) (buf : ℕ → ℕ) (x : Op) → ToClient Ordered from to buf x → Sublist to from
client_Ordered from to buf read_server h = h
client_Ordered from to buf (write_client n) h = UnderWay-Sublist from to buf n h
client_Ordered from to buf connect h = absurd h
client_Ordered from to buf read_client h = absurd h
client_Ordered from to buf (write_server n) h = absurd h

server_Ordered :
    (from to : Text) (buf : ℕ → ℕ) (y : Op) → ToServer Ordered from to buf y → Sublist to from
server_Ordered from to buf read_client h = h
server_Ordered from to buf (write_server n) h = UnderWay-Sublist from to buf n h
server_Ordered from to buf connect h = absurd h
server_Ordered from to buf read_server h = absurd h
server_Ordered from to buf (write_client n) h = absurd h

Balanced-Sublist :
    (c : Connection)
    → Balanced Ordered c
    → Sublist c.to_client c.from_server × Sublist c.to_server c.from_client
Balanced-Sublist c (connecting e s1 s2) = (s1, s2)
Balanced-Sublist c (relaying x y e f g) = (
  client_Ordered c.from_server c.to_client c.server_buffer x f,
  server_Ordered c.from_client c.to_server c.client_buffer y g,
)

-- While a connection is active, each peer was sent a part of what the other has sent, in its order:
-- nothing is made up, taken twice or put before what came first. A send may end after any part of it.
pub relay-Sublist :
    (sends : ℕ → ℕ → Type 0)
    → ((m n : ℕ) → sends m n → m ≤ n)
    → (s b : ℕ → ℕ) {c : Connection} → Reach sends (start (new_connection s b)) c
    → c.is_active ≡ true
    → Sublist c.to_client c.from_server × Sublist c.to_server c.from_client
relay-Sublist sends part s b {c} r a = Balanced-Sublist c (
    active-Balanced Ordered (Sublist.refl []) sends
      (λ from to buf m n k h. Sublist.append h (bytes_from-Sublist 0 m n buf (part m n k))) s b r a)
