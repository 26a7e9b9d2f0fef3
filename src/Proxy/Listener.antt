-- ===== src/Proxy/Listener.antt =====
-- `Proxy` and `ProxyPortListener` of p3/proxy.h and p3/proxy.cpp: a listener for each port of the
-- configuration, which connects each client to one of the port's addresses.
use mathlib.Core.Option
use sphere_multithreading_cp.Prelude.{
  ==_refl, All, Distinct, List, Option, [], append-nil, append_assoc, arith, false, if◌then◌else◌,
  length, map, mem, none, ok, refl, some, suc, sym, zero, ℕ, ◌%◌, ◌++◌, ◌<◌, ◌==◌, ◌∙◌, ◌∷◌, ◌≡◌,
}
use sphere_multithreading_cp.Proxy.Config.{
  Addr, ParserConfigFile, add_port, no_ports, parse_config_file,
}
use sphere_multithreading_cp.Proxy.Config.Print.{config_of, IsEntry, print_config}
use sphere_multithreading_cp.Proxy.Config.RoundTrip.{parse_config_file-print}
use sphere_multithreading_cp.Proxy.Connection.{Connection, start}

-- `servers[i]`
pub server_at : List Addr → ℕ → Option Addr
server_at [] i = none
server_at (a ∷ servers) zero = some a
server_at (a ∷ servers) (suc i) = server_at servers i

-- The address and the connection that is started; `none` is a division by zero.
pub handle_accept : (rand : ℕ) → List Addr → Connection → Option (Addr × Connection)
handle_accept rand servers connection =
    if length servers == 0
    then none
    else Option.map (λ addr. (addr, start connection)) (server_at servers (rand % length servers))

-- The constructor of `Proxy`: each port with the servers of its listener.
pub listeners : ParserConfigFile → List (ℕ × List Addr)
listeners config = map (λ port. (port, config.config_map port)) config.ports

abbrev pub port_of : ℕ × List Addr → ℕ
port_of e = e.0

config_of-ports :
    (c : ParserConfigFile) (es : List (ℕ × List Addr))
    → (config_of c es).ports ≡ c.ports ++ map port_of es
unfolding config_of add_port
config_of-ports c [] = sym (append-nil c.ports)
config_of-ports c (e ∷ es) =
    config_of-ports (add_port e c) es ∙ append_assoc c.ports (e.0 ∷ []) (map port_of es)

-- A port that is not among the entries keeps its addresses.
config_of-other :
    (c : ParserConfigFile) (es : List (ℕ × List Addr)) (port : ℕ)
    → mem port (map port_of es) ≡ false
    → (config_of c es).config_map port ≡ c.config_map port
unfolding config_of add_port
config_of-other c [] port h = refl
config_of-other c (e ∷ es) port h =
    let other : (port == e.0) ≡ false = ground arith in
    config_of-other (add_port e c) es port (ground arith) ∙ rw other refl

listed :
    (c : ParserConfigFile) (es : List (ℕ × List Addr))
    → Distinct (map port_of es)
    → map (λ port. (port, (config_of c es).config_map port)) (map port_of es) ≡ es
unfolding config_of add_port
listed c [] d = refl
listed c ((port, addrs) ∷ es) d =
    rw
      (
        listed (add_port (port, addrs) c) es d.1,
        config_of-other (add_port (port, addrs) c) es port d.0,
        ==_refl port,
      )
      refl

-- A file with one line for each port is read, and the proxy listens on these ports, in their order,
-- each with the addresses of its line.
pub listeners-print :
    (es : List (ℕ × List Addr))
    → All IsEntry es
    → Distinct (map port_of es)
    → (c : ParserConfigFile) × (parse_config_file (print_config es) ≡ ok c) × (listeners c ≡ es)
unfolding listeners
listeners-print es h d = (
  config_of no_ports es,
  parse_config_file-print es h,
  rw (config_of-ports no_ports es) (listed no_ports es d),
)

server_at-some :
    (servers : List Addr) (i : ℕ) → i < length servers → (a : Addr) × (server_at servers i ≡ some a)
unfolding server_at
server_at-some [] i h = absurd (omega arith)
server_at-some (a ∷ servers) zero h = (a, refl)
server_at-some (a ∷ servers) (suc i) h = server_at-some servers i (omega arith)

-- A listener with some address connects each client to an address of its list, whatever the random
-- number is.
pub handle_accept-server_at :
    (rand : ℕ) (servers : List Addr) (connection : Connection)
    → 0 < length servers
    → (i : ℕ) × (a : Addr) × (i < length servers)
      × (server_at servers i ≡ some a)
      × (handle_accept rand servers connection ≡ some (a, start connection))
unfolding handle_accept
handle_accept-server_at rand servers connection h =
    let i = rand % length servers in
    let inside : i < length servers = ground arith in
    let some_server : (length servers == 0) ≡ false = ground arith in
    let (a, e) = server_at-some servers i inside in (i, a, inside, e, rw (some_server, e) refl)
