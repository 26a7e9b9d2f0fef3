-- ===== src/Proxy.antt =====
-- p3: the proxy. `Config` reads the file of ports and servers, `Listener` takes the clients of each
-- port, and `Connection` relays the bytes of a client and its server.
pub mod Config
pub mod Connection
pub mod Listener
