-- ===== src/Sysv/Protocol/Lifetime.antt =====
-- p5: what `Server` (p5/Server.cpp) opens for its clients and closes again.
use sphere_multithreading_cp.Prelude.{List, ℕ}
use sphere_multithreading_cp.Kernel.{◌>>◌, Prog, open_server, close_server, drop_clients}

pub init_client_resources : ℕ → Prog (ℕ × ℕ)
init_client_resources port = open_server port

pub free_client_resources : List ℕ → ℕ × ℕ → Prog (Unit {0})
free_client_resources slave_sockets m = drop_clients m slave_sockets >> close_server m
