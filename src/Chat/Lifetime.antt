-- ===== src/Chat/Lifetime.antt =====
-- p2: the constructors and destructors of `Server` (p2/Server.cpp) and `Client` (p2/Client.cpp).
use sphere_multithreading_cp.Prelude.{List, Option, if◌then◌else◌, none, some, ℕ, ◌==◌}
use sphere_multithreading_cp.Kernel.{
  ◌>>=◌, ◌>>◌, Prog, pure, throw, system_error, socket, connect, errno, shutdown, close, ask, run,
  checked, or_zero, set_nonblock, open_server, close_server, drop_clients,
}

pub new_server : ℕ → Prog (ℕ × ℕ)
new_server port = open_server port

pub delete_server : List ℕ → ℕ × ℕ → Prog (Unit {0})
delete_server slave_sockets m = drop_clients m slave_sockets >> close_server m

-- `EINPROGRESS`
abbrev einprogress : ℕ
einprogress = 115

pub check_connected : Option ℕ → Prog (Unit {0})
check_connected (some n) = pure tt
check_connected none = do
  e ← ask errno
  if or_zero e == einprogress then pure tt else throw system_error

-- `server_fd`
pub new_client : ℕ → Prog ℕ
new_client port = do
  server_fd ← checked system_error socket
  r ← ask (connect server_fd port)
  check_connected r
  set_nonblock server_fd
  set_nonblock 0
  pure server_fd

pub delete_client : ℕ → Prog (Unit {0})
delete_client server_fd = do run (shutdown server_fd); run (close server_fd)
