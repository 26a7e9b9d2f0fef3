-- ===== src/Posix/Server.antt =====
-- p6: `Server` (p6/Server.cpp), which accepts connections and passes each on to a worker.
pub mod Passes
mod Tests
use sphere_multithreading_cp.Prelude.{
  List, Option, [], get_elem?, if◌then◌else◌, none, some, suc, zero, ℕ, ◌%◌, ◌==◌, ◌∷◌,
}
use sphere_multithreading_cp.Kernel.{
  ◌>>=◌, ◌>>◌, Prog, pure, throw, system_error, undefined, accept, rand, close, ask, run, or_zero,
  set_nonblock, open_server, close_server,
}
use sphere_multithreading_cp.Posix.Routine.{sock_fd_write}

abbrev pub num_workers : ℕ
num_workers = 4

pub record Server : Type 0 where
  pub master_socket : ℕ
  pub master_fd : ℕ
  pub fd_passing_writers : List ℕ

pub new_server : ℕ → List ℕ → Prog Server
new_server port fd_passing = do
  m ← open_server port
  pure (record { master_socket = m.0; master_fd = m.1; fd_passing_writers = fd_passing })

-- The message "1" with the socket, to the writer at an index of the array.
unfoldable pub pass_on : ℕ → Option ℕ → Prog (Unit {0})
pass_on slave_socket none = throw undefined
pass_on slave_socket (some writer) = do
  _ ← sock_fd_write writer (b'1' ∷ []) (some slave_socket)
  pure tt

unfoldable pub take_slave : Server → Option ℕ → Prog (Unit {0})
take_slave s none = pure tt
take_slave s (some zero) = pure tt
take_slave s (some (suc n)) = do
  set_nonblock (suc n)
  r ← ask rand
  pass_on (suc n) (get_elem? s.fd_passing_writers (or_zero r % num_workers))

unfoldable pub process_master_event : Server → Prog (Unit {0})
process_master_event s = do slave_socket ← ask (accept s.master_socket); take_slave s slave_socket

-- The events of one round, by their descriptors.
unfoldable pub process_events : List ℕ → Server → Prog (Unit {0})
process_events [] s = pure tt
process_events (fd ∷ es) s = do
  if fd == s.master_socket then process_master_event s else pure tt
  process_events es s

-- `start`, along what `epoll_wait` gives; `none` is -1.
pub start : List (Option (List ℕ)) → Server → Prog (Unit {0})
start [] s = pure tt
start (none ∷ rounds) s = throw system_error
start (some es ∷ rounds) s = do process_events es s; start rounds s

unfoldable pub close_all : List ℕ → Prog (Unit {0})
close_all [] = pure tt
close_all (fd ∷ fds) = do run (close fd); close_all fds

unfoldable pub delete_server : Server → Prog (Unit {0})
delete_server s = do close_server (s.master_socket, s.master_fd); close_all s.fd_passing_writers
