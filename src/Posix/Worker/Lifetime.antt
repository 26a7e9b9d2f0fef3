-- ===== src/Posix/Worker/Lifetime.antt =====
-- p6: the constructor and the destructor of `Worker` (p6/Worker.cpp).
use sphere_multithreading_cp.Prelude.{List, Option, if◌then◌else◌, none, some, ℕ, ◌==◌}
use sphere_multithreading_cp.Kernel.{
  ◌>>=◌, ◌>>◌, Prog, pure, throw, system_error, no_events, epoll_create, epoll_add, epoll_del,
  calloc, free, close, ask, run, checked, drop_clients,
}

-- `epoll_ctl(...) == 50`, which -1 is not.
pub check_added : Option ℕ → Prog (Unit {0})
check_added none = pure tt
check_added (some r) = if r == 50 then throw system_error else pure tt

-- `master_fd`
pub new_worker : ℕ → Prog ℕ
new_worker fd_passing = do
  master_fd ← checked system_error epoll_create
  r ← ask (epoll_add master_fd fd_passing)
  check_added r
  _ ← checked no_events calloc
  pure master_fd

pub delete_worker : (slave_sockets : List ℕ) (fd_passing_reader master_fd : ℕ) → Prog (Unit {0})
delete_worker slave_sockets fd_passing_reader master_fd = do
  drop_clients (fd_passing_reader, master_fd) slave_sockets
  _ ← checked system_error (epoll_del master_fd fd_passing_reader)
  run free
  run (close master_fd)
  run (close fd_passing_reader)
