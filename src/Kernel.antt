-- ===== src/Kernel.antt =====
-- The calls that the servers make of the system, each with its answer, and the code that all of them
-- have: a socket that listens, watched by epoll, and its end (p2, p5 and p7: Server.cpp; p6: Server.cpp,
-- Worker.cpp and Routine.cpp). The answers are a parameter, whatever has been asked before.
pub mod Laws
use sphere_multithreading_cp.Prelude.{List, Option, Result, [], err, none, ok, some, ℕ, ◌∷◌}

-- `msg_control` of a message: what its header says, and the descriptor behind it.
pub data Level : Type 0 where
  sol_socket other_level : Level

pub data Kind : Type 0 where
  scm_rights other_kind : Kind

pub record Control : Type 0 where
  pub size : ℕ
  pub cmsg_level : Level
  pub cmsg_type : Kind
  pub payload : ℕ

pub record Packet : Type 0 where
  pub bytes : List ℕ
  pub msg_control : Option Control

pub data Call : Type 0 where
  socket epoll_create calloc free rand : Call
  errno : Call
  bind connect : (fd port : ℕ) → Call
  listen accept shutdown close get_flags : ℕ → Call
  -- `fcntl(fd, F_SETFL, flags | O_NONBLOCK)`
  set_nonblocking : (fd flags : ℕ) → Call
  epoll_add epoll_del : (epoll fd : ℕ) → Call
  shm_open shm_unlink munmap wait : Call
  ftruncate mmap sem_open sem_close sem_unlink : ℕ → Call
  kill : (pid signum : ℕ) → Call
  sendmsg : ℕ → Packet → Call

-- The calls so far with their answers, the last one first; `none` is -1 or NULL.
abbrev pub Trace : Type 0
Trace = List (Call × Option ℕ)

-- `std::system_error`, the text that is thrown where there is no memory, and what C++ leaves
-- undefined.
pub data Failure : Type 0 where
  system_error no_events undefined : Failure

-- A program that makes calls and goes on by their answers.
pub data Prog (A : Type 0) : Type 0 where
  pure : A → Prog A
  throw : Failure → Prog A
  call : Call → (Option ℕ → Prog A) → Prog A

infixl 5 ◌>>=◌ ◌>>◌
abbrev pub ◌>>=◌ : {A B : Type 0} → Prog A → (A → Prog B) → Prog B
pure a >>= f = f a
throw e >>= f = throw e
call c k >>= f = call c (λ o. k o >>= f)

abbrev pub ◌>>◌ : {B : Type 0} → Prog (Unit {0}) → Prog B → Prog B
m >> k = m >>= λ _. k

-- A run, where the system answers each call as it likes.
unfoldable pub exec :
    {A : Type 0} → (Trace → Call → Option ℕ) → Prog A → Trace → Result Failure A × Trace
exec os (pure a) tr = (ok a, tr)
exec os (throw e) tr = (err e, tr)
exec os (call c k) tr = exec os (k (os tr c)) ((c, os tr c) ∷ tr)

abbrev pub ask : Call → Prog (Option ℕ)
ask c = call c pure

-- A call whose failure nobody looks at.
abbrev pub run : Call → Prog (Unit {0})
run c = call c (λ _. pure tt)

-- A call whose failure is thrown.
abbrev pub or_throw : Failure → Option ℕ → Prog ℕ
or_throw e none = throw e
or_throw e (some a) = pure a

abbrev pub checked : Failure → Call → Prog ℕ
checked e c = call c (or_throw e)

abbrev pub or_zero : Option ℕ → ℕ
or_zero none = 0
or_zero (some n) = n

unfoldable pub set_nonblock : ℕ → Prog (Unit {0})
set_nonblock fd = do flags ← ask (get_flags fd); run (set_nonblocking fd (or_zero flags))

-- `master_socket` and `master_fd`.
unfoldable pub open_server : ℕ → Prog (ℕ × ℕ)
unfolding set_nonblock
open_server port = do
  master_socket ← checked system_error socket
  _ ← checked system_error (bind master_socket port)
  set_nonblock master_socket
  _ ← checked system_error (listen master_socket)
  master_fd ← checked system_error epoll_create
  _ ← checked system_error (epoll_add master_fd master_socket)
  _ ← checked no_events calloc
  pure (master_socket, master_fd)

unfoldable pub close_server : ℕ × ℕ → Prog (Unit {0})
close_server (master_socket, master_fd) = do
  _ ← checked system_error (epoll_del master_fd master_socket)
  run free
  run (close master_fd)
  run (shutdown master_socket)
  run (close master_socket)

unfoldable pub drop_client : ℕ × ℕ → ℕ → Prog (Unit {0})
drop_client (master_socket, master_fd) client_fd = do
  _ ← checked system_error (epoll_del master_fd client_fd)
  run (shutdown client_fd)
  run (close client_fd)

-- `for (auto client : slave_sockets) disconnect_client(client)`: the loop goes on from an element
-- that `disconnect_client` has erased.
unfoldable pub drop_clients : ℕ × ℕ → List ℕ → Prog (Unit {0})
drop_clients m [] = pure tt
drop_clients m (client ∷ rest) = do drop_client m client; throw undefined
