-- ===== src/Posix/Worker/HandOver.antt =====
-- p6: the server and its workers side by side. The server passes connections on, each worker reads
-- what was passed to it and serves its clients (p6/Server.cpp, p6/Worker.cpp, p6/Routine.cpp).
pub mod Welcomes
pub mod Handed
mod Tests
use mathlib.Core.Option
use sphere_multithreading_cp.Prelude.{
  Bool, List, Option, Result, [], err, if◌then◌else◌, none, ok, some, ℕ, ℤ, ◌++◌, ◌==◌, ◌∷◌, ◌≡◌,
}
use sphere_multithreading_cp.Kernel.{Packet, Call, sendmsg, Trace, exec}
use sphere_multithreading_cp.Table.{update}
use sphere_multithreading_cp.Posix.{Store}
use sphere_multithreading_cp.Posix.Routine.{
  Stop, exited, undefined, Arrival, arrived, sock_fd_read, renamed,
}
use sphere_multithreading_cp.Posix.Server.{Server, process_events}
use sphere_multithreading_cp.Posix.Worker.{
  Worker, Halt, system_error, Received, Buffer, Scan, process_master_event, process_client_event,
}

pub halted : Stop → Halt
halted exited = Halt.exited
halted undefined = Halt.undefined

-- `process_master_event` from the reading of the socket on; `epoll_ctl` refuses the descriptor -1.
pub take_passed : (ℕ → Bool) → Arrival → Worker → Result Halt Worker
unfolding halted
take_passed epoll_ctl a w = elim (sock_fd_read 1 a) [
  | err e ↦ err (halted e)
  | ok (size, none) ↦ err system_error
  | ok (size, some slave_socket) ↦ process_master_event epoll_ctl slave_socket w
]

-- The messages that the system took for a worker, the last one first.
abbrev pub sent_by : ℕ → Call × Option ℕ → List Packet
sent_by w (sendmsg v p, some n) = if v == w then p ∷ [] else []
sent_by w (c, a) = []

abbrev pub sent_to : ℕ → Trace → List Packet
sent_to w [] = []
sent_to w (x ∷ tr) = sent_by w x ++ sent_to w tr

-- What the server did, what each worker has read (the last message first), and the workers.
pub record System : Type 0 where
  pub calls : Trace
  pub read : ℕ → List Packet
  pub worker : ℕ → Worker

-- Worker `i` reads what comes through the socket `writer i`, and gives a passed descriptor its own
-- name. What is in shared memory when it serves a client is whatever the others have left there.
module _ (hash_int : ℤ → ℕ) (sscanf : Buffer → Scan) (epoll_ctl : ℕ → Bool) (writer : ℕ → ℕ)
    (name : ℕ → ℕ → ℕ) (server : Server) where
  pub data Step (s : System) : System → Type 0 where
    accepts :
        (os : Trace → Call → Option ℕ) (events : List ℕ)
        → Step s (record s { calls = (exec os (process_events events server) s.calls).1 })
    takes :
        (i : ℕ) (p : Packet) (unread : List Packet) {w : Worker}
        → sent_to (writer i) s.calls ≡ unread ++ p ∷ s.read i
        → take_passed epoll_ctl (arrived (renamed (name i) p)) (s.worker i) ≡ ok w
        → Step s (record s { read = update s.read i (p ∷ s.read i); worker = update s.worker i w })
    serves :
        (i : ℕ) (t : Store) (m : ℕ → ℕ) (now later : ℤ) (r : Received) (hup : Bool) (fd : ℕ)
        {w : Worker}
        → process_client_event hash_int sscanf epoll_ctl now later r hup fd
            (record (s.worker i) { hash_table = t; semids = m })
          ≡ ok w
        → Step s (record s { worker = update s.worker i w })

  pub data Reach (s : System) : System → Type 0 where
    here : Reach s s
    next : {t u : System} → Reach s t → Step t u → Reach s u

-- Nothing was passed yet, and nobody was welcomed.
abbrev pub fresh : (ℕ → Worker) → System
fresh w = record { calls = []; read = λ i. []; worker = λ i. record (w i) { sent = [] } }
