-- ===== src/Sysv/Protocol/Server.antt =====
-- p5: the handlers of `Server` (p5/Server.cpp), along what `accept`, `recv`, `msgrcv` and `epoll_ctl`
-- give. `queue` holds the messages for the workers in the order they were sent.
pub mod Adds
pub mod Answers
pub mod Exchange
mod Tests
use sphere_multithreading_cp.Prelude.{
  Bool, Bool-cases, List, Option, Option-cases, Result, [], arith, erase, err, false, if◌then◌else◌,
  inl, inr, insert, length, ltb, ltb_ℤ, none, ok, pos, refl, some, true, ℕ, ◌++◌, ◌+◌, ◌<◌, ◌>>=◌,
  ◌∷◌, ◌≡◌, ◌≤◌,
}
use sphere_multithreading_cp.Shell.{Text}
use sphere_multithreading_cp.Sysv.Protocol.{
  num_workers, Message, Buffer, received, wrong_command, welcome, Scan, op_of, nothing, refused,
  accepted, filled, process_message_from_client, process_message_from_worker, cmd_size, overflow,
}

pub record Server : Type 0 where
  pub slave_sockets : List ℕ
  pub buffer : Buffer
  pub queue : List Message
  pub sent : List (ℕ × Buffer)

-- An exception that the handlers leave to `main`, and what C++ leaves undefined.
pub data Failure : Type 0 where
  system_error undefined : Failure

-- What `recv` gives: bytes, 0, or -1.
pub data Received : Type 0 where
  bytes : Text → Received
  closed failed : Received

abbrev pub send_message_to_client : ℕ → Server → Server
send_message_to_client client_fd s = record s { sent = (client_fd, s.buffer) ∷ s.sent }

abbrev pub send_message_to_worker : Message → Server → Server
send_message_to_worker msg s = record s { queue = s.queue ++ msg ∷ [] }

pub disconnect_client : (ℕ → Bool) → ℕ → Server → Result Failure Server
disconnect_client epoll_ctl fd s =
    if epoll_ctl fd
    then ok (record s { slave_sockets = erase fd s.slave_sockets })
    else err system_error

-- An error leaves the buffer as it was, and counts as a message.
pub recv_message_from_client : (ℕ → Bool) → Received → ℕ → Server → Result Failure (Bool × Server)
recv_message_from_client epoll_ctl (bytes text) fd s =
    ok (true, record s { buffer = received text })
recv_message_from_client epoll_ctl closed fd s =
    disconnect_client epoll_ctl fd s >>= λ s'. ok (false, s')
recv_message_from_client epoll_ctl failed fd s = ok (true, s)

-- The part of `process_client_event` between the message and `EPOLLHUP`; `msg` is what the local
-- variable holds before.
pub ask : (Buffer → Scan) → (rand : ℕ) → Message → ℕ → Server → Result Failure Server
ask sscanf rand msg fd s =
    let r = process_message_from_client sscanf rand fd msg s.buffer in
    let s' : Server = record s { buffer = r.2 } in
    elim r.0 [
      | nothing ↦ ok s'
      | refused ↦ ok (send_message_to_client fd s')
      | accepted ↦ ok (send_message_to_worker r.1 s')
      | overflow ↦ err undefined
    ]

-- `hup` is `event.events & EPOLLHUP`.
pub process_client_event :
    (Buffer → Scan)
    → (ℕ → Bool)
    → (rand : ℕ) → Message
    → Received
    → (hup : Bool) → ℕ
    → Server
    → Result Failure Server
process_client_event sscanf epoll_ctl rand msg r hup fd s =
    recv_message_from_client epoll_ctl r fd s >>= λ (go_on, s').
    if go_on
    then (ask sscanf rand msg fd s' >>= λ s''.
        if hup then disconnect_client epoll_ctl fd s'' else ok s'')
    else ok s'

-- The loop of `process_master_event`, along the sockets that `accept` gives until `EAGAIN`.
pub process_master_event : (ℕ → Bool) → List ℕ → Server → Result Failure Server
process_master_event epoll_ctl [] s = ok s
process_master_event epoll_ctl (fd ∷ fds) s =
    let next =
      process_master_event epoll_ctl fds
        (record s { slave_sockets = insert fd s.slave_sockets; sent = (fd, welcome) ∷ s.sent }) in
    if epoll_ctl fd then next else err system_error

-- The end of a round of `start`: `msgrcv` gives a message of a worker or none.
pub process_reply : Option Message → Server → Server
process_reply none s = s
process_reply (some msg) s =
    send_message_to_client msg.from (record s { buffer = process_message_from_worker msg s.buffer })

-- What a scanned line means for the queue and for the clients.
pub data IsAsked (fd : ℕ) (l : Scan) (s t : Server) : Type 0 where
  blank : ltb_ℤ (pos 0) l.n_args ≡ false → t.queue ≡ s.queue → t.sent ≡ s.sent → IsAsked fd l s t
  unknown :
      op_of l ≡ none → t.queue ≡ s.queue → t.sent ≡ (fd, wrong_command) ∷ s.sent → IsAsked fd l s t
  query :
      (m : Message)
      → op_of l ≡ some m.op
      → m.key ≡ l.key
      → m.value ≡ l.value
      → m.from ≡ fd
      → 2 ≤ m.mtype
      → m.mtype ≤ num_workers + 1
      → t.queue ≡ s.queue ++ m ∷ []
      → t.sent ≡ s.sent
      → IsAsked fd l s t

-- What a client sends that stays connected, if its first word fits into `cmd`, is passed to one of the four workers if it is a query,
-- refused in a reply to the sender if it is not, and left alone if it is blank.
pub process_client_event-IsAsked :
    (sscanf : Buffer → Scan) (epoll_ctl : ℕ → Bool) (rand : ℕ) (msg : Message) (text : Text)
    (fd : ℕ) (s : Server)
    → length (sscanf (received text)).cmd < cmd_size
    → (t : Server) × (process_client_event sscanf epoll_ctl rand msg (bytes text) false fd s ≡ ok t)
      × IsAsked fd (sscanf (received text)) s t
      × (t.slave_sockets ≡ s.slave_sockets)
unfolding process_client_event recv_message_from_client ask process_message_from_client
process_client_event-IsAsked sscanf epoll_ctl rand msg text fd s short =
    let l = sscanf (received text) in
    let fits : ltb (length l.cmd) cmd_size ≡ true = ground arith in
    let b = received text in
    elim (Bool-cases (ltb_ℤ (pos 0) l.n_args)) [
      | inr no_args ↦
          let p : process_message_from_client sscanf rand fd msg b ≡ (nothing, msg, b) =
            rw (process_message_from_client, no_args) refl in
          rw (process_client_event, recv_message_from_client, ask, p)
            (_, refl, blank no_args refl refl, refl)
      | inl some_args ↦ elim (Option-cases (op_of l)) [
        | inl no_op ↦
            let p : process_message_from_client sscanf rand fd msg b
                ≡ (refused, filled rand l fd msg, wrong_command) =
              rw (process_message_from_client, some_args, fits, no_op) refl in
            rw (process_client_event, recv_message_from_client, ask, p, p)
              (_, refl, unknown no_op refl refl, refl)
        | inr (op, known) ↦
            let m : Message = record (filled rand l fd msg) { op = op } in
            let p : process_message_from_client sscanf rand fd msg b ≡ (accepted, m, b) =
              rw (process_message_from_client, some_args, fits, known) refl in
            rw (process_client_event, recv_message_from_client, ask, p, p)
              (_, refl, query m known refl refl refl (omega arith) (omega arith) refl refl, refl)
      ]
    ]
