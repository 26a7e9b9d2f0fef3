-- ===== src/Sysv/Protocol/Server/Adds.antt =====
-- p5: what the handlers of `Server` (p5/Server.cpp) do to the queue of messages.
use sphere_multithreading_cp.Prelude.{
  Bool, Bool-cases, List, Option-cases, Result, [], append-nil, err, false, if◌then◌else◌, inl, inr,
  insert, length, ltb, ltb_ℤ, map, ok, pos, refl, sym, true, ℕ, ◌++◌, ◌>>=◌, ◌∷◌, ◌≡◌,
}
use sphere_multithreading_cp.Sysv.Protocol.{
  op_of, Message, Buffer, received, wrong_command, welcome, Scan, nothing, refused, accepted,
  overflow, cmd_size, filled, process_message_from_client,
}
use sphere_multithreading_cp.Sysv.Protocol.Server.{
  Server, Failure, system_error, Received, bytes, closed, failed, disconnect_client,
  recv_message_from_client, ask, process_client_event, process_master_event,
}

-- The clients of the messages.
abbrev pub clients : List Message → List ℕ
clients l = map (λ m. m.from) l

-- An event of a client adds messages of that client to the queue.
abbrev pub Adds : ℕ → List Message → Result Failure Server → Type 0
Adds fd q (ok t) = (new : List Message) × (t.queue ≡ q ++ new) × (clients new ≡ map (λ _. fd) new)
Adds fd q (err e) = Unit

disconnect_client-Adds :
    (epoll_ctl : ℕ → Bool) (fd c : ℕ) (q : List Message) (s : Server)
    → Adds fd q (ok s)
    → Adds fd q (disconnect_client epoll_ctl c s)
unfolding disconnect_client
disconnect_client-Adds epoll_ctl fd c q s h = elim (Bool-cases (epoll_ctl c)) [
  | inl e ↦ rw e h
  | inr e ↦ rw e tt
]

ask-Adds :
    (sscanf : Buffer → Scan) (rand : ℕ) (msg : Message) (fd : ℕ) (s : Server)
    → Adds fd s.queue (ask sscanf rand msg fd s)
unfolding ask process_message_from_client
ask-Adds sscanf rand msg fd s =
    let l = sscanf s.buffer in
    let b = s.buffer in
    elim (Bool-cases (ltb_ℤ (pos 0) l.n_args)) [
      | inr e ↦
          let p : process_message_from_client sscanf rand fd msg b ≡ (nothing, msg, b) =
            rw (process_message_from_client, e) refl in
          rw (ask, p) ([], sym (append-nil s.queue), refl)
      | inl e ↦ elim (Bool-cases (ltb (length l.cmd) cmd_size)) [
        | inr x ↦
            let p : process_message_from_client sscanf rand fd msg b ≡ (overflow, msg, b) =
              rw (process_message_from_client, e, x) refl in
            rw (ask, p) tt
        | inl f ↦ elim (Option-cases (op_of l)) [
          | inl x ↦
              let p : process_message_from_client sscanf rand fd msg b
                  ≡ (refused, filled rand l fd msg, wrong_command) =
                rw (process_message_from_client, e, f, x) refl in
              rw (ask, p) ([], sym (append-nil s.queue), refl)
          | inr (op, x) ↦
              let m : Message = record (filled rand l fd msg) { op = op } in
              let p : process_message_from_client sscanf rand fd msg b ≡ (accepted, m, b) =
                rw (process_message_from_client, e, f, x) refl in
              rw (ask, p, p) (m ∷ [], refl, refl)
        ]
      ]
    ]

after-Adds :
    (epoll_ctl : ℕ → Bool) (hup : Bool) (fd : ℕ) (q : List Message) (r : Result Failure Server)
    → Adds fd q r
    → Adds fd q (r >>= λ s. if hup then disconnect_client epoll_ctl fd s else ok s)
after-Adds epoll_ctl true fd q (ok s) h = disconnect_client-Adds epoll_ctl fd fd q s h
after-Adds epoll_ctl false fd q (ok s) h = h
after-Adds epoll_ctl hup fd q (err e) h = tt

pub process_client_event-Adds :
    (sscanf : Buffer → Scan) (epoll_ctl : ℕ → Bool) (rand : ℕ) (msg : Message) (r : Received)
    (hup : Bool) (fd : ℕ) (s : Server)
    → Adds fd s.queue (process_client_event sscanf epoll_ctl rand msg r hup fd s)
unfolding process_client_event recv_message_from_client disconnect_client
process_client_event-Adds sscanf epoll_ctl rand msg (bytes text) hup fd s =
    let s' : Server = record s { buffer = received text } in
    after-Adds epoll_ctl hup fd s.queue (ask sscanf rand msg fd s') (ask-Adds sscanf rand msg fd s')
process_client_event-Adds sscanf epoll_ctl rand msg failed hup fd s =
    after-Adds epoll_ctl hup fd s.queue (ask sscanf rand msg fd s) (ask-Adds sscanf rand msg fd s)
process_client_event-Adds sscanf epoll_ctl rand msg closed hup fd s =
    elim (Bool-cases (epoll_ctl fd)) [
      | inl e ↦ rw (disconnect_client, e) ([], sym (append-nil s.queue), refl)
      | inr e ↦ rw (disconnect_client, e) tt
    ]

pub process_master_event-queue :
    (epoll_ctl : ℕ → Bool) (fds : List ℕ) (s t : Server)
    → process_master_event epoll_ctl fds s ≡ ok t
    → t.queue ≡ s.queue
unfolding process_master_event
process_master_event-queue epoll_ctl [] s t h = cc
process_master_event-queue epoll_ctl (fd ∷ fds) s t h = elim (Bool-cases (epoll_ctl fd)) [
  | inl e ↦
      process_master_event-queue epoll_ctl fds
        (record s { slave_sockets = insert fd s.slave_sockets; sent = (fd, welcome) ∷ s.sent }) t
        (rw e at h)
  | inr e ↦ let h' : err system_error ≡ ok t = rw e at h in cc
]
