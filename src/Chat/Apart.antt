-- ===== src/Chat/Apart.antt =====
-- The server of p2 keeps its clients apart: no descriptor is in `slave_sockets` twice.
use sphere_multithreading_cp.Prelude.{
  Bool, Bool-cases, Distinct, List, Option-cases, Result, Result-cases, [], ap, erase-Distinct, err,
  false, if◌then◌else◌, inl, inr, insert-Distinct, ok, subst, true, ℕ, ◌>>=◌, ◌∷◌,
}
use sphere_multithreading_cp.Chat.{
  append, is_complete, Server, Halt, Received, bytes, closed, failed, message_of, store_message,
  ends_line, recv_message, relay, disconnect_client, process_client_event, process_master_event,
  Event, master, client, process_event,
}
use sphere_multithreading_cp.Chat.Relay.{send_all-deliveries}

-- Nobody is connected twice.
abbrev pub Apart : Result Halt Server → Type 0
Apart (ok s) = Distinct s.slave_sockets
Apart (err e) = Unit

disconnect_client-Apart :
    (epoll_ctl : ℕ → Bool) (fd : ℕ) (s : Server)
    → Distinct s.slave_sockets
    → Apart (disconnect_client epoll_ctl fd s)
unfolding disconnect_client
disconnect_client-Apart epoll_ctl fd s d = elim (Bool-cases (epoll_ctl fd)) [
  | inl e ↦ rw e (erase-Distinct fd s.slave_sockets d)
  | inr e ↦ rw e tt
]

process_master_event-Apart :
    (epoll_ctl : ℕ → Bool) (sockets : List ℕ) (s : Server)
    → Distinct s.slave_sockets
    → Apart (process_master_event epoll_ctl sockets s)
unfolding process_master_event
process_master_event-Apart epoll_ctl [] s d = d
process_master_event-Apart epoll_ctl (c ∷ rest) s d = elim (Bool-cases (epoll_ctl c)) [
  | inr e ↦ rw e tt
  | inl e ↦ rw e (process_master_event-Apart epoll_ctl rest _ (insert-Distinct c s.slave_sockets d))
]

abbrev ApartRecv : Result Halt (Bool × Server) → Type 0
ApartRecv (ok (go_on, s)) = Distinct s.slave_sockets
ApartRecv (err e) = Unit

recv_message-Apart :
    (epoll_ctl : ℕ → Bool) (fd : ℕ) (rs : List Received) (s : Server)
    → Distinct s.slave_sockets
    → ApartRecv (recv_message epoll_ctl fd rs s)
unfolding recv_message
recv_message-Apart epoll_ctl fd [] s d = tt
recv_message-Apart epoll_ctl fd (bytes t again ∷ rs) s d = elim (Bool-cases (ends_line t)) [
  | inl e ↦ rw e d
  | inr e ↦ rw e (elim (Bool-cases again) [
    | inl x ↦ rw x d
    | inr x ↦
        rw x
          (recv_message-Apart epoll_ctl fd rs (store_message fd (append t (message_of fd s)) s) d)
  ])
]
recv_message-Apart epoll_ctl fd (closed ∷ rs) s d =
    elim (Result-cases (disconnect_client epoll_ctl fd s)) [
      | inl (e, x) ↦ rw x tt
      | inr (v, x) ↦ rw x (subst Apart x (disconnect_client-Apart epoll_ctl fd s d))
    ]
recv_message-Apart epoll_ctl fd (failed again ∷ rs) s d = elim (Bool-cases again) [
  | inl x ↦ rw x d
  | inr x ↦ rw x (recv_message-Apart epoll_ctl fd rs s d)
]

relay-Apart : (fd : ℕ) (s : Server) → Distinct s.slave_sockets → Apart (relay fd s)
unfolding relay
relay-Apart fd s d = elim (Option-cases (is_complete (message_of fd s))) [
  | inl e ↦ rw (relay, e) tt
  | inr (true, e) ↦
      rw (relay, e)
        (rw (ap (λ v. v.slave_sockets) (send_all-deliveries (message_of fd s) s.slave_sockets s)) d)
  | inr (false, e) ↦ rw (relay, e) d
]

hang_up-Apart :
    (epoll_ctl : ℕ → Bool) (hup : Bool) (fd : ℕ) (r : Result Halt Server)
    → Apart r
    → Apart (r >>= λ s. if hup then disconnect_client epoll_ctl fd s else ok s)
hang_up-Apart epoll_ctl hup fd (err e) h = tt
hang_up-Apart epoll_ctl false fd (ok s) h = h
hang_up-Apart epoll_ctl true fd (ok s) h = disconnect_client-Apart epoll_ctl fd s h

pub process_event-Apart :
    (epoll_ctl : ℕ → Bool) (e : Event) (s : Server)
    → Distinct s.slave_sockets
    → Apart (process_event epoll_ctl e s)
unfolding process_event process_client_event
process_event-Apart epoll_ctl (master sockets) s d =
    process_master_event-Apart epoll_ctl sockets s d
process_event-Apart epoll_ctl (client rs hup fd) s d =
    let q = recv_message-Apart epoll_ctl fd rs s d in
    elim (Result-cases (recv_message epoll_ctl fd rs s)) [
      | inl (e, x) ↦ rw x tt
      | inr ((false, v), x) ↦ rw x (subst ApartRecv x q)
      | inr ((true, v), x) ↦
          rw x
            (hang_up-Apart epoll_ctl hup fd (relay fd v) (relay-Apart fd v (subst ApartRecv x q)))
    ]
