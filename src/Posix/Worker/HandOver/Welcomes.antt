-- ===== src/Posix/Worker/HandOver/Welcomes.antt =====
-- Each worker welcomes what was passed to it.
use mathlib.Core.Option
use sphere_multithreading_cp.Prelude.{
  Bool, Bool-cases, List, Option, Option-cases, Result, Result-cases, [], arith, err, false,
  if◌then◌else◌, inl, inr, length, ltb, ltb_ℤ, map, none, ok, pos, refl, some, subst, sym, take,
  true, ℕ, ℤ, ◌++◌, ◌/◌, ◌==◌, ◌>>=◌, ◌∙◌, ◌∷◌, ◌≡◌, ◌⊎◌,
}
use sphere_multithreading_cp.Kernel.{
  Control, Level, sol_socket, other_level, Kind, scm_rights, other_kind, Packet,
}
use sphere_multithreading_cp.Table.{get_hash}
use sphere_multithreading_cp.Posix.{HashTableErrorType, no_key, no_memory, not_exists}
use sphere_multithreading_cp.Posix.Routine.{
  Stop, arrived, int_size, read_control, sock_fd_read, renamed,
}
use sphere_multithreading_cp.Posix.Server.Passes.{payload}
use sphere_multithreading_cp.Posix.Worker.{
  Worker, Halt, wrong_command, num_sections, sem_up, sem_down, op_of, received, Received, bytes,
  closed, failed, Buffer, welcome, Scan, Query, Verdict, nothing, overflow, cmd_size, refused,
  accepted, answer, perform, process_query, execute_query, send_message_to_client,
  disconnect_client, recv_message_from_client, serve, process_master_event, process_client_event,
}
use sphere_multithreading_cp.Posix.Worker.HandOver.{halted, take_passed}

-- Whom a worker has welcomed, the last one first.
abbrev pub welcomed : List (ℕ × Buffer) → List ℕ
welcomed [] = []
welcomed ((fd, welcome) ∷ l) = fd ∷ welcomed l
welcomed ((fd, b) ∷ l) = welcomed l

answer-welcomed :
    (fd : ℕ) (q : Query) (r : Result HashTableErrorType ℤ) (l : List (ℕ × Buffer))
    → welcomed ((fd, answer q r) ∷ l) ≡ welcomed l
unfolding answer
answer-welcomed fd q (ok value) l = ground arith
answer-welcomed fd q (err no_key) l = refl
answer-welcomed fd q (err no_memory) l = refl
answer-welcomed fd q (err not_exists) l = refl

-- Nobody is welcomed by what ends in this way.
abbrev pub Same : Worker → Result Halt Worker → Type 0
Same w (ok w') = welcomed w'.sent ≡ welcomed w.sent
Same w (err e) = Unit

Same-trans :
    (w v : Worker) (r : Result Halt Worker)
    → welcomed v.sent ≡ welcomed w.sent
    → Same v r
    → Same w r
Same-trans w v (ok u) e h = h ∙ e
Same-trans w v (err x) e h = tt

disconnect_client-Same :
    (epoll_ctl : ℕ → Bool) (fd : ℕ) (w : Worker) → Same w (disconnect_client epoll_ctl fd w)
unfolding disconnect_client
disconnect_client-Same epoll_ctl fd w = elim (Bool-cases (epoll_ctl fd)) [
  | inl e ↦ rw e refl
  | inr e ↦ rw e tt
]

module _ (hash_int : ℤ → ℕ) (sscanf : Buffer → Scan) (epoll_ctl : ℕ → Bool) where
  execute_query-Same :
      (now later : ℤ) (q : Query) (fd : ℕ) (w : Worker)
      → Same w (execute_query hash_int now later q w >>= λ w'. ok (send_message_to_client fd w'))
  unfolding execute_query send_message_to_client
  execute_query-Same now later q fd w =
      let sem_id = get_hash hash_int q.key / num_sections in
      elim (Result-cases (sem_down sem_id w.semids)) [
        | inl (e, x) ↦ rw x tt
        | inr (s, x) ↦ rw x (elim (Option-cases (perform hash_int now later q w.hash_table)) [
          | inl y ↦ rw y tt
          | inr ((r, t), y) ↦ rw y (elim (Result-cases (sem_up sem_id s)) [
            | inl (e, z) ↦ rw z tt
            | inr (s', z) ↦ rw z (answer-welcomed fd q r w.sent)
          ])
        ])
      ]

  query_cases :
      (fd : ℕ) (w : Worker)
      → (process_query sscanf fd w ≡ (nothing, w))
        ⊎ ((process_query sscanf fd w ≡ (overflow, w))
            ⊎ ((process_query sscanf fd w ≡ (refused, record w { buffer = wrong_command }))
                ⊎ ((q : Query) × (process_query sscanf fd w ≡ (accepted q, w)))))
  unfolding process_query
  query_cases fd w =
      let l = sscanf w.buffer in
      elim (Bool-cases (ltb_ℤ (pos 0) l.n_args)) [
        | inr e ↦ inl (rw e)
        | inl e ↦ elim (Bool-cases (ltb (length l.cmd) cmd_size)) [
          | inr f ↦ inr (inl (rw (e, f)))
          | inl f ↦ elim (Option-cases (op_of l)) [
            | inl x ↦ inr (inr (inl (rw (e, f, x))))
            | inr (o, x) ↦ inr (
                inr (
                  inr (
                    record { key = l.key; value = l.value; from = fd; ttl = l.ttl; op = o },
                    rw (e, f, x),
                  )))
          ]
        ]
      ]

  serve-Same :
      (now later : ℤ) (fd : ℕ) (w : Worker)
      → Same w (serve hash_int sscanf epoll_ctl now later fd w)
  unfolding serve send_message_to_client
  serve-Same now later fd w =
      let P : Verdict × Worker → Type 0 = λ p. Same w (elim p.0 [
        | nothing ↦ ok p.1
        | overflow ↦ err Halt.undefined
        | refused ↦ ok (send_message_to_client fd p.1)
        | accepted q ↦
            execute_query hash_int now later q p.1 >>= λ v. ok (send_message_to_client fd v)
      ]) in
      elim (query_cases fd w) [
        | inl e ↦ subst P (sym e) refl
        | inr (inl e) ↦ subst P (sym e) tt
        | inr (inr (inl e)) ↦ subst P (sym e) refl
        | inr (inr (inr (q, e))) ↦ subst P (sym e) (execute_query-Same now later q fd w)
      ]

  hang_up-Same :
      (hup : Bool) (fd : ℕ) (w : Worker) (r : Result Halt Worker)
      → Same w r
      → Same w (r >>= λ w'. if hup then disconnect_client epoll_ctl fd w' else ok w')
  hang_up-Same true fd w (ok v) h = Same-trans w v _ h (disconnect_client-Same epoll_ctl fd v)
  hang_up-Same false fd w (ok v) h = h
  hang_up-Same hup fd w (err e) h = tt

  pub process_client_event-Same :
      (now later : ℤ) (r : Received) (hup : Bool) (fd : ℕ) (w : Worker)
      → Same w (process_client_event hash_int sscanf epoll_ctl now later r hup fd w)
  unfolding process_client_event recv_message_from_client
  process_client_event-Same now later (bytes text) hup fd w =
      hang_up-Same hup fd w _ (serve-Same now later fd (record w { buffer = received text }))
  process_client_event-Same now later closed hup fd w =
      elim (Result-cases (disconnect_client epoll_ctl fd w)) [
        | inl (e, x) ↦ rw x tt
        | inr (v, x) ↦ rw x (subst (Same w) x (disconnect_client-Same epoll_ctl fd w))
      ]
  process_client_event-Same now later failed hup fd w = tt

-- A worker that reads a message welcomes whoever came with it, or stops.
abbrev pub Took : List ℕ → Worker → Result Halt Worker → Type 0
Took l w (ok w') = welcomed w'.sent ≡ l ++ welcomed w.sent
Took l w (err e) = Unit

process_master_event-Took :
    (epoll_ctl : ℕ → Bool) (fd : ℕ) (w : Worker)
    → Took (fd ∷ []) w (process_master_event epoll_ctl fd w)
unfolding process_master_event
process_master_event-Took epoll_ctl fd w = elim (Bool-cases (epoll_ctl fd)) [
  | inl e ↦ rw e refl
  | inr e ↦ rw e tt
]

abbrev use_fd : (ℕ → Bool) → Worker → Result Stop (ℕ × Option ℕ) → Result Halt Worker
use_fd epoll_ctl w r = elim r [
  | err e ↦ err (halted e)
  | ok (size, none) ↦ err Halt.system_error
  | ok (size, some slave_socket) ↦ process_master_event epoll_ctl slave_socket w
]

header-Took :
    (epoll_ctl : ℕ → Bool) (w : Worker) (n size fd : ℕ) (level : Level) (kind : Kind)
    → Took (fd ∷ []) w (
        use_fd epoll_ctl w (
          read_control
            (some (record { size = size; cmsg_level = level; cmsg_type = kind; payload = fd }))
          >>= λ o. ok (n, o)))
unfolding read_control
header-Took epoll_ctl w n size fd other_level kind = elim (Bool-cases (size == int_size)) [
  | inr e ↦ rw e tt
  | inl e ↦ rw e tt
]
header-Took epoll_ctl w n size fd sol_socket other_kind = elim (Bool-cases (size == int_size)) [
  | inr e ↦ rw e tt
  | inl e ↦ rw e tt
]
header-Took epoll_ctl w n size fd sol_socket scm_rights = elim (Bool-cases (size == int_size)) [
  | inr e ↦ rw e tt
  | inl e ↦ rw e (process_master_event-Took epoll_ctl fd w)
]

control-Took :
    (epoll_ctl : ℕ → Bool) (f : ℕ → ℕ) (o : Option Control) (n : ℕ) (w : Worker)
    → Took (map f (payload o)) w (
        use_fd epoll_ctl w (
          read_control (Option.map (λ (c : Control). record c { payload = f c.payload }) o)
          >>= λ o'. ok (n, o')))
unfolding read_control
control-Took epoll_ctl f none n w = tt
control-Took epoll_ctl f (some c) n w =
    header-Took epoll_ctl w n c.size (f c.payload) c.cmsg_level c.cmsg_type

pub take_passed-Took :
    (epoll_ctl : ℕ → Bool) (f : ℕ → ℕ) (p : Packet) (w : Worker)
    → Took (map f (payload p.msg_control)) w (take_passed epoll_ctl (arrived (renamed f p)) w)
unfolding take_passed sock_fd_read
take_passed-Took epoll_ctl f p w =
    control-Took epoll_ctl f p.msg_control (length (take 1 p.bytes)) w
