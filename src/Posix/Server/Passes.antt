-- ===== src/Posix/Server/Passes.antt =====
-- What the server of p6 does with the connections that it accepts.
use sphere_multithreading_cp.Prelude.{
  All, Bool-cases, List, Option, Option-cases, Result, [], ap, arith, err, get_elem?-mem, inl, inr,
  length, mem, none, ok, refl, some, subst, suc, sym, true, zero, ℕ, ◌%◌, ◌++◌, ◌==◌, ◌∙◌, ◌∷◌, ◌≡◌,
}
use sphere_multithreading_cp.Kernel.{
  Failure, Control, Call, accept, sendmsg, Trace, exec, or_zero, set_nonblock, open_server,
}
use sphere_multithreading_cp.Kernel.Laws.{left_open, Ends, exec-Ends, answers, Keeps, Ends->>=}
use sphere_multithreading_cp.Posix.Routine.{sock_fd_write}
use sphere_multithreading_cp.Posix.Server.{
  num_workers, Server, new_server, pass_on, take_slave, process_master_event, process_events, start,
}

-- The sockets that `accept` gave, the last one first.
abbrev pub taken : Trace → List ℕ
taken [] = []
taken ((accept s, some fd) ∷ tr) = fd ∷ taken tr
taken ((c, a) ∷ tr) = taken tr

-- 0 is no descriptor for the server.
abbrev pub positive : List ℕ → List ℕ
positive [] = []
positive (zero ∷ fds) = positive fds
positive (suc n ∷ fds) = suc n ∷ positive fds

abbrev pub payload : Option Control → List ℕ
payload none = []
payload (some c) = c.payload ∷ []

-- The descriptors that `sendmsg` was called with, those of them that the system took, and the calls
-- that failed.
abbrev pub offered : Trace → List ℕ
offered [] = []
offered ((sendmsg w p, a) ∷ tr) = payload p.msg_control ++ offered tr
offered ((c, a) ∷ tr) = offered tr

abbrev pub passed : Trace → List ℕ
passed [] = []
passed ((sendmsg w p, some n) ∷ tr) = payload p.msg_control ++ passed tr
passed ((c, a) ∷ tr) = passed tr

abbrev pub lost : Trace → List ℕ
lost [] = []
lost ((sendmsg w p, none) ∷ tr) = payload p.msg_control ++ lost tr
lost ((c, a) ∷ tr) = lost tr

abbrev pub carriers : Trace → List ℕ
carriers [] = []
carriers ((sendmsg w p, a) ∷ tr) = w ∷ carriers tr
carriers ((c, a) ∷ tr) = carriers tr

-- Each connection was offered once, to a worker, and its descriptor is still open.
pub record Offers (base writers : List ℕ) (tr : Trace) : Type 0 where
  pub all_offered : offered tr ≡ positive (taken tr)
  pub to_workers : All (λ w. mem w writers ≡ true) (carriers tr)
  pub none_closed : left_open tr ≡ taken tr ++ base

module _ (base : List ℕ) (s : Server) (l : length s.fd_passing_writers ≡ num_workers) where
  process_master_event-Keeps : Keeps (Offers base s.fd_passing_writers) (process_master_event s)
  unfolding process_master_event take_slave set_nonblock pass_on sock_fd_write
  process_master_event-Keeps tr v =
      answers _
        (record {
          all_offered = v.all_offered;
          to_workers = v.to_workers;
          none_closed = v.none_closed;
        })
        (λ fd.
          elim fd
            as (λ k.
              Ends (λ r. Offers base s.fd_passing_writers r.1) (take_slave s (some k))
                ((accept s.master_socket, some k) ∷ tr)) [
                  | zero ↦ record {
                    all_offered = v.all_offered;
                    to_workers = v.to_workers;
                    none_closed = ap (◌∷◌ 0) v.none_closed;
                  }
                  | suc n ↦ λ flags b r.
                      let (w, e, m) =
                        get_elem?-mem s.fd_passing_writers (or_zero r % num_workers)
                          (omega arith) in
                      rw e (λ a. record {
                        all_offered = ap (◌∷◌ (suc n)) v.all_offered;
                        to_workers = (m, v.to_workers);
                        none_closed = ap (◌∷◌ (suc n)) v.none_closed;
                      })
                ])

  process_events-Keeps :
      (es : List ℕ) → Keeps (Offers base s.fd_passing_writers) (process_events es s)
  unfolding process_events
  process_events-Keeps [] tr v = v
  process_events-Keeps (fd ∷ es) tr v = elim (Bool-cases (fd == s.master_socket)) [
    | inl e ↦ rw e (
        Ends->>= (Offers base s.fd_passing_writers) (process_master_event s) _ tr
          (process_master_event-Keeps tr v) (λ _. process_events-Keeps es))
    | inr e ↦ rw e (process_events-Keeps es tr v)
  ]

  start-Keeps :
      (rounds : List (Option (List ℕ))) → Keeps (Offers base s.fd_passing_writers) (start rounds s)
  unfolding start
  start-Keeps [] tr v = v
  start-Keeps (none ∷ rounds) tr v = v
  start-Keeps (some es ∷ rounds) tr v =
      Ends->>= (Offers base s.fd_passing_writers) (process_events es s) _ tr
        (process_events-Keeps es tr v) (λ _. start-Keeps rounds)

-- The server that a constructor has made.
abbrev Starts : List ℕ → Result Failure Server × Trace → Type 0
Starts writers (ok s, tr) =
    (s.fd_passing_writers ≡ writers) × Offers (s.master_fd ∷ s.master_socket ∷ []) writers tr
Starts writers (err e, tr) = Unit

new_server-Starts :
    (port : ℕ) (writers : List ℕ) → Ends (Starts writers) (new_server port writers) []
unfolding new_server open_server set_nonblock
new_server-Starts port writers = answers _ tt λ s. answers _ tt λ _ flags b. answers _ tt λ _.
    answers _ tt λ e. answers _ tt λ _.
      answers _ tt λ _. (refl, record { all_offered = refl; to_workers = tt; none_closed = refl })

start-Offers :
    (os : Trace → Call → Option ℕ) (port : ℕ) (writers : List ℕ) (rounds : List (Option (List ℕ)))
    (s : Server) (tr : Trace)
    → length writers ≡ num_workers
    → exec os (new_server port writers) [] ≡ (ok s, tr)
    → Offers (s.master_fd ∷ s.master_socket ∷ []) writers (exec os (start rounds s) tr).1
start-Offers os port writers rounds s tr l e =
    let (w, v) = subst (Starts writers) e (
      exec-Ends (Starts writers) os (new_server port writers) []
        (new_server-Starts port writers)) in
    subst (λ l. Offers (s.master_fd ∷ s.master_socket ∷ []) l (exec os (start rounds s) tr).1) w
      (exec-Ends (λ r. Offers (s.master_fd ∷ s.master_socket ∷ []) s.fd_passing_writers r.1) os
        (start rounds s) tr
        (start-Keeps (s.master_fd ∷ s.master_socket ∷ []) s (ap length w ∙ l) rounds tr
          (subst (λ l. Offers (s.master_fd ∷ s.master_socket ∷ []) l tr) (sym w) v)))

passed-offered : (tr : Trace) → lost tr ≡ [] → passed tr ≡ offered tr
passed-offered [] h = refl
passed-offered ((sendmsg w p, some n) ∷ tr) h =
    ap (λ l. payload p.msg_control ++ l) (passed-offered tr h)
passed-offered ((sendmsg w p, none) ∷ tr) h = elim (Option-cases p.msg_control) [
  | inl e ↦ rw e (passed-offered tr (rw e at h))
  | inr (c, e) ↦ let h' = rw e at h in cc
]
passed-offered ((c, a) ∷ tr) h = passed-offered tr h

-- In whatever way the system answers, the server calls `sendmsg` once for each connection that it
-- accepts, in order and to one of its workers, and for nothing else; none is tried again where the call
-- fails. If no call fails, the connections passed are those accepted. The server closes none of them:
-- every descriptor it accepted is still open beside its own two.
pub start-Passes :
    (os : Trace → Call → Option ℕ) (port : ℕ) (writers : List ℕ) (rounds : List (Option (List ℕ)))
    (s : Server) (tr : Trace)
    → length writers ≡ num_workers
    → exec os (new_server port writers) [] ≡ (ok s, tr)
    → let tr' = (exec os (start rounds s) tr).1 in
      Offers (s.master_fd ∷ s.master_socket ∷ []) writers tr'
      × (lost tr' ≡ [] → passed tr' ≡ positive (taken tr'))
start-Passes os port writers rounds s tr l e =
    let h = start-Offers os port writers rounds s tr l e in
    (h, λ n. passed-offered (exec os (start rounds s) tr).1 n ∙ h.all_offered)
