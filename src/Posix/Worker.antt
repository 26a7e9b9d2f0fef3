-- ===== src/Posix/Worker.antt =====
-- p6: `Worker` (p6/Worker.cpp), which serves the clients of one process. `sscanf`, the clock, the
-- outcome of `recv` and of `epoll_ctl` are parameters.
pub mod HandOver
pub mod Semaphores
pub mod Lifetime
pub mod Laws
use sphere_multithreading_cp.Prelude.{
  Bool, List, Option, Result, [], eq_ℤ, erase, err, false, if◌then◌else◌, insert, length, ltb,
  ltb_ℤ, map, none, ok, pos, some, true, ℕ, ℤ, ◌&&◌, ◌+◌, ◌-◌, ◌/◌, ◌==◌, ◌>>=◌, ◌∷◌,
}
use mathlib.Core.Option
use sphere_multithreading_cp.Shell.{Text, text_eq}
use sphere_multithreading_cp.Table.{update, get_hash}
use sphere_multithreading_cp.Posix.{
  HashTableErrorType, no_key, no_memory, not_exists, Store, Outcome, set, get, del,
}

abbrev pub num_sections : ℕ
num_sections = 8

pub data OpType : Type 0 where
  get_op set_op del_op : OpType

pub record Query : Type 0 where
  pub key : ℤ
  pub value : ℤ
  pub from : ℕ
  pub ttl : ℤ
  pub op : OpType

-- The buffer: what came in, or the reply that was printed into it.
pub data Buffer : Type 0 where
  received : Text → Buffer
  wrong_command : Buffer
  done : Buffer
  done_pair : ℤ → ℤ → Buffer
  fail_no_key : ℤ → Buffer
  fail_no_memory : Buffer
  fail_expired : ℤ → Buffer
  welcome : Buffer

pub record Worker : Type 0 where
  pub slave_sockets : List ℕ
  pub buffer : Buffer
  pub hash_table : Store
  pub semids : ℕ → ℕ
  pub sent : List (ℕ × Buffer)

-- Why the process does not come to its next event: an exception that nothing catches, an access
-- outside of `semids`, a wait for a semaphore, a loop.
pub data Halt : Type 0 where
  system_error undefined blocked endless exited : Halt

-- `sem_post` and `sem_wait` of the semaphore at an index of `semids`.
abbrev pub sem_post : ℕ → (ℕ → ℕ) → Result Halt (ℕ → ℕ)
sem_post i s = if ltb i num_sections then ok (update s i (s i + 1)) else err undefined

abbrev pub sem_wait : ℕ → (ℕ → ℕ) → Result Halt (ℕ → ℕ)
sem_wait i s =
    if ltb i num_sections
    then if s i == 0 then err blocked else ok (update s i (s i - 1))
    else err undefined

unfoldable pub sem_down : ℕ → (ℕ → ℕ) → Result Halt (ℕ → ℕ)
sem_down i s = sem_post i s

unfoldable pub sem_up : ℕ → (ℕ → ℕ) → Result Halt (ℕ → ℕ)
sem_up i s = sem_wait i s

-- What `sscanf(buffer, "%s%d%d%d", ...)` gives.
pub record Scan : Type 0 where
  pub n_args : ℤ
  pub cmd : Text
  pub key : ℤ
  pub ttl : ℤ
  pub value : ℤ

abbrev set_word : Text
set_word = 115 ∷ 101 ∷ 116 ∷ []

abbrev get_word : Text
get_word = 103 ∷ 101 ∷ 116 ∷ []

abbrev del_word : Text
del_word = 100 ∷ 101 ∷ 108 ∷ []

-- The chain of comparisons in `process_query`.
pub op_of : Scan → Option OpType
op_of s =
    if text_eq s.cmd set_word && eq_ℤ s.n_args (pos 4)
    then some set_op
    else if text_eq s.cmd get_word && eq_ℤ s.n_args (pos 2)
    then some get_op
    else if text_eq s.cmd del_word && eq_ℤ s.n_args (pos 2)
    then some del_op
    else none

-- The size of `cmd`.
abbrev pub cmd_size : ℕ
cmd_size = 32

-- The result of `process_query`: 0, -1, or 1 with the query; or `%s` has written behind `cmd`.
pub data Verdict : Type 0 where
  nothing refused overflow : Verdict
  accepted : Query → Verdict

-- An operation without a value leaves that of the query.
abbrev pub keep_value :
    ℤ → Result HashTableErrorType (Unit {0}) × Store → Result HashTableErrorType ℤ × Store
keep_value value (r, t) = (r >>= λ _. ok value, t)

-- The `switch` of `execute_query` under `try`, with the value the query ends with.
pub perform : (ℤ → ℕ) → (now later : ℤ) → Query → Store → Outcome ℤ
perform hash_int now later q t = elim q.op [
  | set_op ↦ Option.map (keep_value q.value) (set hash_int now q.key q.ttl q.value t)
  | get_op ↦ get hash_int now later q.key t
  | del_op ↦ Option.map (keep_value q.value) (del hash_int now q.key t)
]

-- The reply.
pub answer : Query → Result HashTableErrorType ℤ → Buffer
answer q (ok value) = elim q.op [ get_op ↦ done_pair q.key value | set_op ↦ done | del_op ↦ done ]
answer q (err no_key) = fail_no_key q.key
answer q (err no_memory) = fail_no_memory
answer q (err not_exists) = fail_expired q.key

pub process_query : (Buffer → Scan) → ℕ → Worker → Verdict × Worker
process_query sscanf client_fd w =
    let s = sscanf w.buffer in
    if ltb_ℤ (pos 0) s.n_args
    then if ltb (length s.cmd) cmd_size
      then elim (op_of s) [
        | none ↦ (refused, record w { buffer = wrong_command })
        | some op ↦ (
          accepted
              (record { key = s.key; value = s.value; from = client_fd; ttl = s.ttl; op = op }),
          w,
        )
      ]
      else (overflow, w)
    else (nothing, w)

pub execute_query : (ℤ → ℕ) → (now later : ℤ) → Query → Worker → Result Halt Worker
execute_query hash_int now later q w =
    let sem_id = get_hash hash_int q.key / num_sections in
    sem_down sem_id w.semids >>= λ s. elim (perform hash_int now later q w.hash_table) [
      | none ↦ err endless
      | some (r, t) ↦ sem_up sem_id s >>= λ s'.
          ok (record w { semids = s'; hash_table = t; buffer = answer q r })
    ]

pub send_message_to_client : ℕ → Worker → Worker
send_message_to_client client_fd w = record w { sent = (client_fd, w.buffer) ∷ w.sent }

-- `epoll_ctl fd` tells whether the call succeeds.
pub disconnect_client : (ℕ → Bool) → ℕ → Worker → Result Halt Worker
disconnect_client epoll_ctl client_fd w =
    if epoll_ctl client_fd
    then ok (record w { slave_sockets = erase client_fd w.slave_sockets })
    else err system_error

-- What `recv` gives: bytes, 0, or -1.
pub data Received : Type 0 where
  bytes : Text → Received
  closed failed : Received

pub recv_message_from_client : (ℕ → Bool) → Received → ℕ → Worker → Result Halt (Bool × Worker)
recv_message_from_client epoll_ctl (bytes text) client_fd w =
    ok (true, record w { buffer = received text })
recv_message_from_client epoll_ctl closed client_fd w =
    disconnect_client epoll_ctl client_fd w >>= λ w'. ok (false, w')
recv_message_from_client epoll_ctl failed client_fd w = err system_error

-- `process_master_event` after the socket is read.
pub process_master_event : (ℕ → Bool) → ℕ → Worker → Result Halt Worker
process_master_event epoll_ctl slave_socket w =
    if epoll_ctl slave_socket
    then ok (record w {
      slave_sockets = insert slave_socket w.slave_sockets;
      sent = (slave_socket, welcome) ∷ w.sent;
    })
    else err system_error

module _ (hash_int : ℤ → ℕ) (sscanf : Buffer → Scan) (epoll_ctl : ℕ → Bool) where
  -- The `if` on the result of `process_query`.
  pub serve : (now later : ℤ) → ℕ → Worker → Result Halt Worker
  serve now later client_fd w =
      let (v, w') = process_query sscanf client_fd w in
      elim v [
        | nothing ↦ ok w'
        | overflow ↦ err undefined
        | refused ↦ ok (send_message_to_client client_fd w')
        | accepted q ↦ execute_query hash_int now later q w' >>= λ w''.
            ok (send_message_to_client client_fd w'')
      ]

  -- `hup` is `event.events & EPOLLHUP`.
  pub process_client_event :
      (now later : ℤ) → Received → (hup : Bool) → ℕ → Worker → Result Halt Worker
  process_client_event now later r hup client_fd w =
      recv_message_from_client epoll_ctl r client_fd w >>= λ (go_on, w').
      if go_on
      then (serve now later client_fd w' >>= λ w''.
          if hup then disconnect_client epoll_ctl client_fd w'' else ok w'')
      else ok w'
