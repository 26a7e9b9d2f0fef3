-- ===== src/Sysv/Protocol.antt =====
-- p5: the messages between `Server` (p5/Server.cpp) and the worker processes (p5/main_worker.cpp).
-- `sscanf`, `rand` and `semop` are parameters; the kernel's queue delivers each message unchanged.
pub mod Lifetime
pub mod Laws
pub mod Server
use mathlib.Core.Option
use sphere_multithreading_cp.Prelude.{
  Option, Result, [], eq_ℤ, err, if◌then◌else◌, length, ltb, ltb_ℤ, map, none, ok, pos, some, sub_ℕ,
  ℕ, ℤ, ◌%◌, ◌&&◌, ◌+◌, ◌/◌, ◌==◌, ◌>>=◌, ◌∷◌,
}
use sphere_multithreading_cp.Shell.{Text, text_eq}
use sphere_multithreading_cp.Table.{get_hash}
use sphere_multithreading_cp.Sysv.{
  HashTableErrorType, no_key, no_memory, Store, Outcome, set, get, del,
}

abbrev pub num_workers : ℕ
num_workers = 4

abbrev pub num_sections : ℕ
num_sections = 8

abbrev server_msgid : ℕ
server_msgid = 1

pub data OpType : Type 0 where
  get_op set_op del_op quit_op : OpType

-- `err_code` is the field `err`.
pub record Message : Type 0 where
  pub mtype : ℕ
  pub op : OpType
  pub key : ℤ
  pub value : ℤ
  pub err_code : ℕ
  pub from : ℕ

-- The buffer: what came in, or the reply that was printed into it.
pub data Buffer : Type 0 where
  received : Text → Buffer
  wrong_command : Buffer
  done : Buffer
  done_pair : ℤ → ℤ → Buffer
  fail_no_key : ℤ → Buffer
  fail_no_memory : Buffer
  welcome : Buffer

-- What `sscanf(buffer, "%s%d%d", ...)` gives.
pub record Scan : Type 0 where
  pub n_args : ℤ
  pub cmd : Text
  pub key : ℤ
  pub value : ℤ

abbrev set_word : Text
set_word = 115 ∷ 101 ∷ 116 ∷ []

abbrev get_word : Text
get_word = 103 ∷ 101 ∷ 116 ∷ []

abbrev del_word : Text
del_word = 100 ∷ 101 ∷ 108 ∷ []

-- The chain of comparisons in `process_message_from_client`.
pub op_of : Scan → Option OpType
op_of s =
    if text_eq s.cmd set_word && eq_ℤ s.n_args (pos 3)
    then some set_op
    else if text_eq s.cmd get_word && eq_ℤ s.n_args (pos 2)
    then some get_op
    else if text_eq s.cmd del_word && eq_ℤ s.n_args (pos 2)
    then some del_op
    else none

-- The size of `cmd`.
abbrev pub cmd_size : ℕ
cmd_size = 32

-- The result of `process_message_from_client`: 0, -1, or 1; or `%s` has written behind `cmd`.
pub data Verdict : Type 0 where
  nothing refused accepted overflow : Verdict

-- The message that is filled in before the command is looked at: `op` is what it was.
abbrev pub filled : (rand : ℕ) → Scan → ℕ → Message → Message
filled rand s client_fd msg = record msg {
  key = s.key;
  value = s.value;
  from = client_fd;
  mtype = rand % num_workers + 2;
}

pub process_message_from_client :
    (Buffer → Scan) → (rand : ℕ) → ℕ → Message → Buffer → Verdict × Message × Buffer
process_message_from_client sscanf rand client_fd msg buffer =
    let s = sscanf buffer in
    if ltb_ℤ (pos 0) s.n_args
    then if ltb (length s.cmd) cmd_size
      then elim (op_of s) [
        | none ↦ (refused, filled rand s client_fd msg, wrong_command)
        | some op ↦ (accepted, record (filled rand s client_fd msg) { op = op }, buffer)
      ]
      else (overflow, msg, buffer)
    else (nothing, msg, buffer)

-- The `switch` on `err`; a code that is not known leaves the buffer.
pub process_message_from_worker : Message → Buffer → Buffer
process_message_from_worker msg buffer =
    if msg.err_code == 0
    then elim msg.op [
      | get_op ↦ done_pair msg.key msg.value
      | set_op ↦ done
      | del_op ↦ done
      | quit_op ↦ done
    ]
    else if msg.err_code == 1
    then fail_no_key msg.key
    else if msg.err_code == 2
    then fail_no_memory
    else buffer

-- Why a worker does not come to its next message.
pub data Halt : Type 0 where
  blocked endless : Halt

-- The worker returns, or sends a reply and goes on.
pub data Step (S : Type 0) : Type 0 where
  quit : Step S
  reply : Message → Store → S → Step S

-- An operation without a value leaves that of the message.
abbrev pub keep_value :
    ℤ → Result HashTableErrorType (Unit {0}) × Store → Result HashTableErrorType ℤ × Store
keep_value value (r, t) = (r >>= λ _. ok value, t)

-- What the worker writes to the message after the operation.
pub settle : Message → Result HashTableErrorType ℤ → Message
settle msg (ok value) = record msg { mtype = server_msgid; value = value; err_code = 0 }
settle msg (err no_key) = record msg { mtype = server_msgid; err_code = 1 }
settle msg (err no_memory) = record msg { mtype = server_msgid; err_code = 2 }

-- `semop` gives `none` if the caller never returns from it.
module _ {S : Type 0} (hash_int : ℤ → ℕ) (semop : ℕ → ℤ → S → Option S) where
  unfoldable pub sem_up : ℕ → ℕ → S → Option S
  sem_up i c s = semop i (pos c) s

  unfoldable pub sem_down : ℕ → ℕ → S → Option S
  sem_down i c s = semop i (sub_ℕ 0 c) s

  -- One operation between `sem_down` and `sem_up`, the latter also after an exception.
  pub guarded : ℕ → Message → (Store → Outcome ℤ) → Store → S → Result Halt (Step S)
  guarded c msg body t s =
      let sem_id = get_hash hash_int msg.key / num_sections in
      elim (sem_down sem_id c s) [
        | none ↦ err blocked
        | some s' ↦ elim (body t) [
          | none ↦ err endless
          | some (r, t') ↦ elim (sem_up sem_id c s') [
            | none ↦ err blocked
            | some s'' ↦ ok (reply (settle msg r) t' s'')
          ]
        ]
      ]

  -- The body of the `while` of a worker.
  pub work : Message → Store → S → Result Halt (Step S)
  work msg t s = elim msg.op [
    | set_op ↦
        guarded num_workers msg
          (λ t. Option.map (keep_value msg.value) (set hash_int msg.key msg.value t)) t s
    | get_op ↦ guarded 1 msg (get hash_int msg.key) t s
    | del_op ↦
        guarded num_workers msg (λ t. Option.map (keep_value msg.value) (del hash_int msg.key t)) t
          s
    | quit_op ↦ ok quit
  ]
