-- ===== src/Chat.antt =====
-- p2: the chat. `Message` (p2/Message.cpp) and the handlers of `Server` (p2/Server.cpp). What `accept`,
-- `recv`, `epoll_ctl` and `errno` give is an argument; the blocks that are sent are listed in order.
pub mod Relay
pub mod Lifetime
pub mod Apart
pub mod Conversation
pub mod Blocks
pub mod Client
use mathlib.Core.List.{flatten}
use sphere_multithreading_cp.Prelude.{
  Bool, List, Option, Result, [], drop, erase, err, false, if◌then◌else◌, insert, last?, leb,
  length, map, none, ok, some, suc, take, true, zero, ℕ, ◌++◌, ◌+◌, ◌==◌, ◌>>=◌, ◌∷◌,
}
use sphere_multithreading_cp.Shell.{Text}
use sphere_multithreading_cp.Table.{update}

abbrev pub buff_size : ℕ
buff_size = 1024

-- Each block with its size.
pub record Message : Type 0 where
  pub blocks : List Text

abbrev pub no_message : Message
no_message = record { blocks = [] }

unfoldable pub append : Text → Message → Message
append msg m = record m { blocks = m.blocks ++ msg ∷ [] }

pub clear : Message → Message
clear m = record m { blocks = [] }

pub size : Message → ℕ
size m = length m.blocks

-- The last byte of the last block; `none` is a read outside of the blocks.
pub is_complete : Message → Option Bool
is_complete m = elim (last? m.blocks) [
  | none ↦ none
  | some p ↦ elim (last? p) [ none ↦ none | some c ↦ some (c == 10) ]
]

-- `operator<<`
pub printed : Message → Text
printed m = flatten m.blocks

-- The text up to its first NUL, as `strlen` measures it.
unfoldable pub c_string : Text → Text
c_string [] = []
c_string (c ∷ cs) = let rest = c_string cs in if c == 0 then [] else c ∷ rest

-- The `for` of `Message(const std::string&)`, from `message + i` on.
pub append_parts : ℕ → Text → Message → Message
append_parts zero msg m = m
append_parts (suc fuel) msg m =
    let m' = append (take buff_size (c_string msg)) m in
    let rest = append_parts fuel (drop buff_size msg) m' in
    if leb buff_size (length msg) then rest else m'

pub new_message : Text → Message
new_message msg = append_parts (length msg + 1) msg no_message

pub record Server : Type 0 where
  pub messages : ℕ → Option Message
  pub slave_sockets : List ℕ
  pub sent : List (ℕ × Text)

-- An exception, a read outside of the blocks, a wait for data.
pub data Halt : Type 0 where
  system_error undefined blocked : Halt

-- What `recv` gives, and whether `errno` is `EAGAIN` behind it.
pub data Received : Type 0 where
  bytes : Text → (again : Bool) → Received
  closed : Received
  failed : (again : Bool) → Received

-- `messages[fd]`, which makes an empty message if there is none.
unfoldable pub message_of : ℕ → Server → Message
message_of fd s = elim (s.messages fd) [ none ↦ no_message | some m ↦ m ]

abbrev pub store_message : ℕ → Message → Server → Server
store_message fd m s = record s { messages = update s.messages fd (some m) }

abbrev pub send_message : Message → ℕ → Server → Server
send_message msg fd s = record s { sent = s.sent ++ map (λ b. (fd, b)) msg.blocks }

pub disconnect_client : (ℕ → Bool) → ℕ → Server → Result Halt Server
disconnect_client epoll_ctl fd s =
    if epoll_ctl fd
    then ok (record s {
      messages = update s.messages fd none;
      slave_sockets = erase fd s.slave_sockets;
    })
    else err system_error

-- Whether the part ends the loop of `recv_message`.
unfoldable pub ends_line : Text → Bool
ends_line t = elim (last? t) [ none ↦ false | some c ↦ c == 10 ]

-- The loop of `recv_message`, along what the calls of `recv` give.
pub recv_message : (ℕ → Bool) → ℕ → List Received → Server → Result Halt (Bool × Server)
recv_message epoll_ctl fd [] s = err blocked
recv_message epoll_ctl fd (bytes t again ∷ rs) s =
    let s' = store_message fd (append t (message_of fd s)) s in
    let rest = recv_message epoll_ctl fd rs s' in
    if ends_line t then ok (true, s') else if again then ok (true, s') else rest
recv_message epoll_ctl fd (closed ∷ rs) s =
    disconnect_client epoll_ctl fd s >>= λ s'. ok (false, s')
recv_message epoll_ctl fd (failed again ∷ rs) s =
    let rest = recv_message epoll_ctl fd rs s in if again then ok (true, s) else rest

-- The `for` over `slave_sockets`.
pub send_all : Message → List ℕ → Server → Server
send_all msg [] s = s
send_all msg (c ∷ cs) s = send_all msg cs (send_message msg c s)

-- The part of `process_client_event` that looks at the message.
pub relay : ℕ → Server → Result Halt Server
relay fd s =
    let m = message_of fd s in
    elim (is_complete m) [
      | none ↦ err undefined
      | some complete ↦
          if complete
          then ok (store_message fd (clear m) (send_all m s.slave_sockets s))
          else ok (store_message fd m s)
    ]

-- `hup` is `event.events & EPOLLHUP`.
pub process_client_event :
    (ℕ → Bool) → List Received → (hup : Bool) → ℕ → Server → Result Halt Server
process_client_event epoll_ctl rs hup fd s = recv_message epoll_ctl fd rs s >>= λ (go_on, s').
    if go_on
    then (relay fd s' >>= λ s''. if hup then disconnect_client epoll_ctl fd s'' else ok s'')
    else ok s'

-- "Welcome!\n"
abbrev pub welcome : Text
welcome = b'W' ∷ b'e' ∷ b'l' ∷ b'c' ∷ b'o' ∷ b'm' ∷ b'e' ∷ b'!' ∷ 10 ∷ []

-- The loop of `process_master_event`, along the sockets that `accept` gives until `EAGAIN`.
pub process_master_event : (ℕ → Bool) → List ℕ → Server → Result Halt Server
process_master_event epoll_ctl [] s = ok s
process_master_event epoll_ctl (slave_socket ∷ rest) s =
    let next = process_master_event epoll_ctl rest (record s {
      messages = update s.messages slave_socket (some no_message);
      slave_sockets = insert slave_socket s.slave_sockets;
      sent = s.sent ++ (slave_socket, welcome) ∷ [];
    }) in
    if epoll_ctl slave_socket then next else err system_error

-- An event of `epoll_wait`: for `master_socket`, or for a client.
pub data Event : Type 0 where
  master : (sockets : List ℕ) → Event
  client : List Received → (hup : Bool) → (fd : ℕ) → Event

pub process_event : (ℕ → Bool) → Event → Server → Result Halt Server
process_event epoll_ctl (master sockets) s = process_master_event epoll_ctl sockets s
process_event epoll_ctl (client rs hup fd) s = process_client_event epoll_ctl rs hup fd s

pub process_events : (ℕ → Bool) → List Event → Server → Result Halt Server
process_events epoll_ctl [] s = ok s
process_events epoll_ctl (e ∷ es) s = process_event epoll_ctl e s >>= process_events epoll_ctl es

-- `start`, along what `epoll_wait` gives; `none` is -1.
pub start : (ℕ → Bool) → List (Option (List Event)) → Server → Result Halt Server
start epoll_ctl [] s = ok s
start epoll_ctl (none ∷ rounds) s = err system_error
start epoll_ctl (some es ∷ rounds) s = process_events epoll_ctl es s >>= start epoll_ctl rounds
