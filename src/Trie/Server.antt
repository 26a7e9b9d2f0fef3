-- ===== src/Trie/Server.antt =====
-- p7/Server.cpp: the server of suggestions. What `accept`, `recv`, `epoll_ctl` and `stat` give is an
-- argument; what is sent is listed in order.
pub mod Lifetime
pub mod Replies
mod Tests
use sphere_multithreading_cp.Prelude.{
  Bool, List, Option, Result, [], erase, err, if◌then◌else◌, insert, leb, length, ltb, none, ok,
  some, ℕ, ◌++◌, ◌+◌, ◌>>=◌, ◌∷◌,
}
use sphere_multithreading_cp.Shell.{Text}
use sphere_multithreading_cp.Shell.Parser.{is_space}
use sphere_multithreading_cp.Chat.{c_string}
use sphere_multithreading_cp.Trie.{Node, Word, TrieErrorType, new_trie}
use sphere_multithreading_cp.Trie.Words.{get_words}

abbrev pub max_buf_size : ℕ
max_buf_size = 1024

-- "Welcome!\n", "OK\n", "OK: %s\n" and "FAIL: %s\n"
pub data Reply : Type 0 where
  welcome ok_line : Reply
  ok_word : Word → Reply
  fail : TrieErrorType → Reply

pub record Server : Type 0 where
  pub slave_sockets : List ℕ
  pub p_dict : Node
  pub sent : List (ℕ × Reply)

-- An exception that nothing catches, a write behind an array, a loop.
pub data Halt : Type 0 where
  system_error undefined endless : Halt
  trie_error : TrieErrorType → Halt

pub data Received : Type 0 where
  bytes : Text → Received
  closed failed : Received

-- What `proccess_message_from_client` leaves: the words, the exception, or -1 in `er`.
pub data Answer : Type 0 where
  words : List Word → Answer
  refused : TrieErrorType → Answer
  blank : Answer

-- `sscanf(buffer, "%s", buffer_)`; nothing is read if the word is empty.
pub skip_spaces : Text → Text
skip_spaces [] = []
skip_spaces (c ∷ cs) = let rest = skip_spaces cs in if is_space c then rest else c ∷ cs

pub up_to_space : Text → Text
up_to_space [] = []
up_to_space (c ∷ cs) = let rest = up_to_space cs in if is_space c then [] else c ∷ rest

pub first_word : Text → Word
first_word t = up_to_space (skip_spaces (c_string t))

-- What follows if the word is there; `buffer_` has room for 255 characters and the NUL.
pub look_up : Node → Word → Result Halt Answer
look_up p_dict w = if ltb 255 (length w) then err undefined else elim (get_words p_dict w) [
  | err e ↦ ok (refused e)
  | ok none ↦ err endless
  | ok (some ws) ↦ ok (words ws)
]

pub proccess_message_from_client : Node → Text → Result Halt Answer
proccess_message_from_client p_dict buffer = elim (first_word buffer) [
  | [] ↦ ok blank
  | c ∷ cs ↦ look_up p_dict (c ∷ cs)
]

pub send_message_to_client : ℕ → Reply → Server → Server
send_message_to_client fd r s = record s { sent = s.sent ++ (fd, r) ∷ [] }

-- The `for` over the words; "OK: ", the line break and the NUL are six characters.
pub send_words : ℕ → List Word → Server → Result Halt Server
send_words fd [] s = ok s
send_words fd (w ∷ ws) s =
    let rest = send_words fd ws (send_message_to_client fd (ok_word w) s) in
    if leb (length w + 6) max_buf_size then rest else err undefined

pub disconnect_client : (ℕ → Bool) → ℕ → Server → Result Halt Server
disconnect_client epoll_ctl fd s =
    if epoll_ctl fd
    then ok (record s { slave_sockets = erase fd s.slave_sockets })
    else err system_error

-- The text in the buffer, if the event goes on; `buffer[recv_size] = 0` needs room behind the text.
pub recv_message_from_client :
    (ℕ → Bool) → Received → ℕ → Server → Result Halt (Option Text × Server)
recv_message_from_client epoll_ctl (bytes t) fd s =
    if ltb (length t) max_buf_size then ok (some t, s) else err undefined
recv_message_from_client epoll_ctl closed fd s =
    disconnect_client epoll_ctl fd s >>= λ s'. ok (none, s')
recv_message_from_client epoll_ctl failed fd s = err system_error

pub send_answer : ℕ → Answer → Server → Result Halt Server
send_answer fd (words ws) s = send_words fd ws (send_message_to_client fd ok_line s)
send_answer fd (refused e) s = ok (send_message_to_client fd (fail e) s)
send_answer fd blank s = ok s

-- `hup` is `event.events & EPOLLHUP`.
pub process_client_event : (ℕ → Bool) → Received → (hup : Bool) → ℕ → Server → Result Halt Server
process_client_event epoll_ctl r hup fd s =
    recv_message_from_client epoll_ctl r fd s >>= λ (text, s'). elim text [
      | none ↦ ok s'
      | some t ↦ proccess_message_from_client s'.p_dict t >>= λ a.
          send_answer fd a s' >>= λ s''. if hup then disconnect_client epoll_ctl fd s'' else ok s''
    ]

-- The loop of `process_master_event`, along the sockets that `accept` gives until `EAGAIN`.
pub process_master_event : (ℕ → Bool) → List ℕ → Server → Result Halt Server
process_master_event epoll_ctl [] s = ok s
process_master_event epoll_ctl (slave_socket ∷ rest) s =
    let next = process_master_event epoll_ctl rest (
      send_message_to_client slave_socket welcome
        (record s { slave_sockets = insert slave_socket s.slave_sockets })) in
    if epoll_ctl slave_socket then next else err system_error

-- An event of a round of `start`.
pub data Event : Type 0 where
  master : List ℕ → Event
  client : Received → (hup : Bool) → ℕ → Event

pub process_events : (ℕ → Bool) → List Event → Server → Result Halt Server
process_events epoll_ctl [] s = ok s
process_events epoll_ctl (master sockets ∷ es) s =
    process_master_event epoll_ctl sockets s >>= process_events epoll_ctl es
process_events epoll_ctl (client r hup fd ∷ es) s =
    process_client_event epoll_ctl r hup fd s >>= process_events epoll_ctl es

-- The file is read again if it was changed after `now`.
pub reload : (st_mtime now : ℕ) → List Word → Server → Result Halt Server
reload st_mtime now lines s =
    if ltb now st_mtime
    then elim (new_trie lines) [ err e ↦ err (trie_error e) | ok t ↦ ok (record s { p_dict = t }) ]
    else ok s

-- A round of `start`.
pub round : (ℕ → Bool) → (st_mtime now : ℕ) → List Word → List Event → Server → Result Halt Server
round epoll_ctl st_mtime now lines es s =
    reload st_mtime now lines s >>= process_events epoll_ctl es
