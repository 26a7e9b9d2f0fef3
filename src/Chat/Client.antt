-- ===== src/Chat/Client.antt =====
-- p2: the client of the chat (p2/Client.cpp). What `select`, `fgets` and `recv` give is an argument.
pub mod Lines
pub mod Talk
use mathlib.Core.List.{flatten}
use sphere_multithreading_cp.Prelude.{
  Bool, List, Option, Result, [], err, if◌then◌else◌, last?, length, none, not, ok, some, ◌&&◌,
  ◌++◌, ◌==◌, ◌>>=◌, ◌∷◌,
}
use sphere_multithreading_cp.Shell.{Text}
use sphere_multithreading_cp.Chat.{
  Message, no_message, append, clear, size, printed, c_string, Received, bytes, closed, failed,
  ends_line,
}

-- `messages[0]`, `messages[1]`, what was sent to the server and what was printed.
pub record Client : Type 0 where
  pub outgoing : Message
  pub incoming : Message
  pub sent : List Text
  pub output : Text

-- An exception, a read outside of the buffer, a wait for data.
pub data Halt : Type 0 where
  system_error not_answering undefined blocked : Halt

abbrev pub push : Text → Client → Client
push part c = record c { outgoing = append part c.outgoing }

-- The body of the loop of `recv_message_from_stdin` for what `fgets` gave; `go_on` are the calls that
-- follow if it does not break.
pub take_part : Text → (go_on : Result Halt Client) → Client → Result Halt Client
take_part part go_on c = elim (last? part) [
  | none ↦ err undefined
  | some x ↦
      if (length part == 1) && (x == 10) then ok c else if x == 10 then ok (push part c) else go_on
]

-- The loop, along what the calls of `fgets` give; `none` is NULL.
pub recv_message_from_stdin : List (Option Text) → Client → Result Halt Client
recv_message_from_stdin [] c = err blocked
recv_message_from_stdin (none ∷ rs) c = ok c
recv_message_from_stdin (some buffer ∷ rs) c =
    let rest = recv_message_from_stdin rs (push (c_string buffer) c) in
    take_part (c_string buffer) rest c

-- The loop of `recv_message_from_srv`, along what the calls of `recv` give.
pub recv_message_from_srv : List Received → Client → Result Halt Client
recv_message_from_srv [] c = err blocked
recv_message_from_srv (bytes t again ∷ rs) c =
    let c' = record c { incoming = append t c.incoming } in
    let rest = recv_message_from_srv rs c' in
    if ends_line t then ok c' else if again then ok c' else rest
recv_message_from_srv (closed ∷ rs) c = err not_answering
recv_message_from_srv (failed again ∷ rs) c =
    let rest = recv_message_from_srv rs c in if again then ok c else rest

-- `writable` is `FD_ISSET(server_fd, &select_fd[1])`.
pub send_message : (writable : Bool) → Client → Client
send_message writable c =
    if writable && not (size c.outgoing == 0)
    then record c { outgoing = clear c.outgoing; sent = c.sent ++ c.outgoing.blocks }
    else c

-- What a call of `select` and the calls behind it give.
pub record Round : Type 0 where
  pub is_failed : Bool
  pub from_stdin : Option (List (Option Text))
  pub writable : Bool
  pub from_server : Option (List Received)

pub read_stdin : Round → Client → Result Halt Client
read_stdin r c = elim r.from_stdin [
  | none ↦ ok c
  | some lines ↦ recv_message_from_stdin lines c >>= λ c'. ok (send_message r.writable c')
]

pub read_server : Round → Client → Result Halt Client
read_server r c = elim r.from_server [
  | none ↦ ok c
  | some parts ↦ recv_message_from_srv parts c >>= λ c'.
      ok (record c' { incoming = clear c'.incoming; output = c'.output ++ printed c'.incoming })
]

-- The body of the loop of `start`.
pub round : Round → Client → Result Halt Client
round r c = if r.is_failed then err system_error else (read_stdin r c >>= read_server r)

-- The loop of `start`, along what the calls give.
pub start : List Round → Client → Result Halt Client
start [] c = ok c
start (r ∷ rs) c = round r c >>= start rs
