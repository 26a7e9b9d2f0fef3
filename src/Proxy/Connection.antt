-- ===== src/Proxy/Connection.antt =====
-- `Connection` of p3/proxy.h and p3/proxy.cpp. An asynchronous operation is pending until the
-- system completes it; then the handler that was bound to it runs. A buffer is a function from
-- positions. The four logs record what the system took from and gave to the two peers.
pub mod Balanced
pub mod Active
pub mod Order
pub mod Pieces
mod Tests
use sphere_multithreading_cp.Prelude.{
  Bool, List, Option, [], false, if◌then◌else◌, length, ltb, map, none, some, suc, true, zero, ℕ,
  ◌++◌, ◌<◌, ◌==◌, ◌∷◌, ◌≡◌, ◌≤◌,
}
use mathlib.Core.Option
use sphere_multithreading_cp.Shell.{Text}

abbrev pub buf_size : ℕ
buf_size = 1024

pub data Op : Type 0 where
  connect read_server read_client : Op
  write_server write_client : ℕ → Op

pub record Connection : Type 0 where
  pub server_buffer : ℕ → ℕ
  pub client_buffer : ℕ → ℕ
  pub is_active : Bool
  pub pending : List Op
  pub from_server : Text
  pub to_client : Text
  pub from_client : Text
  pub to_server : Text

-- The first bytes of a buffer.
pub bytes_from : ℕ → ℕ → (ℕ → ℕ) → Text
bytes_from i zero buf = []
bytes_from i (suc n) buf = buf i ∷ bytes_from (suc i) n buf

abbrev pub bytes : ℕ → (ℕ → ℕ) → Text
bytes n buf = bytes_from 0 n buf

-- A receive writes the text to the front of the buffer.
pub fill : ℕ → Text → (ℕ → ℕ) → ℕ → ℕ
fill i [] buf j = buf j
fill i (c ∷ cs) buf j = if j == i then c else fill (suc i) cs buf j

-- `memset(buffer, 0, BUF_SIZE)`
pub zeros : (ℕ → ℕ) → ℕ → ℕ
zeros buf j = if ltb j buf_size then 0 else buf j

-- `strlen`; `none` is a read behind the end of the buffer.
pub strlen_from : ℕ → ℕ → (ℕ → ℕ) → Option ℕ
strlen_from zero i buf = none
strlen_from (suc fuel) i buf =
    let rest = strlen_from fuel (suc i) buf in if buf i == 0 then some i else rest

abbrev pub strlen : (ℕ → ℕ) → Option ℕ
strlen buf = strlen_from buf_size 0 buf

abbrev pub post : Op → Connection → Connection
post o c = record c { pending = o ∷ c.pending }

abbrev pub do_read_from_server : Connection → Connection
do_read_from_server c = post read_server c

abbrev pub do_read_from_client : Connection → Connection
do_read_from_client c = post read_client c

abbrev pub do_write_to_server : ℕ → Connection → Connection
do_write_to_server size c = post (write_server size) c

abbrev pub do_write_to_client : ℕ → Connection → Connection
do_write_to_client size c = post (write_client size) c

pub start : Connection → Connection
start c = post connect (record c { is_active = true })

-- `if (buffer[0]) do_write(strlen(buffer))`
pub write_rest : (ℕ → Op) → (ℕ → ℕ) → Connection → Option Connection
write_rest o buf c =
    if buf 0 == 0 then some c else elim (strlen buf) [ none ↦ none | some n ↦ some (post (o n) c) ]

abbrev pub close : Connection → Connection
close c = record c { is_active = false }

-- `error` is the value of the error code, `none` if there is none; 2 is the end of the stream.
pub stop : Option ℕ → Connection → Option Connection
stop none c = some (close c)
stop (some value) c =
    if value == 2
    then elim (write_rest write_client c.server_buffer c) [
      | none ↦ none
      | some c' ↦ Option.map close (write_rest write_server c.client_buffer c')
    ]
    else some (close c)

pub handle_connect_server : Option ℕ → Connection → Option Connection
handle_connect_server (some e) c = stop (some e) c
handle_connect_server none c = some (do_read_from_server (do_read_from_client c))

pub handle_read_from_server : Option ℕ → ℕ → Connection → Option Connection
handle_read_from_server (some e) size c = stop (some e) c
handle_read_from_server none size c =
    some (if size == 0 then do_read_from_client c else do_write_to_client size c)

pub handle_write_to_server : Option ℕ → Connection → Option Connection
handle_write_to_server (some e) c = stop (some e) c
handle_write_to_server none c =
    some (do_read_from_client (record c { client_buffer = zeros c.client_buffer }))

pub handle_read_from_client : Option ℕ → ℕ → Connection → Option Connection
handle_read_from_client (some e) size c = stop (some e) c
handle_read_from_client none size c =
    some (if size == 0 then do_read_from_server c else do_write_to_server size c)

pub handle_write_to_client : Option ℕ → Connection → Option Connection
handle_write_to_client (some e) c = stop (some e) c
handle_write_to_client none c =
    some (do_read_from_server (record c { server_buffer = zeros c.server_buffer }))

-- The handler that an error of a pending operation is given to.
pub handle_error : Op → ℕ → Connection → Option Connection
handle_error connect e c = handle_connect_server (some e) c
handle_error read_server e c = handle_read_from_server (some e) 0 c
handle_error read_client e c = handle_read_from_client (some e) 0 c
handle_error (write_server n) e c = handle_write_to_server (some e) c
handle_error (write_client n) e c = handle_write_to_client (some e) c

-- The operations but for one at some place.
pub data Takes (o : Op) : List Op → List Op → Type 0 where
  first : {os : List Op} → Takes o (o ∷ os) os
  later : {p : Op} {os rest : List Op} → Takes o os rest → Takes o (p ∷ os) (p ∷ rest)

-- `sends m n` tells that a send of `n` bytes may end after `m`. A receive that succeeds has bytes,
-- as many as the buffer holds at most.
module _ (sends : ℕ → ℕ → Type 0) where
  pub data Step (c : Connection) (c' : Connection) : Type 0 where
    connected :
        {os : List Op}
        → Takes connect c.pending os
        → handle_connect_server none (record c { pending = os }) ≡ some c'
        → Step c c'
    got_server :
        {os : List Op} (t : Text)
        → Takes read_server c.pending os
        → 0 < length t
        → length t ≤ buf_size
        → handle_read_from_server none (length t) (record c {
          pending = os;
          server_buffer = fill 0 t c.server_buffer;
          from_server = c.from_server ++ t;
        })
          ≡ some c'
        → Step c c'
    got_client :
        {os : List Op} (t : Text)
        → Takes read_client c.pending os
        → 0 < length t
        → length t ≤ buf_size
        → handle_read_from_client none (length t) (record c {
          pending = os;
          client_buffer = fill 0 t c.client_buffer;
          from_client = c.from_client ++ t;
        })
          ≡ some c'
        → Step c c'
    sent_client :
        {os : List Op} (m n : ℕ)
        → Takes (write_client n) c.pending os
        → sends m n
        → handle_write_to_client none
            (record c { pending = os; to_client = c.to_client ++ bytes m c.server_buffer })
          ≡ some c'
        → Step c c'
    sent_server :
        {os : List Op} (m n : ℕ)
        → Takes (write_server n) c.pending os
        → sends m n
        → handle_write_to_server none
            (record c { pending = os; to_server = c.to_server ++ bytes m c.client_buffer })
          ≡ some c'
        → Step c c'
    error :
        {os : List Op} (o : Op) (e : ℕ)
        → Takes o c.pending os
        → handle_error o e (record c { pending = os }) ≡ some c'
        → Step c c'

  pub data Reach (c : Connection) : Connection → Type 0 where
    here : Reach c c
    next : {d e : Connection} → Reach c d → Step d e → Reach c e
