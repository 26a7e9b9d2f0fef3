-- ===== src/Posix/Routine.antt =====
-- p6: a descriptor on its way from one process to another (`sock_fd_write` and `sock_fd_read` of
-- p6/Routine.cpp). What `recvmsg` gives is an argument.
use mathlib.Core.Option
use sphere_multithreading_cp.Prelude.{
  List, Option, Result, err, if◌then◌else◌, length, none, ok, refl, some, take, ℕ, ◌==◌, ◌>>=◌, ◌∷◌,
  ◌≡◌,
}
use sphere_multithreading_cp.Kernel.{
  sol_socket, other_level, scm_rights, other_kind, Control, Packet, Prog, Call, Trace, exec,
  sendmsg, ask,
}

-- `sizeof(int)`
abbrev pub int_size : ℕ
int_size = 4

-- The control part; `none` is the descriptor -1.
unfoldable pub control_of : Option ℕ → Option Control
control_of none = none
control_of (some fd) =
    some (record { size = int_size; cmsg_level = sol_socket; cmsg_type = scm_rights; payload = fd })

unfoldable pub sock_fd_write : ℕ → List ℕ → Option ℕ → Prog (Option ℕ)
unfolding control_of
sock_fd_write sock buf fd = ask (sendmsg sock (record { bytes = buf; msg_control = control_of fd }))

-- What `recvmsg` gives: a message, or -1 with the `errno` EAGAIN or another.
pub data Arrival : Type 0 where
  arrived : Packet → Arrival
  again failed : Arrival

-- `exit(1)`, and a control part that was never written.
pub data Stop : Type 0 where
  exited undefined : Stop

unfoldable pub read_control : Option Control → Result Stop (Option ℕ)
read_control none = ok none
read_control (some c) =
    if c.size == int_size
    then elim c.cmsg_level [
      | other_level ↦ err exited
      | sol_socket ↦ elim c.cmsg_type [ other_kind ↦ err exited | scm_rights ↦ ok (some c.payload) ]
    ]
    else ok none

-- With an address for the descriptor, as it is always called: the size and the descriptor. No more than
-- `bufsize` bytes come.
unfoldable pub sock_fd_read : (bufsize : ℕ) → Arrival → Result Stop (ℕ × Option ℕ)
unfolding read_control
sock_fd_read bufsize failed = err exited
sock_fd_read bufsize again = err undefined
sock_fd_read bufsize (arrived p) =
    read_control p.msg_control >>= λ fd. ok (length (take bufsize p.bytes), fd)

-- The system gives the receiver a name of its own for what is passed.
abbrev pub renamed : (ℕ → ℕ) → Packet → Packet
renamed name p = record p {
  msg_control = Option.map (λ (c : Control). record c { payload = name c.payload }) p.msg_control;
}

-- A descriptor that was written comes out at the reader, under the name that the system gives it
-- there; and so does the absence of one.
pub sock_fd_read-write :
    (os : Trace → Call → Option ℕ) (sock : ℕ) (buf : List ℕ) (fd : Option ℕ) (name : ℕ → ℕ)
    (bufsize : ℕ) (tr : Trace)
    → (p : Packet) × ((exec os (sock_fd_write sock buf fd) tr).1
        ≡ (sendmsg sock p, os tr (sendmsg sock p)) ∷ tr)
      × (sock_fd_read bufsize (arrived (renamed name p))
          ≡ ok (length (take bufsize buf), Option.map name fd))
unfolding sock_fd_write sock_fd_read exec
sock_fd_read-write os sock buf none name bufsize tr =
    (record { bytes = buf; msg_control = none }, refl, refl)
sock_fd_read-write os sock buf (some fd) name bufsize tr =
    (record { bytes = buf; msg_control = control_of (some fd) }, refl, refl)
