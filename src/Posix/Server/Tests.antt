-- ===== src/Posix/Server/Tests.antt =====
-- p6: a server that accepts one connection and passes it to the third worker.
use sphere_multithreading_cp.Prelude.{List, Option, [], ok, refl, some, ℕ, ◌+◌, ◌∷◌, ◌≡◌}
use sphere_multithreading_cp.Kernel.{
  Call, socket, epoll_create, accept, rand, sendmsg, Packet, Trace, exec, open_server, set_nonblock,
}
use sphere_multithreading_cp.Posix.Routine.{
  arrived, renamed, sock_fd_write, sock_fd_read, sock_fd_read-write,
}
use sphere_multithreading_cp.Posix.Server.{Server, new_server, start}
use sphere_multithreading_cp.Posix.Server.Passes.{
  Offers, lost, passed, positive, taken, start-Passes,
}

abbrev os : Trace → Call → Option ℕ
os tr socket = some 3
os tr epoll_create = some 4
os tr (accept s) = some 9
os tr rand = some 6
os tr c = some 0

abbrev writers : List ℕ
writers = 20 ∷ 21 ∷ 22 ∷ 23 ∷ []

abbrev server : Server
server = record { master_socket = 3; master_fd = 4; fd_passing_writers = writers }

made : exec os (new_server 3100 writers) [] ≡ (ok server, (exec os (new_server 3100 writers) []).1)
unfolding new_server open_server set_nonblock exec
made = refl

-- The system took one connection and gave it to a worker.
abbrev after_round : Trace
after_round =
    (exec os (start (some (3 ∷ []) ∷ []) server) (exec os (new_server 3100 writers) []).1).1

start-Passes_example :
    Offers (4 ∷ 3 ∷ []) writers after_round
    × (lost after_round ≡ [] → passed after_round ≡ positive (taken after_round))
start-Passes_example =
    start-Passes os 3100 writers (some (3 ∷ []) ∷ []) server
      (exec os (new_server 3100 writers) []).1 refl made

sock_fd_read-write_example :
    (p : Packet) × ((exec os (sock_fd_write 22 (49 ∷ []) (some 9)) []).1
      ≡ (sendmsg 22 p, os [] (sendmsg 22 p)) ∷ [])
    × (sock_fd_read 1 (arrived (renamed (λ n. n + 100) p)) ≡ ok (1, some 109))
sock_fd_read-write_example = sock_fd_read-write os 22 (49 ∷ []) (some 9) (λ n. n + 100) 1 []
