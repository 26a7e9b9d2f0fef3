-- ===== src/Posix/Worker/HandOver/Tests.antt =====
-- p6: a connection that went to a worker and was welcomed there.
use sphere_multithreading_cp.Prelude.{
  List, Option, [], insert, map, none, ok, pos, pos_part, refl, some, true, ℕ, ◌++◌, ◌+◌, ◌∷◌, ◌≡◌,
}
use sphere_multithreading_cp.Kernel.{Call, accept, rand, Packet, Trace, exec, set_nonblock}
use sphere_multithreading_cp.Posix.Routine.{
  arrived, renamed, control_of, sock_fd_write, sock_fd_read, read_control,
}
use sphere_multithreading_cp.Posix.Server.{Server, process_events, take_slave, pass_on}
use sphere_multithreading_cp.Posix.Server.{process_master_event as master_event}
use sphere_multithreading_cp.Table.{update}
use sphere_multithreading_cp.Posix.Worker.{
  Worker, Buffer, received, welcome, Scan, process_master_event,
}
use sphere_multithreading_cp.Posix.Worker.HandOver.{
  take_passed, sent_to, System, accepts, takes, Reach, here, next, fresh,
}
use sphere_multithreading_cp.Posix.Worker.HandOver.Welcomes.{welcomed}
use sphere_multithreading_cp.Posix.Worker.HandOver.Handed.{payloads, welcomed-sent_to}

abbrev os : Trace → Call → Option ℕ
os tr (accept s) = some 9
os tr rand = some 6
os tr c = some 0

abbrev server : Server
server = record { master_socket = 3; master_fd = 4; fd_passing_writers = 20 ∷ 21 ∷ 22 ∷ 23 ∷ [] }

abbrev writer : ℕ → ℕ
writer i = 20 + i

abbrev name : ℕ → ℕ → ℕ
name i fd = fd + 100

abbrev scan : Buffer → Scan
scan b = record { n_args = pos 0; cmd = []; key = pos 0; ttl = pos 0; value = pos 0 }

abbrev idle : Worker
idle = record {
  slave_sockets = [];
  buffer = received [];
  hash_table = record {
    p_table = λ i. none;
    free_node = none;
    p_data = λ i. record {
      stored = record { key = pos 0; value = pos 0; ttl = pos 0; t_death = pos 0 };
      n_prev = none;
      n_next = none;
    };
  };
  semids = λ i. 1;
  sent = [];
}

abbrev accepted : System
accepted = record (fresh (λ i. idle)) { calls = (exec os (process_events (3 ∷ []) server) []).1 }

abbrev message : Packet
message = record { bytes = 49 ∷ []; msg_control = control_of (some 9) }

abbrev greeter : Worker
greeter = record idle { slave_sockets = insert 109 []; sent = (109, welcome) ∷ [] }

abbrev taken : System
taken = record accepted {
  read = update accepted.read 2 (message ∷ []);
  worker = update accepted.worker 2 greeter;
}

arrives : sent_to 22 accepted.calls ≡ message ∷ []
unfolding process_events master_event take_slave pass_on set_nonblock sock_fd_write control_of exec
arrives = refl

greets : take_passed (λ fd. true) (arrived (renamed (name 2) message)) idle ≡ ok greeter
unfolding take_passed process_master_event sock_fd_read read_control control_of
greets = refl

reached : Reach (λ k. pos_part k) scan (λ fd. true) writer name server (fresh (λ i. idle)) taken
reached = next (next here (accepts os (3 ∷ []))) (takes 2 message [] arrives greets)

welcomed-sent_to_example :
    (unread : List Packet) × (sent_to (writer 2) taken.calls ≡ unread ++ taken.read 2)
    × (welcomed (taken.worker 2).sent ≡ map (name 2) (payloads (taken.read 2)))
welcomed-sent_to_example =
    welcomed-sent_to (λ k. pos_part k) scan (λ fd. true) writer name server (λ i. idle) 2 reached
