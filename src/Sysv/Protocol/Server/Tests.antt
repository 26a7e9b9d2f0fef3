-- ===== src/Sysv/Protocol/Server/Tests.antt =====
-- p5: a client asks for a key that is not there; the worker 0 takes the query, looks, and the server
-- passes the answer on.
use sphere_multithreading_cp.Prelude.{
  Bool, Option, [], eq_ℤ, false, none, pos, refl, some, true, ℕ, ℤ, ◌+◌, ◌∷◌, ◌≡◌,
}
use sphere_multithreading_cp.Shell.{Text, text_eq}
use sphere_multithreading_cp.Table.{find_from, find_node, get_hash}
use sphere_multithreading_cp.Sysv.{Store, get}
use sphere_multithreading_cp.Sysv.Protocol.{
  get_op, Message, Buffer, received, fail_no_key, Scan, op_of, process_message_from_client,
  process_message_from_worker, settle, sem_down, sem_up, guarded, work,
}
use sphere_multithreading_cp.Sysv.Protocol.Server.{
  Server, bytes, recv_message_from_client, ask, process_client_event, process_reply,
}
use sphere_multithreading_cp.Sysv.Protocol.Server.Exchange.{
  System, Step, hears, takes, works, answers, here, next, new_system,
}
use sphere_multithreading_cp.Sysv.Protocol.Server.Adds.{clients}
use sphere_multithreading_cp.Sysv.Protocol.Server.Answers.{count, clients_of, asked-answered}

abbrev hash0 : ℤ → ℕ
hash0 _ = 0

abbrev free : ℕ → ℤ → ℕ → Option ℕ
free i n s = some s

abbrev get_7 : Text
get_7 = 103 ∷ 101 ∷ 116 ∷ []

abbrev scanned : Buffer → Scan
scanned b = record { n_args = pos 2; cmd = get_7; key = pos 7; value = pos 0 }

abbrev agrees : ℕ → Bool
agrees fd = true

abbrev server0 : Server
server0 = record { slave_sockets = 5 ∷ []; buffer = received []; queue = []; sent = [] }

abbrev local : Message
local = record { mtype = 0; op = get_op; key = pos 0; value = pos 0; err_code = 0; from = 0 }

abbrev query : Message
query = record { mtype = 2; op = get_op; key = pos 7; value = pos 0; err_code = 0; from = 5 }

abbrev no_such_key : Message
no_such_key = record { mtype = 1; op = get_op; key = pos 7; value = pos 0; err_code = 1; from = 5 }

abbrev heard : System
heard = record {
  server = record {
    slave_sockets = 5 ∷ [];
    buffer = received get_7;
    queue = query ∷ [];
    sent = [];
  };
  workers = none ∷ none ∷ none ∷ none ∷ [];
  asked = 5 ∷ [];
  answered = [];
}

abbrev taken : System
taken = record heard {
  server = record heard.server { queue = [] };
  workers = some query ∷ none ∷ none ∷ none ∷ [];
}

abbrev worked : System
worked = record heard { server = record heard.server { queue = no_such_key ∷ [] } }

abbrev finished : System
finished = record heard {
  server = record heard.server {
    queue = [];
    buffer = fail_no_key (pos 7);
    sent = (5, fail_no_key (pos 7)) ∷ [];
  };
  answered = 5 ∷ [];
}

abbrev store0 : Store
store0 = record {
  p_table = λ _. none;
  free_node = none;
  p_data =
      λ _. record { stored = record { key = pos 0; value = pos 0 }; n_prev = none; n_next = none };
}

to_heard : Step hash0 free scanned agrees (new_system server0) heard
unfolding process_client_event recv_message_from_client ask process_message_from_client op_of
    text_eq eq_ℤ
to_heard = hears 0 local (bytes get_7) false 5 heard.server refl refl

to_taken : Step hash0 free scanned agrees heard taken
to_taken = takes query [] [] [] (none ∷ none ∷ none ∷ []) refl tt refl refl refl

to_worked : Step hash0 free scanned agrees taken worked
unfolding work guarded sem_down sem_up get find_node find_from get_hash settle eq_ℤ
to_worked = works query no_such_key [] (none ∷ none ∷ none ∷ []) store0 store0 0 0 refl refl refl

to_finished : Step hash0 free scanned agrees worked finished
unfolding process_reply process_message_from_worker
to_finished = answers no_such_key [] [] finished.server refl tt refl refl refl

asked-answered_example :
    count 5 finished.asked
    ≡ count 5 finished.answered
      + (count 5 (clients finished.server.queue) + count 5 (clients_of finished.workers))
asked-answered_example =
    asked-answered hash0 free scanned agrees server0 finished
      (next (next (next (next here to_heard) to_taken) to_worked) to_finished) 5
