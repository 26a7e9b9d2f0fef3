-- ===== src/Sysv/Protocol/Server/Exchange.antt =====
-- p5: the server, its queue and the worker processes (p5/Server.cpp, p5/main_worker.cpp) side by side.
use sphere_multithreading_cp.Prelude.{
  All, Bool, List, Option, [], drop, length, map, none, ok, some, take, ℕ, ℤ, ◌++◌, ◌+◌, ◌-◌, ◌∷◌,
  ◌≡◌, ◌≢◌,
}
use sphere_multithreading_cp.Sysv.{Store}
use sphere_multithreading_cp.Sysv.Protocol.{Message, Buffer, Scan, reply, work}
use sphere_multithreading_cp.Sysv.Protocol.Server.{
  Server, Received, process_client_event, process_master_event, process_reply,
}

-- `queue` of the server holds all messages in the order they were sent, those of the workers too.
-- `workers` has what each of them works on; `asked` the clients whose queries went to the queue, and
-- `answered` those to whom an answer of a worker was sent, as often as it was sent, the last one first.
pub record System : Type 0 where
  pub server : Server
  pub workers : List (Option Message)
  pub asked : List ℕ
  pub answered : List ℕ

-- The messages that an event of a client has put into the queue.
abbrev pub added : (s t : Server) → List Message
added s t = drop (length s.queue) t.queue

-- Whom the sendings of a step went to, the last one first.
abbrev pub sent_in : (s t : Server) → List ℕ
sent_in s t = map (λ p. p.0) (take (length t.sent - length s.sent) t.sent)

-- `rand` and the message are what `rand()` and the local variable give; what a worker finds in shared
-- memory and in the semaphores is what the others left there.
module _ {S : Type 0} (hash_int : ℤ → ℕ) (semop : ℕ → ℤ → S → Option S) (sscanf : Buffer → Scan)
    (epoll_ctl : ℕ → Bool) where
  pub data Step (s s' : System) : Type 0 where
    accepts :
        (sockets : List ℕ) (t : Server)
        → process_master_event epoll_ctl sockets s.server ≡ ok t
        → s' ≡ record s { server = t }
        → Step s s'
    hears :
        (rand : ℕ) (msg : Message) (r : Received) (hup : Bool) (fd : ℕ) (t : Server)
        → process_client_event sscanf epoll_ctl rand msg r hup fd s.server ≡ ok t
        → s' ≡ record s { server = t; asked = map (λ _. fd) (added s.server t) ++ s.asked }
        → Step s s'
    takes :
        (m : Message) (before behind : List Message) (front back : List (Option Message))
        → s.server.queue ≡ before ++ m ∷ behind
        → All (λ x. x.mtype ≢ m.mtype) before
        → s.workers ≡ front ++ none ∷ back
        → m.mtype ≡ length front + 2
        → s' ≡ record s {
          server = record s.server { queue = before ++ behind };
          workers = front ++ some m ∷ back;
        }
        → Step s s'
    works :
        (m r : Message) (front back : List (Option Message)) (t t' : Store) (sems sems' : S)
        → s.workers ≡ front ++ some m ∷ back
        → work hash_int semop m t sems ≡ ok (reply r t' sems')
        → s' ≡ record s {
          server = record s.server { queue = s.server.queue ++ r ∷ [] };
          workers = front ++ none ∷ back;
        }
        → Step s s'
    answers :
        (m : Message) (before behind : List Message) (t : Server)
        → s.server.queue ≡ before ++ m ∷ behind
        → All (λ x. x.mtype ≢ 1) before
        → m.mtype ≡ 1
        → t ≡ process_reply (some m) (record s.server { queue = before ++ behind })
        → s' ≡ record s { server = t; answered = sent_in s.server t ++ s.answered }
        → Step s s'

  pub data Reach (s : System) : System → Type 0 where
    here : Reach s s
    next : {t u : System} → Reach s t → Step t u → Reach s u

-- Nothing was asked yet.
abbrev pub new_system : Server → System
new_system s = record {
  server = record s { queue = [] };
  workers = none ∷ none ∷ none ∷ none ∷ [];
  asked = [];
  answered = [];
}
