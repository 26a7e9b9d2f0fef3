-- ===== src/Posix/Worker/Laws.antt =====
-- The worker of p6 against a server of one map.
use sphere_multithreading_cp.Prelude.{
  ==_refl, Bool, Bool-cases, List, Option, Option-cases, Result, ap, arith, false, fun_ext,
  if◌then◌else◌, inl, inr, length, ltb, ltb_ℤ, none, ok, pos, refl, some, true, ℕ, ℤ, ◌+◌, ◌-◌, ◌/◌,
  ◌<◌, ◌==◌, ◌>>=◌, ◌∷◌, ◌≡◌, ◌⊎◌,
}
use sphere_multithreading_cp.Table.{update, get_hash}
use sphere_multithreading_cp.Table.Model.Refine.{Represents, Implements}
use sphere_multithreading_cp.Posix.{HashTableErrorType, Entry}
use sphere_multithreading_cp.Posix.Laws.{
  Map, map_set, map_get, map_del, set-map_set, get-map_get, del-map_del,
}
use sphere_multithreading_cp.Posix.Worker.{
  num_sections, cmd_size, OpType, get_op, set_op, del_op, Query, Buffer, received, wrong_command,
  nothing, refused, accepted, Worker, sem_down, sem_up, Scan, op_of, perform, answer, process_query,
  execute_query, send_message_to_client, bytes, recv_message_from_client, serve,
  process_client_event,
}

-- The specification: the outcome of a query on the map.
pub map_perform : (now later : ℤ) → Query → Map → Result HashTableErrorType ℤ × Map
map_perform now later q m = elim q.op [
  | set_op ↦ let (r, m') = map_set now q.key q.ttl q.value m in ((r >>= λ _. ok q.value), m')
  | get_op ↦ map_get now later q.key m
  | del_op ↦ let (r, m') = map_del now q.key m in ((r >>= λ _. ok q.value), m')
]

-- The query that a scan with a known command stands for.
abbrev query_of : ℕ → Scan → OpType → Query
query_of fd s op = record { key = s.key; value = s.value; from = fd; ttl = s.ttl; op = op }

-- What the server of one map replies, and the map it goes on with.
pub respond : (now later : ℤ) → ℕ → Scan → Map → Option Buffer × Map
respond now later fd s m =
    if ltb_ℤ (pos 0) s.n_args
    then elim (op_of s) [
      | none ↦ (some wrong_command, m)
      | some op ↦
          let o = map_perform now later (query_of fd s op) m in
          (some (answer (query_of fd s op) o.0), o.1)
    ]
    else (none, m)

pub sent_after : ℕ → Option Buffer → List (ℕ × Buffer) → List (ℕ × Buffer)
sent_after fd none l = l
sent_after fd (some b) l = (fd, b) ∷ l

op_cases : (o : OpType) → (o ≡ set_op) ⊎ (o ≡ get_op) ⊎ (o ≡ del_op)
op_cases set_op = inl refl
op_cases get_op = inr (inl refl)
op_cases del_op = inr (inr refl)

sem_up-sem_down : (i : ℕ) (s : ℕ → ℕ) → i < num_sections → sem_up i (update s i (s i + 1)) ≡ ok s
unfolding sem_up
sem_up-sem_down i s l =
    let e : update (update s i (s i + 1)) i (s i + 1 - 1) ≡ s = fun_ext (λ j. ground arith) in
    let inside : ltb i num_sections ≡ true = ground arith in
    let up : ((s i + 1) == 0) ≡ false = ground arith in rw (inside, ==_refl i, up) (ap ok e)

module _ (hash_int : ℤ → ℕ) where
  perform-map_perform :
      (now later : ℤ) (q : Query) (w : Worker) (m : Map)
      → Represents Entry.key hash_int w.hash_table m
      → Implements Entry.key hash_int
          (map_perform now later q m)
          (perform hash_int now later q w.hash_table)
  unfolding perform map_perform
  perform-map_perform now later q w m r = elim (op_cases q.op) [
    | inl e ↦
        let (t, o, r') = set-map_set hash_int w.hash_table m r now q.key q.ttl q.value in
        rw (e, o) (t, refl, r')
    | inr (inl e) ↦ rw e (get-map_get hash_int w.hash_table m r now later q.key)
    | inr (inr e) ↦
        let (t, o, r') = del-map_del hash_int w.hash_table m r now q.key in rw (e, o) (t, refl, r')
  ]

  -- If the section of the key has a semaphore, `execute_query` comes to its end, does to the table
  -- what the query means for the map, puts the reply in the buffer and leaves everything else as
  -- it was, the semaphores included.
  pub execute_query-map_perform :
      (now later : ℤ) (q : Query) (w : Worker) (m : Map)
      → Represents Entry.key hash_int w.hash_table m
      → get_hash hash_int q.key / num_sections < num_sections
      → (t : _) × (execute_query hash_int now later q w
          ≡ ok (record w { hash_table = t; buffer = answer q (map_perform now later q m).0 }))
        × Represents Entry.key hash_int t (map_perform now later q m).1
  unfolding execute_query sem_down
  execute_query-map_perform now later q w m r l =
      let (t, o, r') = perform-map_perform now later q w m r in
      let i = get_hash hash_int q.key / num_sections in
      let inside : ltb i num_sections ≡ true = ground arith in
      rw (inside, o, sem_up-sem_down i w.semids l) (t, refl, r')

  module _ (sscanf : Buffer → Scan) (epoll_ctl : ℕ → Bool) where
    -- What a client sends that stays connected is answered as the server of one map does: nothing
    -- is sent for a blank message, one reply to the sender otherwise. The sockets and semaphores are
    -- as before. The first word must fit into `cmd`, and the section of the key must have a semaphore.
    pub process_client_event-respond :
        (now later : ℤ) (fd : ℕ) (text : List ℕ) (w : Worker) (m : Map)
        → Represents Entry.key hash_int w.hash_table m
        → length (sscanf (received text)).cmd < cmd_size
        → get_hash hash_int (sscanf (received text)).key / num_sections < num_sections
        → (w' : Worker) × (process_client_event hash_int sscanf epoll_ctl now later
              (bytes text)
              false
              fd
              w
            ≡ ok w')
          × Represents Entry.key hash_int w'.hash_table
              (respond now later fd (sscanf (received text)) m).1
          × (w'.sent ≡ sent_after fd (respond now later fd (sscanf (received text)) m).0 w.sent)
          × (w'.slave_sockets ≡ w.slave_sockets)
          × (w'.semids ≡ w.semids)
    unfolding process_client_event recv_message_from_client serve process_query respond sent_after
        send_message_to_client
    process_client_event-respond now later fd text w m r short l =
        let s = sscanf (received text) in
        let fits : ltb (length s.cmd) cmd_size ≡ true = ground arith in
        let w0 : Worker = record w { buffer = received text } in
        elim (Bool-cases (ltb_ℤ (pos 0) s.n_args)) [
          | inr no_args ↦
              let p : process_query sscanf fd w0 ≡ (nothing, w0) =
                rw (process_query, no_args) refl in
              rw (process_client_event, recv_message_from_client, serve, p, respond, no_args)
                (_, refl, r, refl, refl, refl)
          | inl some_args ↦ elim (Option-cases (op_of s)) [
            | inl unknown ↦
                let p : process_query sscanf fd w0
                    ≡ (refused, record w { buffer = wrong_command }) =
                  rw (process_query, some_args, fits, unknown) refl in
                rw
                  (
                    process_client_event, recv_message_from_client, serve, p, respond, some_args,
                    fits, unknown,
                  )
                  (_, refl, r, refl, refl, refl)
            | inr (op, known) ↦
                let p : process_query sscanf fd w0 ≡ (accepted (query_of fd s op), w0) =
                  rw (process_query, some_args, fits, known) refl in
                let (t, e, r') = execute_query-map_perform now later (query_of fd s op) w0 m r l in
                rw
                  (
                    process_client_event, recv_message_from_client, serve, p, respond, some_args,
                    fits, known, e,
                  )
                  (_, refl, r', refl, refl, refl)
          ]
        ]
