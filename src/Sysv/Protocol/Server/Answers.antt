-- ===== src/Sysv/Protocol/Server/Answers.antt =====
-- p5: the queries that came through a descriptor and the answers that went to it.
use sphere_multithreading_cp.Prelude.{
  Bool, List, Option, Option-cases, Result, [], arith, drop, err, if◌then◌else◌, inl, inr, length,
  none, ok, refl, some, subst, suc, ℕ, ℤ, ◌++◌, ◌+◌, ◌-◌, ◌/◌, ◌==◌, ◌∷◌, ◌≡◌,
}
use sphere_multithreading_cp.Table.{get_hash}
use sphere_multithreading_cp.Sysv.{Store, HashTableErrorType, no_key, no_memory, Outcome}
use sphere_multithreading_cp.Sysv.Protocol
use sphere_multithreading_cp.Sysv.Protocol.{
  set_op, get_op, del_op, quit_op, num_workers, num_sections, sem_up, sem_down, op_of, OpType,
  Message, Buffer, received, wrong_command, welcome, Halt, blocked, endless, quit, Scan, Verdict,
  nothing, refused, accepted, filled, process_message_from_client, reply, settle, guarded, work,
}
use sphere_multithreading_cp.Sysv.Protocol.Server.{Server, process_reply}
use sphere_multithreading_cp.Sysv.Protocol.Server.Exchange.{
  sent_in, System, Step, accepts, hears, takes, works, answers, Reach, here, next, new_system,
}
use sphere_multithreading_cp.Sysv.Protocol.Server.Adds.{
  clients, Adds, process_client_event-Adds, process_master_event-queue,
}

-- How often a number is in a list.
abbrev pub count : ℕ → List ℕ → ℕ
count c [] = 0
count c (x ∷ xs) = (if x == c then 1 else 0) + count c xs

-- The clients of the messages with the workers.
abbrev pub clients_of : List (Option Message) → List ℕ
clients_of [] = []
clients_of (none ∷ l) = clients_of l
clients_of (some m ∷ l) = m.from ∷ clients_of l

count-append : (c : ℕ) (xs ys : List ℕ) → count c (xs ++ ys) ≡ count c xs + count c ys
count-append c [] ys = omega arith
count-append c (x ∷ xs) ys = omega (arith, count-append c xs ys)

count-clients_middle :
    (c : ℕ) (xs : List Message) (m : Message) (ys : List Message)
    → count c (clients (xs ++ m ∷ ys)) ≡ count c (m.from ∷ []) + count c (clients (xs ++ ys))
count-clients_middle c [] m ys = omega arith
count-clients_middle c (x ∷ xs) m ys = omega (arith, count-clients_middle c xs m ys)

count-clients-append :
    (c : ℕ) (xs ys : List Message)
    → count c (clients (xs ++ ys)) ≡ count c (clients xs) + count c (clients ys)
count-clients-append c [] ys = omega arith
count-clients-append c (x ∷ xs) ys = omega (arith, count-clients-append c xs ys)

count-workers :
    (c : ℕ) (front : List (Option Message)) (m : Message) (back : List (Option Message))
    → count c (clients_of (front ++ some m ∷ back))
      ≡ count c (m.from ∷ []) + count c (clients_of (front ++ none ∷ back))
count-workers c [] m back = omega arith
count-workers c (none ∷ front) m back = count-workers c front m back
count-workers c (some x ∷ front) m back = omega (arith, count-workers c front m back)

drop-append {ℓ} : {A : Type ℓ} (q new : List A) → drop (length q) (q ++ new) ≡ new
drop-append [] new = refl
drop-append (x ∷ q) new = drop-append q new

settle-from : (m : Message) (r : Result HashTableErrorType ℤ) → (settle m r).from ≡ m.from
unfolding settle
settle-from m (ok v) = refl
settle-from m (err no_key) = refl
settle-from m (err no_memory) = refl

module _ {S : Type 0} (hash_int : ℤ → ℕ) (semop : ℕ → ℤ → S → Option S) where
  -- A reply has the client of its query.
  abbrev Replies : ℕ → Result Halt (Protocol.Step S) → Type 0
  Replies c (ok (reply r t s)) = r.from ≡ c
  Replies c (ok quit) = Unit
  Replies c (err e) = Unit

  guarded-Replies :
      (c : ℕ) (m : Message) (body : Store → Outcome ℤ) (t : Store) (s : S)
      → Replies m.from (guarded hash_int semop c m body t s)
  unfolding guarded
  guarded-Replies c m body t s =
      let sem_id = get_hash hash_int m.key / num_sections in
      elim (Option-cases (sem_down hash_int semop sem_id c s)) [
        | inl e ↦ rw (guarded, e) tt
        | inr (s', e) ↦ elim (Option-cases (body t)) [
          | inl e' ↦ rw (guarded, e, e') tt
          | inr ((r, t'), e') ↦ elim (Option-cases (sem_up hash_int semop sem_id c s')) [
            | inl e'' ↦ rw (guarded, e, e', e'') tt
            | inr (s'', e'') ↦ rw (guarded, e, e', e'') (settle-from m r)
          ]
        ]
      ]

  work-Replies : (m : Message) (t : Store) (s : S) → Replies m.from (work hash_int semop m t s)
  unfolding work
  work-Replies m t s =
      elim m.op as (λ o. m.op ≡ o → Replies m.from (work hash_int semop m t s)) [
        | set_op ↦ λ e. simp (e, work) (guarded-Replies num_workers m _ t s)
        | get_op ↦ λ e. simp (e, work) (guarded-Replies 1 m _ t s)
        | del_op ↦ λ e. simp (e, work) (guarded-Replies num_workers m _ t s)
        | quit_op ↦ λ e. simp (e, work) tt
      ]
        refl

add_sub : (n : ℕ) → suc n - n ≡ 1
add_sub n = omega arith

-- As many queries of the client were asked as are answered, in the queue, and with the workers.
abbrev Balanced : ℕ → System → Type 0
Balanced c s =
    count c s.asked
    ≡ count c s.answered + (count c (clients s.server.queue) + count c (clients_of s.workers))

module _ {S : Type 0} (hash_int : ℤ → ℕ) (semop : ℕ → ℤ → S → Option S) (sscanf : Buffer → Scan)
    (epoll_ctl : ℕ → Bool) where
  step-Balanced :
      (c : ℕ) (s s' : System)
      → Step hash_int semop sscanf epoll_ctl s s'
      → Balanced c s
      → Balanced c s'
  unfolding process_reply
  step-Balanced c s s' (accepts sockets t p e) h =
      rw (e, process_master_event-queue epoll_ctl sockets s.server t p) h
  step-Balanced c s s' (hears rand msg r hup fd t p e) h =
      let (new, q, w) =
        subst (Adds fd s.server.queue) p
          (process_client_event-Adds sscanf epoll_ctl rand msg r hup fd s.server) in
      let u = count-append c (clients new) s.asked in
      let v = count-clients-append c s.server.queue new in
      rw (e, q, drop-append s.server.queue new, ← w) (omega (arith, u, v))
  step-Balanced c s s' (takes m before behind front back q a w i e) h =
      let u = count-clients_middle c before m behind in
      let v = count-workers c front m back in
      let h' = rw (q, w) at h in rw e (omega (arith, u, v, h'))
  step-Balanced c s s' (works m r front back t t' sems sems' w p e) h =
      let u = count-clients-append c s.server.queue (r ∷ []) in
      let v = count-workers c front m back in
      let h' = rw w at h in
      let same = subst (Replies hash_int semop m.from) p (work-Replies hash_int semop m t sems) in
      let one : count c (r.from ∷ []) ≡ count c (m.from ∷ []) = rw same refl in
      rw e (omega (arith, u, v, h', one))
  step-Balanced c s s' (answers m before behind t q a i p e) h =
      let u = count-clients_middle c before m behind in
      let h' = rw q at h in
      let once : sent_in s.server t ≡ m.from ∷ [] = rw (p, add_sub (length s.server.sent)) refl in
      let queue : t.queue ≡ before ++ behind = rw p refl in
      rw (e, once, queue) (omega (arith, u, h'))

  -- Of the queries that came to the queue through a descriptor, as many were answered to it, by one
  -- message each, as are no longer in the queue or with a worker, however the server and the four
  -- workers of p5 interleave. A descriptor that is closed and used again counts as the same client.
  pub asked-answered :
      (s0 : Server) (s : System)
      → Reach hash_int semop sscanf epoll_ctl (new_system s0) s
      → (c : ℕ)
      → count c s.asked
        ≡ count c s.answered + (count c (clients s.server.queue) + count c (clients_of s.workers))
  asked-answered s0 s here c = refl
  asked-answered s0 s (next {t} steps step) c =
      step-Balanced c t s step (asked-answered s0 t steps c)
