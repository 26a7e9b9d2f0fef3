-- ===== src/Sysv/Protocol/Laws.antt =====
-- The conversation of server and worker of p5 against a server of one map.
use sphere_multithreading_cp.Prelude.{
  Option, Result, err, inl, inr, ok, refl, some, ℕ, ℤ, ◌/◌, ◌>>=◌, ◌≡◌, ◌≢◌, ◌⊎◌,
}
use sphere_multithreading_cp.Table.{get_hash}
use sphere_multithreading_cp.Table.Model.Refine.{Represents}
use sphere_multithreading_cp.Sysv.{HashTableErrorType, no_key, no_memory, Entry, Store, Outcome}
use sphere_multithreading_cp.Sysv.Laws.{
  Map, map_set, map_get, map_del, sysv_set-map_set, sysv_get-map_get, sysv_del-map_del,
}
use sphere_multithreading_cp.Sysv.Protocol.{
  num_workers, OpType, get_op, set_op, del_op, quit_op, Message, Buffer, done, done_pair,
  fail_no_key, fail_no_memory, reply, settle, sem_up, sem_down, guarded, work,
  process_message_from_worker,
}

-- The specification: the outcome of a message on the map.
pub map_perform : Message → Map → Result HashTableErrorType ℤ × Map
map_perform msg m = elim msg.op [
  | set_op ↦ let (r, m') = map_set msg.key msg.value m in ((r >>= λ _. ok msg.value), m')
  | get_op ↦ map_get msg.key m
  | del_op ↦ let (r, m') = map_del msg.key m in ((r >>= λ _. ok msg.value), m')
  | quit_op ↦ (ok msg.value, m)
]

-- The reply that a server of one map gives.
pub answer : Message → Result HashTableErrorType ℤ → Buffer
answer msg (ok value) = elim msg.op [
  | get_op ↦ done_pair msg.key value
  | set_op ↦ done
  | del_op ↦ done
  | quit_op ↦ done
]
answer msg (err no_key) = fail_no_key msg.key
answer msg (err no_memory) = fail_no_memory

settle-answer :
    (msg : Message) (r : Result HashTableErrorType ℤ) (b : Buffer)
    → process_message_from_worker (settle msg r) b ≡ answer msg r
unfolding process_message_from_worker settle answer
settle-answer msg (ok value) b = refl
settle-answer msg (err no_key) b = refl
settle-answer msg (err no_memory) b = refl

settle-addressed :
    (msg : Message) (r : Result HashTableErrorType ℤ)
    → ((settle msg r).mtype ≡ 1) × ((settle msg r).from ≡ msg.from)
unfolding settle
settle-addressed msg (ok value) = (refl, refl)
settle-addressed msg (err no_key) = (refl, refl)
settle-addressed msg (err no_memory) = (refl, refl)

op_cases : (o : OpType) → o ≢ quit_op → (o ≡ set_op) ⊎ (o ≡ get_op) ⊎ (o ≡ del_op)
op_cases set_op h = inl refl
op_cases get_op h = inr (inl refl)
op_cases del_op h = inr (inr refl)
op_cases quit_op h = absurd (h refl)

-- How many units of the semaphore an operation takes.
unfoldable pub units : OpType → ℕ
units get_op = 1
units set_op = num_workers
units del_op = num_workers
units quit_op = 0

module _ {S : Type 0} (hash_int : ℤ → ℕ) (semop : ℕ → ℤ → S → Option S)
    (balanced : (i c : ℕ) (s s' : S)
      → sem_down hash_int semop i c s ≡ some s'
      → sem_up hash_int semop i c s' ≡ some s) where
  guarded_lem :
      (c : ℕ) (msg : Message) (body : Store → Outcome ℤ) (t t' : Store) (s s' : S)
      (r : Result HashTableErrorType ℤ)
      → sem_down hash_int semop (get_hash hash_int msg.key / 8) c s ≡ some s'
      → body t ≡ some (r, t')
      → guarded hash_int semop c msg body t s ≡ ok (reply (settle msg r) t' s)
  unfolding guarded
  guarded_lem c msg body t t' s s' r d b =
      rw (guarded, d, b, balanced (get_hash hash_int msg.key / 8) c s s' d) refl

  work-map_perform :
      (msg : Message) (t : Store) (m : Map) (s s' : S)
      → Represents Entry.key hash_int t m
      → msg.op ≢ quit_op
      → sem_down hash_int semop (get_hash hash_int msg.key / 8) (units msg.op) s ≡ some s'
      → (t' : Store) × (work hash_int semop msg t s
          ≡ ok (reply (settle msg (map_perform msg m).0) t' s))
        × Represents Entry.key hash_int t' (map_perform msg m).1
  unfolding work units map_perform
  work-map_perform msg t m s s' r h d = elim (op_cases msg.op h) [
    | inl e ↦
        let (t', c, r') = sysv_set-map_set hash_int t m r msg.key msg.value in
        simp (e, work, map_perform)
          (t', guarded_lem num_workers msg _ t t' s s' _ (rw e at d) (rw c refl), r')
    | inr (inl e) ↦
        let (t', c, r') = sysv_get-map_get hash_int t m r msg.key in
        simp (e, work, map_perform) (t', guarded_lem 1 msg _ t t' s s' _ (rw e at d) c, r')
    | inr (inr e) ↦
        let (t', c, r') = sysv_del-map_del hash_int t m r msg.key in
        simp (e, work, map_perform)
          (t', guarded_lem num_workers msg _ t t' s s' _ (rw e at d) (rw c refl), r')
  ]

  -- A worker that gets the semaphore answers a message, `QUIT` excepted, with a message for the
  -- server, of which the server prints for the same client what the operation means for the map,
  -- whatever its buffer held. The table goes on to stand for the map, the semaphores are as before.
  pub work-answer :
      (msg : Message) (t : Store) (m : Map) (s s' : S) (b : Buffer)
      → Represents Entry.key hash_int t m
      → msg.op ≢ quit_op
      → sem_down hash_int semop (get_hash hash_int msg.key / 8) (units msg.op) s ≡ some s'
      → (msg' : Message) × (t' : Store) × (work hash_int semop msg t s ≡ ok (reply msg' t' s))
        × Represents Entry.key hash_int t' (map_perform msg m).1
        × (process_message_from_worker msg' b ≡ answer msg (map_perform msg m).0)
        × (msg'.mtype ≡ 1)
        × (msg'.from ≡ msg.from)
  work-answer msg t m s s' b r h d =
      let (t', w, r') = work-map_perform msg t m s s' r h d in
      let o = (map_perform msg m).0 in
      (
        settle msg o,
        t',
        w,
        r',
        settle-answer msg o b,
        (settle-addressed msg o).0,
        (settle-addressed msg o).1,
      )
