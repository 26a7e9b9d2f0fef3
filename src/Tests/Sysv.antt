-- ===== src/Tests/Sysv.antt =====
-- p5: the store and the worker on memory that was all zeros, and then with one key.
use sphere_multithreading_cp.Prelude.{
  Option, arith, if◌then◌else◌, ltb, negsuc, none, ok, pos, refl, some, suc, zero, ℕ, ℤ, ◌+◌, ◌-◌,
  ◌/◌, ◌≡◌, ◌≢◌,
}
use sphere_multithreading_cp.Table.{get_hash}
use sphere_multithreading_cp.Table.Model.Refine.{Represents, Implements}
use sphere_multithreading_cp.Table.Init.{shared_memory_set-Represents}
use sphere_multithreading_cp.Sysv.{Entry, Store, shared_memory_set, set}
use sphere_multithreading_cp.Sysv.Laws.{Map, map_set, sysv_set-map_set}
use sphere_multithreading_cp.Sysv.Protocol.{
  Message, get_op, quit_op, work, reply, process_message_from_worker, wrong_command, sem_down,
  sem_up,
}
use sphere_multithreading_cp.Sysv.Protocol.Laws.{map_perform, answer, units, work-answer}
use sphere_multithreading_cp.Tests.Stores.{hash_key, zeros, empty_model}

abbrev store0 : Store
store0 = shared_memory_set (zeros (record { key = pos 0; value = pos 0 }))

abbrev represents0 : Represents Entry.key hash_key store0 empty_model
represents0 =
    shared_memory_set-Represents Entry.key hash_key (zeros (record { key = pos 0; value = pos 0 }))

sysv_set-map_set_example :
    Implements Entry.key hash_key
      (map_set (pos 7) (pos 5) empty_model)
      (set hash_key (pos 7) (pos 5) store0)
sysv_set-map_set_example = sysv_set-map_set hash_key store0 empty_model represents0 (pos 7) (pos 5)

-- After `set 7 5`.
abbrev after_set :
    Implements Entry.key hash_key
      (map_set (pos 7) (pos 5) empty_model)
      (set hash_key (pos 7) (pos 5) store0)
after_set = sysv_set-map_set hash_key store0 empty_model represents0 (pos 7) (pos 5)

abbrev store1 : Store
store1 = after_set.0

abbrev map1 : Map
map1 = (map_set (pos 7) (pos 5) empty_model).1

abbrev represents1 : Represents Entry.key hash_key store1 map1
represents1 = after_set.2

-- One semaphore, which waits while it would go below zero.
abbrev one_semaphore : ℕ → ℤ → ℕ → Option ℕ
one_semaphore i (pos c) s = some (s + c)
one_semaphore i (negsuc c) s = if ltb c s then some (s - c - 1) else none

one_semaphore_balanced :
    (i c : ℕ) (s s' : ℕ)
    → sem_down hash_key one_semaphore i c s ≡ some s'
    → sem_up hash_key one_semaphore i c s' ≡ some s
unfolding sem_down sem_up
one_semaphore_balanced i zero s s' h = ground arith
one_semaphore_balanced i (suc c) s s' h = ground arith

abbrev get7 : Message
get7 = record { mtype = 2; op = get_op; key = pos 7; value = pos 0; err_code = 9; from = 4 }

is_get : get_op ≢ quit_op
is_get = cc

gets_semaphore :
    sem_down hash_key one_semaphore (get_hash hash_key (pos 7) / 8) (units get_op) 4 ≡ some 3
unfolding sem_down units
gets_semaphore = refl

work-answer_example :
    (msg : Message) × (t : Store) × (work hash_key one_semaphore get7 store1 4 ≡ ok (reply msg t 4))
    × Represents Entry.key hash_key t (map_perform get7 map1).1
    × (process_message_from_worker msg wrong_command ≡ answer get7 (map_perform get7 map1).0)
    × (msg.mtype ≡ 1)
    × (msg.from ≡ 4)
work-answer_example =
    work-answer hash_key one_semaphore one_semaphore_balanced get7 store1 map1 4 3 wrong_command
      represents1 is_get gets_semaphore
