-- ===== src/Tests/Posix.antt =====
-- p6: the store and the worker on memory that was all zeros, and then with one key.
use sphere_multithreading_cp.Prelude.{
  List, [], arith, false, ok, pos, some, true, ℕ, ◌/◌, ◌<◌, ◌∷◌, ◌≡◌,
}
use sphere_multithreading_cp.Table.{find_node, shared_memory_set, get_hash}
use sphere_multithreading_cp.Table.Model.Refine.{Represents, Implements}
use sphere_multithreading_cp.Table.Shape.{search}
use sphere_multithreading_cp.Table.Find.{find_node-search}
use sphere_multithreading_cp.Table.Init.{shared_memory_set-Represents}
use sphere_multithreading_cp.Posix.{Entry, Store, set, get, del}
use sphere_multithreading_cp.Posix.Laws.{
  Map, map_set, map_get, map_del, set-map_set, get-map_get, del-map_del,
}
use sphere_multithreading_cp.Posix.Worker.{
  Worker, Query, Buffer, Scan, get_op, welcome, received, bytes, process_client_event,
}
use sphere_multithreading_cp.Posix.Worker.Laws.{respond, sent_after, process_client_event-respond}
use sphere_multithreading_cp.Tests.Stores.{hash_key, zeros, empty_model}
use sphere_multithreading_cp.Posix.Cleaner.{clean}
use sphere_multithreading_cp.Posix.Cleaner.Laws.{sweep, clean-sweep}

abbrev store0 : Store
store0 =
    shared_memory_set (zeros (record { key = pos 0; value = pos 0; ttl = pos 0; t_death = pos 0 }))

abbrev represents0 : Represents Entry.key hash_key store0 empty_model
represents0 =
    shared_memory_set-Represents Entry.key hash_key
      (zeros (record { key = pos 0; value = pos 0; ttl = pos 0; t_death = pos 0 }))

shared_memory_set-Represents_example : Represents Entry.key hash_key store0 empty_model
shared_memory_set-Represents_example =
    shared_memory_set-Represents Entry.key hash_key
      (zeros (record { key = pos 0; value = pos 0; ttl = pos 0; t_death = pos 0 }))

find_node-search_example :
    find_node Entry.key hash_key (pos 7) store0
    ≡ some
        (search Entry.key store0.p_data (pos 7) (represents0.buckets (get_hash hash_key (pos 7))))
find_node-search_example =
    find_node-search Entry.key hash_key store0 represents0.buckets represents0.free (pos 7)
      represents0.valid

set-map_set_example :
    Implements Entry.key hash_key
      (map_set (pos 1) (pos 7) (pos 20) (pos 5) empty_model)
      (set hash_key (pos 1) (pos 7) (pos 20) (pos 5) store0)
set-map_set_example =
    set-map_set hash_key store0 empty_model represents0 (pos 1) (pos 7) (pos 20) (pos 5)

-- After `set 7 20 5`, at time 1.
abbrev after_set :
    Implements Entry.key hash_key
      (map_set (pos 1) (pos 7) (pos 20) (pos 5) empty_model)
      (set hash_key (pos 1) (pos 7) (pos 20) (pos 5) store0)
after_set = set-map_set hash_key store0 empty_model represents0 (pos 1) (pos 7) (pos 20) (pos 5)

abbrev store1 : Store
store1 = after_set.0

abbrev map1 : Map
map1 = (map_set (pos 1) (pos 7) (pos 20) (pos 5) empty_model).1

abbrev represents1 : Represents Entry.key hash_key store1 map1
represents1 = after_set.2

get-map_get_example :
    Implements Entry.key hash_key
      (map_get (pos 2) (pos 2) (pos 7) map1)
      (get hash_key (pos 2) (pos 2) (pos 7) store1)
get-map_get_example = get-map_get hash_key store1 map1 represents1 (pos 2) (pos 2) (pos 7)

del-map_del_example :
    Implements Entry.key hash_key
      (map_del (pos 30) (pos 7) map1)
      (del hash_key (pos 30) (pos 7) store1)
del-map_del_example = del-map_del hash_key store1 map1 represents1 (pos 30) (pos 7)

abbrev worker1 : Worker
worker1 = record {
  slave_sockets = 4 ∷ [];
  buffer = welcome;
  hash_table = store1;
  semids = λ _. 1;
  sent = [];
}

abbrev query7 : Query
query7 = record { key = pos 7; value = pos 0; from = 4; ttl = pos 0; op = get_op }

-- "get 7", whatever the buffer holds.
abbrev scan7 : Buffer → Scan
scan7 _ = record {
  n_args = pos 2;
  cmd = 103 ∷ 101 ∷ 116 ∷ [];
  key = pos 7;
  ttl = pos 0;
  value = pos 0;
}

hash7 : get_hash hash_key (pos 7) / 8 < 8
unfolding get_hash
hash7 = omega arith

-- "get 7"
abbrev get_7 : List ℕ
get_7 = b'g' ∷ b'e' ∷ b't' ∷ b' ' ∷ b'7' ∷ []

process_client_event-respond_example :
    (w : Worker) × (process_client_event hash_key scan7
        (λ _. true)
        (pos 2)
        (pos 2)
        (bytes get_7)
        false
        4
        worker1
      ≡ ok w)
    × Represents Entry.key hash_key w.hash_table
        (respond (pos 2) (pos 2) 4 (scan7 (received get_7)) map1).1
    × (w.sent ≡ sent_after 4 (respond (pos 2) (pos 2) 4 (scan7 (received get_7)) map1).0 [])
    × (w.slave_sockets ≡ 4 ∷ [])
    × (w.semids ≡ (λ _. 1))
process_client_event-respond_example =
    process_client_event-respond hash_key scan7 (λ _. true) (pos 2) (pos 2) 4 get_7 worker1 map1
      represents1 (omega arith) hash7

clean-sweep_example :
    (t' : Store) × (room : ℕ) × (clean (pos 30) (λ _. 1) store1 ≡ ok (λ _. 1, t'))
    × Represents Entry.key hash_key t'
        (record { entries = sweep hash_key (pos 30) map1.entries; room = room })
clean-sweep_example =
    clean-sweep hash_key (pos 30) (λ _. 1) store1 map1 represents1 (λ i l. omega arith)
