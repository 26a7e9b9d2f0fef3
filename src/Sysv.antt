-- ===== src/Sysv.antt =====
-- p5: the key-value store over System V shared memory. `HashTable` is here: as in p6, with no
-- times. `Sysv.Protocol` is the conversation of server and workers.
pub mod Laws
pub mod Protocol
pub mod Workers
use sphere_multithreading_cp.Prelude.{Option, Result, err, none, ok, some, ℕ, ℤ}
use sphere_multithreading_cp.Table as Shared
use sphere_multithreading_cp.Table.{Table, NodePtr, get_hash, set_stored, add_node}

pub data HashTableErrorType : Type 0 where
  no_key no_memory : HashTableErrorType

-- What a `Node` stores beside its links.
pub record Entry : Type 0 where
  pub key : ℤ
  pub value : ℤ

abbrev pub Store : Type 0
Store = Table Entry

-- `none` is a loop that does not end.
abbrev pub Outcome : Type 0 → Type 0
Outcome A = Option (Result HashTableErrorType A × Store)

-- The members that p5 has in common with p6.
abbrev pub shared_memory_set : Store → Store
shared_memory_set t = Shared.shared_memory_set t

abbrev find_node : (ℤ → ℕ) → ℤ → Store → Option NodePtr
find_node hash_int key t = Shared.find_node Entry.key hash_int key t

abbrev get_node_free : Store → Option (ℕ × Store)
get_node_free t = Shared.get_node_free t

abbrev set_node_free : ℕ → Store → Store
set_node_free i t = Shared.set_node_free i t

unfoldable pub set_value : ℤ → Entry → Entry
set_value value e = record e { value = value }

unfoldable pub new_entry : ℤ → ℤ → Entry
new_entry key value = record { key = key; value = value }

module _ (hash_int : ℤ → ℕ) where
  pub set : (key value : ℤ) → Store → Outcome (Unit {0})
  set key value t = elim (find_node hash_int key t) [
    | none ↦ none
    | some p_node ↦ elim p_node [
      | some i ↦
          some (
            ok tt,
            record t { p_data = set_stored i (set_value value (t.p_data i).stored) t.p_data },
          )
      | none ↦ elim (add_node (get_hash hash_int key) (new_entry key value) t) [
        | none ↦ some (err no_memory, t)
        | some t' ↦ some (ok tt, t')
      ]
    ]
  ]

  pub get : (key : ℤ) → Store → Outcome ℤ
  get key t = elim (find_node hash_int key t) [
    | none ↦ none
    | some p_node ↦ elim p_node [
      | none ↦ some (err no_key, t)
      | some i ↦ some (ok (t.p_data i).stored.value, t)
    ]
  ]

  pub del : (key : ℤ) → Store → Outcome (Unit {0})
  del key t = elim (find_node hash_int key t) [
    | none ↦ none
    | some p_node ↦ elim p_node [
      | none ↦ some (err no_key, t)
      | some i ↦ some (ok tt, set_node_free i t)
    ]
  ]
