-- ===== src/Posix.antt =====
-- p6: the key-value store over POSIX shared memory. `HashTable` is here;
-- `Posix.Worker` is its client. Time is `now`, what `time(NULL)` gives.
pub mod Laws
pub mod Routine
pub mod Main
pub mod Server
pub mod Worker
pub mod Cleaner
use sphere_multithreading_cp.Prelude.{
  Bool, Option, Result, err, if◌then◌else◌, ltb_ℤ, none, ok, some, ℕ, ℤ, ◌+ℤ◌,
}
use sphere_multithreading_cp.Table.{
  Node, Table, NodePtr, find_node, get_hash, set_stored, set_node_free, add_node,
}

pub data HashTableErrorType : Type 0 where
  no_key no_memory not_exists : HashTableErrorType

-- What a `Node` stores beside its links.
pub record Entry : Type 0 where
  pub key : ℤ
  pub value : ℤ
  pub ttl : ℤ
  pub t_death : ℤ

abbrev pub Store : Type 0
Store = Table Entry

-- `none` is a loop that does not end.
abbrev pub Outcome : Type 0 → Type 0
Outcome A = Option (Result HashTableErrorType A × Store)

unfoldable pub set_ttl : ℤ → ℤ → Entry → Entry
set_ttl now ttl e = record e { ttl = ttl; t_death = now +ℤ ttl }

unfoldable pub set_value : ℤ → Entry → Entry
set_value value e = record e { value = value }

unfoldable pub is_expired : ℤ → Entry → Bool
is_expired now e = ltb_ℤ e.t_death now

-- What the writes to a new node leave in it.
unfoldable pub new_entry : ℤ → ℤ → ℤ → ℤ → Entry
new_entry now key ttl value = record { key = key; value = value; ttl = ttl; t_death = now +ℤ ttl }

-- The writes to the data of node `i`.
abbrev pub write_node : ℕ → (Entry → Entry) → Store → Store
write_node i f t = record t { p_data = set_stored i (f (t.p_data i).stored) t.p_data }

module _ (hash_int : ℤ → ℕ) where
  pub set : (now key ttl value : ℤ) → Store → Outcome (Unit {0})
  set now key ttl value t = elim (find_node Entry.key hash_int key t) [
    | none ↦ none
    | some p_node ↦ elim p_node [
      | some i ↦ some (ok tt, write_node i (λ e. set_ttl now ttl (set_value value e)) t)
      | none ↦ elim (add_node (get_hash hash_int key) (new_entry now key ttl value) t) [
        | none ↦ some (err no_memory, t)
        | some t' ↦ some (ok tt, t')
      ]
    ]
  ]

  -- The clock is read twice: `now` for the test and `later` for the new time of death.
  pub get : (now later key : ℤ) → Store → Outcome ℤ
  get now later key t = elim (find_node Entry.key hash_int key t) [
    | none ↦ none
    | some p_node ↦ elim p_node [
      | none ↦ some (err no_key, t)
      | some i ↦
          if is_expired now (t.p_data i).stored
          then some (err not_exists, set_node_free i t)
          else some (ok (t.p_data i).stored.value, write_node i (λ e. set_ttl later e.ttl e) t)
    ]
  ]

  pub del : (now key : ℤ) → Store → Outcome (Unit {0})
  del now key t = elim (find_node Entry.key hash_int key t) [
    | none ↦ none
    | some p_node ↦ elim p_node [
      | none ↦ some (err no_key, t)
      | some i ↦
          if is_expired now (t.p_data i).stored
          then some (err not_exists, set_node_free i t)
          else some (ok tt, set_node_free i t)
    ]
  ]
