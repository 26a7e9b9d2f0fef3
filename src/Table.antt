-- ===== src/Table.antt =====
-- p5/HashTable.h, p5/HashTable.cpp and p6/HashTable.h, p6/HashTable.cpp: the chained table in shared
-- memory. What the two versions share is here, over the type of what a node stores: buckets and the
-- list of free nodes are doubly linked through indices into `p_data`, `none` being -1.
pub mod Chains
pub mod Find
pub mod Free
pub mod Init
pub mod Insert
pub mod Model
pub mod Scan
pub mod Shape
use sphere_multithreading_cp.Prelude.{
  Bool, Option, eq_ℤ, false, if◌then◌else◌, ltb, none, some, suc, zero, ℕ, ℤ, ◌%◌, ◌+◌, ◌-◌, ◌==◌,
}

pub record Node (P : Type 0) : Type 0 where
  pub stored : P
  pub n_prev : Option ℕ
  pub n_next : Option ℕ

abbrev pub hash_table_size : ℕ
hash_table_size = 256

abbrev pub buffer_size : ℕ
buffer_size = 2048

-- A `NodePtr`: the number of a node, or null.
abbrev pub NodePtr : Type 0
NodePtr = Option ℕ

-- `p_table[HASH_TABLE_SIZE]` is `free_node`.
pub record Table (P : Type 0) : Type 0 where
  pub p_table : ℕ → NodePtr
  pub free_node : NodePtr
  pub p_data : ℕ → Node P

abbrev pub update {ℓ} : {A : Type ℓ} → (ℕ → A) → ℕ → A → ℕ → A
update f i a j = if j == i then a else f j

-- `p_table[i] == k` for the number `k` of a node.
abbrev pub points_to : NodePtr → ℕ → Bool
points_to none k = false
points_to (some i) k = i == k

abbrev pub Nodes : Type 0 → Type 0
Nodes P = ℕ → Node P

-- The first loop of `shared_memory_set`.
pub init_table : ℕ → ℕ → (ℕ → NodePtr) → ℕ → NodePtr
init_table zero i f = f
init_table (suc k) i f = init_table k (suc i) (update f i none)

-- The `for` of `set_node_free`, for the buckets from number `i` on.
pub unlink_table : ℕ → ℕ → ℕ → NodePtr → (ℕ → NodePtr) → ℕ → NodePtr
unlink_table zero i n p_next f = f
unlink_table (suc k) i n p_next f =
    let rest = unlink_table k (suc i) n p_next f in
    if points_to (f i) n then update f i p_next else rest

module _ {P : Type 0} where
  unfoldable pub get_next : NodePtr → Nodes P → NodePtr
  get_next none d = none
  get_next (some i) d = (d i).n_next

  unfoldable pub set_next : NodePtr → NodePtr → Nodes P → Nodes P
  set_next none q d = d
  set_next (some i) q d = update d i (record (d i) { n_next = q })

  unfoldable pub set_prev : NodePtr → NodePtr → Nodes P → Nodes P
  set_prev none q d = d
  set_prev (some i) q d = update d i (record (d i) { n_prev = q })

  unfoldable pub set_stored : ℕ → P → Nodes P → Nodes P
  set_stored i p d = update d i (record (d i) { stored = p })

  -- The second loop of `shared_memory_set`, for the nodes from number `i` on.
  pub init_nodes : ℕ → ℕ → Nodes P → Nodes P
  init_nodes zero i d = d
  init_nodes (suc k) i d = init_nodes k (suc i) (
      update d i (record (d i) {
        n_prev = if ltb 0 i then some (i - 1) else none;
        n_next = if ltb i (buffer_size - 1) then some (i + 1) else none;
      }))

  pub shared_memory_set : Table P → Table P
  shared_memory_set t = record {
    p_table = init_table hash_table_size 0 t.p_table;
    free_node = some 0;
    p_data = init_nodes buffer_size 0 t.p_data;
  }

  -- `none` if no node is free; else the node, taken off the list.
  pub get_node_free : Table P → Option (ℕ × Table P)
  get_node_free t = elim t.free_node [
    | none ↦ none
    | some i ↦
        let p_free = (t.p_data i).n_next in
        some (i, record t { free_node = p_free; p_data = set_prev p_free none t.p_data })
  ]

  -- The node `n` is taken out of its bucket and put in front of the free ones.
  pub set_node_free : ℕ → Table P → Table P
  set_node_free n t =
      let p_prev = (t.p_data n).n_prev in
      let p_next = (t.p_data n).n_next in
      let d = set_prev p_next p_prev (set_next p_prev p_next t.p_data) in
      let d' =
        set_prev (some n) none (set_next (some n) t.free_node (set_prev t.free_node (some n) d)) in
      record {
        p_table = unlink_table hash_table_size 0 n p_next t.p_table;
        free_node = some n;
        p_data = d';
      }

  -- The end of `set` for a new key: the node `n`, filled already, goes in front of its bucket.
  pub link_node : ℕ → ℕ → Table P → Table P
  link_node hash n t =
      let p_next = t.p_table hash in
      record t {
        p_table = update t.p_table hash (some n);
        p_data = set_prev p_next (some n) (set_next (some n) p_next t.p_data);
      }

  -- `set` for a new key: `p` is what the code writes to the node; `none` if no node is free.
  pub add_node : ℕ → P → Table P → Option (Table P)
  add_node hash p t = elim (get_node_free t) [
    | none ↦ none
    | some r ↦ some (link_node hash r.0 (record (r.1) { p_data = set_stored r.0 p (r.1).p_data }))
  ]

-- `hash_int` is `std::hash<int>`.
unfoldable pub get_hash : (ℤ → ℕ) → ℤ → ℕ
get_hash hash_int key = hash_int key % hash_table_size

-- `key_of` reads the key of a node.
module _ {P : Type 0} (key_of : P → ℤ) where
  -- The `while` of `find_node`; the outer `none` means that the fuel ran out.
  unfoldable pub find_from : ℕ → NodePtr → ℤ → Nodes P → Option NodePtr
  find_from fuel none key d = some none
  find_from zero (some i) key d = none
  find_from (suc fuel) (some i) key d =
      let rest = find_from fuel (d i).n_next key d in
      if eq_ℤ (key_of (d i).stored) key then some (some i) else rest

  unfoldable pub find_node : (ℤ → ℕ) → ℤ → Table P → Option NodePtr
  find_node hash_int key t = find_from buffer_size (t.p_table (get_hash hash_int key)) key t.p_data
