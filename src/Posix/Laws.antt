-- ===== src/Posix/Laws.antt =====
-- The three operations of the store with times against operations on a map.
use sphere_multithreading_cp.Prelude.{
  ==_iff, Bool-cases, Option-cases, Result, arith, err, if◌then◌else◌, inl, inr, none, ok, refl,
  some, subst, ℕ, ℤ, ◌+◌, ◌-◌, ◌==◌, ◌≡◌,
}
use sphere_multithreading_cp.Table.{set_stored}
use sphere_multithreading_cp.Table.Model.{Model, put, remove}
use sphere_multithreading_cp.Table.Model.Refine.{
  set_stored-Represents, present_key, Represents, Implements, find_node-absent, find_node-present,
}
use sphere_multithreading_cp.Table.Model.Add.{add_node-room, add_node-no_room}
use sphere_multithreading_cp.Table.Model.Remove.{set_node_free-Represents}
use sphere_multithreading_cp.Posix.{
  HashTableErrorType, no_key, no_memory, not_exists, Entry, Store, set_ttl, set_value, is_expired,
  new_entry, set, get, del,
}

abbrev pub Map : Type 0
Map = Model Entry

-- The specification: a map whose entries carry their time of death.
pub map_set : (now key ttl value : ℤ) → Map → Result HashTableErrorType (Unit {0}) × Map
map_set now key ttl value m =
    let entries = put key (new_entry now key ttl value) m.entries in
    elim (m.entries key) [
      | some e ↦ (ok tt, record m { entries = entries })
      | none ↦
          if m.room == 0
          then (err no_memory, m)
          else (ok tt, record { entries = entries; room = m.room - 1 })
    ]

abbrev pub without : ℤ → Map → Map
without key m = record { entries = remove key m.entries; room = m.room + 1 }

pub map_get : (now later key : ℤ) → Map → Result HashTableErrorType ℤ × Map
map_get now later key m = elim (m.entries key) [
  | none ↦ (err no_key, m)
  | some e ↦
      if is_expired now e
      then (err not_exists, without key m)
      else (ok e.value, record m { entries = put key (set_ttl later e.ttl e) m.entries })
]

pub map_del : (now key : ℤ) → Map → Result HashTableErrorType (Unit {0}) × Map
map_del now key m = elim (m.entries key) [
  | none ↦ (err no_key, m)
  | some e ↦ if is_expired now e then (err not_exists, without key m) else (ok tt, without key m)
]

-- The writes of `set` to a node with the key leave what a new node would hold.
overwrite :
    (now key ttl value : ℤ) (e : Entry)
    → e.key ≡ key
    → new_entry now key ttl value ≡ set_ttl now ttl (set_value value e)
unfolding new_entry set_ttl set_value
overwrite now key ttl value e h = ground arith

module _ (hash_int : ℤ → ℕ) (t : Store) (m : Map) (r : Represents Entry.key hash_int t m) where
  -- `set` overwrites the entry of a key that is there, also of one that is expired, and fails with
  -- `NoMemory`, changing nothing, exactly if a new key finds no room.
  pub set-map_set :
      (now key ttl value : ℤ)
      → Implements Entry.key hash_int
          (map_set now key ttl value m)
          (set hash_int now key ttl value t)
  unfolding set map_set new_entry
  set-map_set now key ttl value = elim (Option-cases (m.entries key)) [
    | inl absent ↦
        rw (absent, map_set, find_node-absent Entry.key hash_int t m r key absent, set)
          (elim (Bool-cases (m.room == 0)) [
            | inl full ↦
                rw
                  (
                    full,
                    add_node-no_room Entry.key hash_int t m key (new_entry now key ttl value) refl r
                        absent ((==_iff m.room 0).0 full),
                  )
                  (t, refl, r)
            | inr more ↦
                let (t', e, r') =
                  add_node-room Entry.key hash_int t m key (new_entry now key ttl value) refl r
                    absent (ground arith) in
                rw (more, e) (t', refl, r')
          ])
    | inr (p, present) ↦
        let (i, e, s, here) = find_node-present Entry.key hash_int t m r key p present in
        rw (present, map_set, e, set)
          (
            _,
            refl,
            subst
                (λ x.
                  Represents Entry.key hash_int (record t { p_data = set_stored i x t.p_data })
                    (record m { entries = put key (new_entry now key ttl value) m.entries }))
                (overwrite now key ttl value (t.p_data i).stored
                  (present_key Entry.key hash_int t m r key i here (t.p_data i).stored refl))
                (set_stored-Represents Entry.key hash_int t m r key i here
                  (new_entry now key ttl value) refl),
          )
  ]

  -- `get` returns the value of a key that is not expired and puts off its death; an expired key it
  -- removes, and fails with `NotExists`; a key that is not there fails with `NoKey`.
  pub get-map_get :
      (now later key : ℤ)
      → Implements Entry.key hash_int (map_get now later key m) (get hash_int now later key t)
  unfolding get map_get set_ttl
  get-map_get now later key = elim (Option-cases (m.entries key)) [
    | inl absent ↦
        rw (absent, map_get, find_node-absent Entry.key hash_int t m r key absent, get) (t, refl, r)
    | inr (p, present) ↦
        let (i, e, s, here) = find_node-present Entry.key hash_int t m r key p present in
        rw (present, map_get, e, get, s)
          (elim (Bool-cases (is_expired now p)) [
            | inl old ↦
                rw old (_, refl, set_node_free-Represents Entry.key hash_int t m key r i here)
            | inr young ↦ rw young (
              _,
              refl,
              set_stored-Represents Entry.key hash_int t m r key i here (set_ttl later p.ttl p)
                  (present_key Entry.key hash_int t m r key i here p s),
            )
          ])
  ]

  -- `del` removes the key if it is there, and tells by its outcome whether it had expired.
  pub del-map_del :
      (now key : ℤ) → Implements Entry.key hash_int (map_del now key m) (del hash_int now key t)
  unfolding del map_del
  del-map_del now key = elim (Option-cases (m.entries key)) [
    | inl absent ↦
        rw (absent, map_del, find_node-absent Entry.key hash_int t m r key absent, del) (t, refl, r)
    | inr (p, present) ↦
        let (i, e, s, here) = find_node-present Entry.key hash_int t m r key p present in
        let freed = set_node_free-Represents Entry.key hash_int t m key r i here in
        rw (present, map_del, e, del, s)
          (elim (Bool-cases (is_expired now p)) [
            | inl old ↦ rw old (_, refl, freed)
            | inr young ↦ rw young (_, refl, freed)
          ])
  ]
