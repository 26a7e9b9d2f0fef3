-- ===== src/Sysv/Laws.antt =====
-- The three operations of the store without times against operations on a map.
use sphere_multithreading_cp.Prelude.{
  ==_iff, Bool-cases, Option-cases, Result, arith, err, if◌then◌else◌, inl, inr, none, ok, refl,
  some, subst, ℕ, ℤ, ◌+◌, ◌-◌, ◌==◌, ◌≡◌,
}
use sphere_multithreading_cp.Table.{set_stored}
use sphere_multithreading_cp.Table.Model.{Model, put, remove}
use sphere_multithreading_cp.Table.Model.Refine.{
  set_stored-Represents, present_key, Represents, Implements, find_node-absent, find_node-present,
}
use sphere_multithreading_cp.Table.Model.Add.{add_node-room, add_node-no_room}
use sphere_multithreading_cp.Table.Model.Remove.{set_node_free-Represents}
use sphere_multithreading_cp.Sysv.{
  HashTableErrorType, no_key, no_memory, Entry, Store, set_value, new_entry, set, get, del,
}

abbrev pub Map : Type 0
Map = Model Entry

-- The specification: a map from keys.
pub map_set : (key value : ℤ) → Map → Result HashTableErrorType (Unit {0}) × Map
map_set key value m =
    let entries = put key (new_entry key value) m.entries in
    elim (m.entries key) [
      | some e ↦ (ok tt, record m { entries = entries })
      | none ↦
          if m.room == 0
          then (err no_memory, m)
          else (ok tt, record { entries = entries; room = m.room - 1 })
    ]

pub map_get : (key : ℤ) → Map → Result HashTableErrorType ℤ × Map
map_get key m = elim (m.entries key) [ none ↦ (err no_key, m) | some e ↦ (ok e.value, m) ]

pub map_del : (key : ℤ) → Map → Result HashTableErrorType (Unit {0}) × Map
map_del key m = elim (m.entries key) [
  | none ↦ (err no_key, m)
  | some e ↦ (ok tt, record { entries = remove key m.entries; room = m.room + 1 })
]

-- The write of `set` to a node with the key leaves what a new node would hold.
overwrite : (key value : ℤ) (e : Entry) → e.key ≡ key → new_entry key value ≡ set_value value e
unfolding new_entry set_value
overwrite key value e h = ground arith

module _ (hash_int : ℤ → ℕ) (t : Store) (m : Map) (r : Represents Entry.key hash_int t m) where
  -- `set` gives the key the value, and fails with `NoMemory`, changing nothing, exactly if a new
  -- key finds no room.
  pub sysv_set-map_set :
      (key value : ℤ)
      → Implements Entry.key hash_int (map_set key value m) (set hash_int key value t)
  unfolding set map_set new_entry
  sysv_set-map_set key value = elim (Option-cases (m.entries key)) [
    | inl absent ↦
        rw (absent, map_set, find_node-absent Entry.key hash_int t m r key absent, set)
          (elim (Bool-cases (m.room == 0)) [
            | inl full ↦
                rw
                  (
                    full,
                    add_node-no_room Entry.key hash_int t m key (new_entry key value) refl r absent
                        ((==_iff m.room 0).0 full),
                  )
                  (t, refl, r)
            | inr more ↦
                let (t', e, r') =
                  add_node-room Entry.key hash_int t m key (new_entry key value) refl r absent
                    (ground arith) in
                rw (more, e) (t', refl, r')
          ])
    | inr (p, present) ↦
        let (i, e, s, here) = find_node-present Entry.key hash_int t m r key p present in
        rw (present, map_set, e, set)
          (
            _,
            refl,
            subst
                (λ x.
                  Represents Entry.key hash_int (record t { p_data = set_stored i x t.p_data })
                    (record m { entries = put key (new_entry key value) m.entries }))
                (overwrite key value (t.p_data i).stored
                  (present_key Entry.key hash_int t m r key i here (t.p_data i).stored refl))
                (set_stored-Represents Entry.key hash_int t m r key i here (new_entry key value)
                  refl),
          )
  ]

  -- `get` returns the value of the key, or fails with `NoKey`; the table stays as it is.
  pub sysv_get-map_get :
      (key : ℤ) → Implements Entry.key hash_int (map_get key m) (get hash_int key t)
  unfolding get map_get
  sysv_get-map_get key = elim (Option-cases (m.entries key)) [
    | inl absent ↦
        rw (absent, map_get, find_node-absent Entry.key hash_int t m r key absent, get) (t, refl, r)
    | inr (p, present) ↦
        let (i, e, s, here) = find_node-present Entry.key hash_int t m r key p present in
        rw (present, map_get, e, get, s) (t, refl, r)
  ]

  -- `del` removes the key, or fails with `NoKey` and changes nothing.
  pub sysv_del-map_del :
      (key : ℤ) → Implements Entry.key hash_int (map_del key m) (del hash_int key t)
  unfolding del map_del
  sysv_del-map_del key = elim (Option-cases (m.entries key)) [
    | inl absent ↦
        rw (absent, map_del, find_node-absent Entry.key hash_int t m r key absent, del) (t, refl, r)
    | inr (p, present) ↦
        let (i, e, s, here) = find_node-present Entry.key hash_int t m r key p present in
        rw (present, map_del, e, del)
          (_, refl, set_node_free-Represents Entry.key hash_int t m key r i here)
  ]
