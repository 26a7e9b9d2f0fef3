-- ===== src/Table/Model/Add.antt =====
-- A new key: one node fewer is free.
use sphere_multithreading_cp.Prelude.{
  ==_iff, Bool-cases, List, List-cases, [], ap, arith, eq_ℤ, eq_ℤ_iff, false, if◌then◌else◌, inl,
  inr, length, none, refl, some, subst, ℕ, ℤ, ◌-◌, ◌<◌, ◌==◌, ◌∙◌, ◌∷◌, ◌≡◌, ◌≢◌,
}
use sphere_multithreading_cp.Table.{Nodes, Table, update, hash_table_size, get_hash, add_node}
use sphere_multithreading_cp.Table.Shape.{IsTable, search, SameStored, has_key, get_hash_bound}
use sphere_multithreading_cp.Table.Insert.{
  added, add_node-added, add_node-full, added-IsTable, linked, stored_in, stored_new,
}
use sphere_multithreading_cp.Table.Model.{Model, put, entry, search-none}
use sphere_multithreading_cp.Table.Model.Refine.{Represents, absent_search}

pub entry-same :
    {P : Type 0} (key_of : P → ℤ) (d e : Nodes P) (k : ℤ) (xs : List ℕ)
    → SameStored key_of d e xs
    → entry key_of e k xs ≡ entry key_of d k xs
unfolding entry search
entry-same key_of d e k [] h = refl
entry-same key_of d e k (x ∷ xs) h =
    rw (h x (ground arith)) (elim (Bool-cases (eq_ℤ (key_of (d x).stored) k)) [
      | inl y ↦ rw y (ap some (h x (ground arith)))
      | inr n ↦ rw n (entry-same key_of d e k xs (λ j m. h j (ground arith)))
    ])

module _ {P : Type 0} (key_of : P → ℤ) (hash_int : ℤ → ℕ) (t : Table P) (m : Model P) (k : ℤ)
    (p : P) (kp : key_of p ≡ k) (r : Represents key_of hash_int t m)
    (absent : m.entries k ≡ none) where
  -- With no room left nothing is taken.
  pub add_node-no_room : m.room ≡ 0 → add_node (get_hash hash_int k) p t ≡ none
  add_node-no_room e = elim (List-cases r.free) [
    | inl z ↦
        add_node-full key_of hash_int t r.buckets (get_hash hash_int k) p
          (subst (IsTable key_of hash_int t r.buckets) z r.valid)
    | inr (n, f, z) ↦ absurd (omega (arith, r.room, ap length z))
  ]

  module _ (n : ℕ) (f : List ℕ) (z : r.free ≡ n ∷ f) where
    h : ℕ
    h = get_hash hash_int k

    bound : h < hash_table_size
    unfolding h
    bound = get_hash_bound hash_int k

    valid : IsTable key_of hash_int t r.buckets (n ∷ f)
    valid = subst (IsTable key_of hash_int t r.buckets) z r.valid

    result : Table P
    result = added key_of hash_int t r.buckets f n h p bound valid

    hash_p : get_hash hash_int (key_of p) ≡ h
    unfolding h
    hash_p = ap (get_hash hash_int) kp

    fresh : has_key key_of t.p_data (key_of p) (r.buckets h) ≡ false
    unfolding h
    fresh =
        rw kp (
          search-none key_of t.p_data k (r.buckets h)
            (absent_search key_of hash_int t m r k absent))

    nodes : Nodes P
    nodes = linked key_of hash_int t r.buckets f n h p bound valid

    data_new : (nodes n).stored ≡ p
    unfolding nodes
    data_new = stored_new key_of hash_int t r.buckets f n h p bound valid hash_p fresh

    old_entry :
        (h' : ℕ) (k' : ℤ)
        → h' < hash_table_size
        → entry key_of nodes k' (r.buckets h') ≡ entry key_of t.p_data k' (r.buckets h')
    unfolding nodes
    old_entry h' k' l' =
        entry-same key_of t.p_data nodes k' (r.buckets h')
          (stored_in key_of hash_int t r.buckets f n h p bound valid hash_p fresh h' l')

    -- The entries of bucket `h`, which has the new node.
    first_entry :
        (k' : ℤ)
        → entry key_of nodes k' (n ∷ r.buckets h)
          ≡ (if eq_ℤ k k' then some p else entry key_of t.p_data k' (r.buckets h))
    unfolding entry search
    first_entry k' =
        rw (data_new, kp)
          (elim (Bool-cases (eq_ℤ k k')) [
            | inl e ↦ rw e (ap some data_new)
            | inr e ↦ rw e (old_entry h k' bound)
          ])

    other : (k' : ℤ) → (get_hash hash_int k' == h) ≡ false → eq_ℤ k k' ≡ false
    unfolding h
    other k' o = elim (Bool-cases (eq_ℤ k k')) [
      | inr e ↦ e
      | inl e ↦ absurd (ground (arith, ap (get_hash hash_int) ((eq_ℤ_iff k k').0 e)))
    ]

    holds_added :
        (k' : ℤ)
        → put k p m.entries k'
          ≡ entry key_of nodes k' (update r.buckets h (n ∷ r.buckets h) (get_hash hash_int k'))
    unfolding put h
    holds_added k' = elim (Bool-cases (get_hash hash_int k' == h)) [
      | inl e ↦
          rw (e, first_entry k', r.holds k')
            (ap (λ c. if eq_ℤ k k' then some p else entry key_of t.p_data k' (r.buckets c))
              ((==_iff (get_hash hash_int k') h).0 e))
      | inr e ↦
          rw (e, other k' e, old_entry (get_hash hash_int k') k' (get_hash_bound hash_int k'))
            (r.holds k')
    ]

    result-Represents :
        Represents key_of hash_int result
          (record { entries = put k p m.entries; room = m.room - 1 })
    unfolding result nodes added
    result-Represents = record {
      buckets = update r.buckets h (n ∷ r.buckets h);
      free = f;
      valid = added-IsTable key_of hash_int t r.buckets f n h p bound valid hash_p fresh;
      holds = holds_added;
      room = omega (arith, r.room, ap length z);
    }

  -- With room the key gets its entry, in a node that was free.
  pub add_node-room :
      m.room ≢ 0
      → (t' : Table P) × (add_node (get_hash hash_int k) p t ≡ some t')
        × Represents key_of hash_int t' (record { entries = put k p m.entries; room = m.room - 1 })
  unfolding h result added
  add_node-room e = elim (List-cases r.free) [
    | inl z ↦ absurd (e (r.room ∙ ap length z))
    | inr (n, f, z) ↦ (
      result n f z,
      add_node-added key_of hash_int t r.buckets f n (h n f z) p (bound n f z) (valid n f z),
      result-Represents n f z,
    )
  ]
