-- ===== src/Table/Find.antt =====
-- `find_node` against a search through the list of the bucket.
use mathlib.Core.Option.{some-injective}
use sphere_multithreading_cp.Prelude.{
  Bool-cases, List, [], arith, eq_ℤ, inl, inr, length, none, refl, some, suc, zero, ℕ, ℤ, ◌∷◌, ◌≡◌,
  ◌≤◌,
}
use sphere_multithreading_cp.Table.{
  Nodes, NodePtr, Table, buffer_size, get_hash, find_from, find_node,
}
use sphere_multithreading_cp.Table.Chains.{Dll}
use sphere_multithreading_cp.Table.Shape.{IsTable, search, get_hash_bound, bucket_bound}

module _ {P : Type 0} (key_of : P → ℤ) (hash_int : ℤ → ℕ) where
  find_from-search :
      (fuel : ℕ) (d : Nodes P) (prev p : NodePtr) (k : ℤ) (xs : List ℕ)
      → Dll d prev p xs
      → length xs ≤ fuel
      → find_from key_of fuel p k d ≡ some (search key_of d k xs)
  unfolding find_from search
  find_from-search fuel d prev none k [] h l = refl
  find_from-search fuel d prev (some i) k [] h l = cc
  find_from-search fuel d prev none k (j ∷ xs) h l = cc
  find_from-search zero d prev (some i) k (j ∷ xs) h l = absurd (omega arith)
  find_from-search (suc fuel) d prev (some i) k (j ∷ xs) h l =
      let e : i ≡ j = some-injective i j h.0 in
      let ih = find_from-search fuel d (some j) (d j).n_next k xs h.2 (omega arith) in
      rw e (elim (Bool-cases (eq_ℤ (key_of (d j).stored) k)) [ inl y ↦ rw y | inr n ↦ rw n ih ])

  -- On a table in order `find_node` ends and finds what a search through the bucket of the key's
  -- hash finds, or null.
  pub find_node-search :
      (t : Table P) (b : ℕ → List ℕ) (f : List ℕ) (k : ℤ)
      → IsTable key_of hash_int t b f
      → find_node key_of hash_int k t ≡ some (search key_of t.p_data k (b (get_hash hash_int k)))
  unfolding find_node
  find_node-search t b f k v =
      let l = get_hash_bound hash_int k in
      let h = get_hash hash_int k in
      find_from-search buffer_size t.p_data none (t.p_table h) k (b h) (v.chains h l)
        (bucket_bound key_of hash_int t b f h v l)
