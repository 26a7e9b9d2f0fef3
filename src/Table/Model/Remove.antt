-- ===== src/Table/Model/Remove.antt =====
-- A key that goes: its node is free.
use mathlib.Core.Option
use sphere_multithreading_cp.Prelude.{
  ==_iff, ==_refl, Bool-cases, List, [], ap, arith, eq_ℤ, eq_ℤ_iff, false, inl, inr, none, some,
  subst, sym, true, ℕ, ℤ, ◌++◌, ◌+◌, ◌<◌, ◌==◌, ◌∙◌, ◌∷◌, ◌≡◌,
}
use sphere_multithreading_cp.Table.{Nodes, Table, update, hash_table_size, get_hash, set_node_free}
use sphere_multithreading_cp.Table.Shape.{UniqueKeys, search, has_key, get_hash_bound}
use sphere_multithreading_cp.Table.Free.{set_node_free-IsTable, set_node_free-stored}
use sphere_multithreading_cp.Table.Model.{
  Model, remove, entry, Found, search-Found, none-search, search-remove,
}
use sphere_multithreading_cp.Table.Model.Refine.{Represents}
use sphere_multithreading_cp.Table.Model.Add.{entry-same}

-- With unique keys nothing else has the key of the node that is found.
unique_absent :
    {P : Type 0} (key_of : P → ℤ) (d : Nodes P) (k : ℤ) (i : ℕ) (xs ys : List ℕ)
    → UniqueKeys key_of d (xs ++ i ∷ ys)
    → key_of (d i).stored ≡ k
    → has_key key_of d k xs ≡ false
    → has_key key_of d k (xs ++ ys) ≡ false
unfolding UniqueKeys has_key
unique_absent key_of d k i [] ys u e h = rw (← e) u.0
unique_absent key_of d k i (x ∷ xs) ys u e h =
    ground (arith, unique_absent key_of d k i xs ys u.1 e)

module _ {P : Type 0} (key_of : P → ℤ) (hash_int : ℤ → ℕ) (t : Table P) (m : Model P) (k : ℤ)
    (r : Represents key_of hash_int t m) (i : ℕ)
    (here : search key_of t.p_data k (r.buckets (get_hash hash_int k)) ≡ some i) where
  h : ℕ
  h = get_hash hash_int k

  bound : h < hash_table_size
  unfolding h
  bound = get_hash_bound hash_int k

  f : Found key_of t.p_data k (r.buckets (get_hash hash_int k)) i
  f = search-Found key_of t.p_data k _ i here

  split : r.buckets h ≡ f.front ++ i ∷ f.back
  unfolding h
  split = f.split

  result : Table P
  result = set_node_free i t

  new_entry :
      (k' : ℤ) (xs : List ℕ) → entry key_of result.p_data k' xs ≡ entry key_of t.p_data k' xs
  unfolding result
  new_entry k' xs = entry-same key_of t.p_data (set_node_free i t).p_data k' xs (λ j _.
      set_node_free-stored key_of hash_int t r.buckets r.free i h f.front f.back bound r.valid split
        j)

  gone : entry key_of t.p_data k (f.front ++ f.back) ≡ none
  unfolding entry
  gone = ap (Option.map (λ j. (t.p_data j).stored)) (
      none-search key_of t.p_data k (f.front ++ f.back) (
        unique_absent key_of t.p_data k i f.front f.back
          (subst (UniqueKeys key_of t.p_data) split (r.valid.unique h bound)) f.has f.first))

  others :
      (k' : ℤ)
      → eq_ℤ k k' ≡ false
      → get_hash hash_int k' ≡ h
      → m.entries k' ≡ entry key_of t.p_data k' (f.front ++ f.back)
  unfolding entry
  others k' ne e =
      r.holds k'
      ∙ ap (λ c. entry key_of t.p_data k' (r.buckets c)) e
      ∙ ap (entry key_of t.p_data k') split
      ∙ ap (Option.map (λ j. (t.p_data j).stored)) (
          search-remove key_of t.p_data k' i f.front f.back
            (subst (λ c. eq_ℤ c k' ≡ false) (sym f.has) ne))

  self :
      (k' : ℤ)
      → eq_ℤ k k' ≡ true
      → entry key_of t.p_data k' (update r.buckets h (f.front ++ f.back) (get_hash hash_int k'))
        ≡ entry key_of t.p_data k (f.front ++ f.back)
  unfolding h
  self k' e = rw (← ((eq_ℤ_iff k k').0 e), ==_refl (get_hash hash_int k))

  holds_freed :
      (k' : ℤ)
      → remove k m.entries k'
        ≡ entry key_of result.p_data k'
            (update r.buckets h (f.front ++ f.back) (get_hash hash_int k'))
  unfolding remove
  holds_freed k' = rw (new_entry k') (elim (Bool-cases (eq_ℤ k k')) [
    | inl e ↦ rw (e, self k' e) (sym gone)
    | inr e ↦ rw e (elim (Bool-cases (get_hash hash_int k' == h)) [
      | inl s ↦ rw s (others k' e ((==_iff (get_hash hash_int k') h).0 s))
      | inr s ↦ rw s (r.holds k')
    ])
  ])

  -- The map loses the key, and has room for one more.
  pub set_node_free-Represents :
      Represents key_of hash_int
        (set_node_free i t)
        (record { entries = remove k m.entries; room = m.room + 1 })
  unfolding result
  set_node_free-Represents = record {
    buckets = update r.buckets h (f.front ++ f.back);
    free = i ∷ r.free;
    valid =
        set_node_free-IsTable key_of hash_int t r.buckets r.free i h f.front f.back bound r.valid
          split;
    holds = holds_freed;
    room = omega (arith, r.room);
  }
