-- ===== src/Table/Init.antt =====
-- `shared_memory_set`: the table of no keys, with every node free.
use mathlib.Core.Path.{subst₂}
use mathlib.Core.Bool.{false≢true}
use sphere_multithreading_cp.Prelude.{
  ==_iff, ==_refl, Bool-cases, Distinct, List, [], ap, arith, false, if◌then◌else◌, inl, inr,
  length, ltb, mem, none, refl, some, suc, sym, zero, ℕ, ℤ, ◌+◌, ◌-◌, ◌<◌, ◌==◌, ◌∙◌, ◌∷◌, ◌≡◌, ◌≤◌,
}
use sphere_multithreading_cp.Table.{
  Nodes, NodePtr, Table, update, hash_table_size, buffer_size, init_nodes, init_table,
  shared_memory_set,
}
use sphere_multithreading_cp.Table.Chains.{Dll}
use sphere_multithreading_cp.Table.Shape.{IsTable, total, UniqueKeys, search}
use sphere_multithreading_cp.Table.Model.{entry}
use sphere_multithreading_cp.Table.Model.Refine.{Represents}

-- i, i + 1, …: `k` of them.
range : ℕ → ℕ → List ℕ
range zero i = []
range (suc k) i = i ∷ range k (suc i)

length-range : (k i : ℕ) → length (range k i) ≡ k
unfolding range
length-range zero i = refl
length-range (suc k) i = ap suc (length-range k (suc i))

mem-range_below : (k i j : ℕ) → j < i → mem j (range k i) ≡ false
unfolding range
mem-range_below zero i j h = refl
mem-range_below (suc k) i j h = ground (arith, mem-range_below k (suc i) j)

Distinct-range : (k i : ℕ) → Distinct (range k i)
unfolding range
Distinct-range zero i = tt
Distinct-range (suc k) i = (mem-range_below k (suc i) i (omega arith), Distinct-range k (suc i))

init_table_below : (k i : ℕ) (f : ℕ → NodePtr) (j : ℕ) → j < i → init_table k i f j ≡ f j
unfolding init_table
init_table_below zero i f j h = refl
init_table_below (suc k) i f j h = init_table_below k (suc i) _ j (omega arith) ∙ ground arith

-- The first loop empties the buckets that it passes.
init_table-none :
    (k i : ℕ) (f : ℕ → NodePtr) (j : ℕ) → i ≤ j → j < i + k → init_table k i f j ≡ none
unfolding init_table
init_table-none zero i f j h l = absurd (omega arith)
init_table-none (suc k) i f j h l = elim (Bool-cases (j == i)) [
  | inl e ↦
      rw ((==_iff j i).0 e)
        (init_table_below k (suc i) (update f i none) i (omega arith) ∙ rw (==_refl i))
  | inr e ↦ init_table-none k (suc i) _ j (ground arith) (omega arith)
]

prev_of : ℕ → NodePtr
prev_of i = if ltb 0 i then some (i - 1) else none

next_of : ℕ → NodePtr
next_of i = if ltb i (buffer_size - 1) then some (i + 1) else none

prev_step : (i : ℕ) → prev_of (suc i) ≡ some i
unfolding prev_of
prev_step i = ground arith

next_step : (i : ℕ) → next_of i ≡ (if ltb (suc i) buffer_size then some (suc i) else none)
unfolding next_of
next_step i = ground arith

total-none : (n : ℕ) → total (λ _. []) n ≡ 0
unfolding total
total-none zero = refl
total-none (suc n) = omega (arith, total-none n)

module _ {P : Type 0} where
  init_nodes_below : (k i : ℕ) (d : Nodes P) (j : ℕ) → j < i → init_nodes k i d j ≡ d j
  unfolding init_nodes
  init_nodes_below zero i d j h = refl
  init_nodes_below (suc k) i d j h = init_nodes_below k (suc i) _ j (omega arith) ∙ ground arith

  init_nodes_at :
      (k i : ℕ) (d : Nodes P)
      → init_nodes (suc k) i d i ≡ record (d i) { n_prev = prev_of i; n_next = next_of i }
  unfolding init_nodes prev_of next_of
  init_nodes_at k i d = init_nodes_below k (suc i) _ i (omega arith) ∙ rw (==_refl i)

  -- The second loop joins each node with its neighbours.
  init_nodes-links :
      (k i : ℕ) (d : Nodes P) (j : ℕ)
      → i ≤ j
      → j < i + k
      → ((init_nodes k i d j).n_prev ≡ prev_of j) × ((init_nodes k i d j).n_next ≡ next_of j)
  unfolding init_nodes prev_of next_of
  init_nodes-links zero i d j h l = absurd (omega arith)
  init_nodes-links (suc k) i d j h l = elim (Bool-cases (j == i)) [
    | inl e ↦
        let at = init_nodes_at k i d in
        rw ((==_iff j i).0 e) (ap (λ x. x.n_prev) at, ap (λ x. x.n_next) at)
    | inr e ↦ init_nodes-links k (suc i) _ j (ground arith) (omega arith)
  ]

  Dll-range :
      (d : Nodes P) (k i : ℕ)
      → i + k ≡ buffer_size
      → ((j : ℕ) → j < buffer_size → ((d j).n_prev ≡ prev_of j) × ((d j).n_next ≡ next_of j))
      → Dll d (prev_of i) (if ltb i buffer_size then some i else none) (range k i)
  unfolding range prev_of next_of
  Dll-range d zero i h links = ground arith
  Dll-range d (suc k) i h links = (
    ground arith,
    (links i (omega arith)).0,
    subst₂ (λ q p. Dll d q p (range k (suc i))) (prev_step i)
        (sym ((links i (omega arith)).1 ∙ next_step i)) (Dll-range d k (suc i) (omega arith) links),
  )

module _ {P : Type 0} (key_of : P → ℤ) (hash_int : ℤ → ℕ) (t : Table P) where
  shared_memory_set-IsTable :
      IsTable key_of hash_int (shared_memory_set t) (λ _. []) (range buffer_size 0)
  unfolding shared_memory_set UniqueKeys prev_of
  shared_memory_set-IsTable = record {
    chains = λ h l. init_table-none hash_table_size 0 t.p_table h (omega arith) (omega arith);
    free_chain = chain;
    hashed = λ h i l m. absurd (false≢true m);
    apart = λ h i l m. absurd (false≢true m);
    distinct = λ h l. tt;
    free_distinct = Distinct-range buffer_size 0;
    unique = λ h l. tt;
    count = omega (arith, total-none hash_table_size, length-range buffer_size 0);
  }
    where
      d : Nodes P
      d = init_nodes buffer_size 0 t.p_data

      chain : Dll d none (some 0) (range buffer_size 0)
      chain =
          Dll-range d buffer_size 0 refl
            (λ j l. init_nodes-links buffer_size 0 t.p_data j (omega arith) (omega arith))

  -- After `shared_memory_set`, whatever the memory held, the table is in order and stands for the
  -- map of no keys, with room for `BUFFER_SIZE` entries.
  pub shared_memory_set-Represents :
      Represents key_of hash_int
        (shared_memory_set t)
        (record { entries = λ _. none; room = buffer_size })
  unfolding entry search
  shared_memory_set-Represents = record {
    buckets = λ _. [];
    free = range buffer_size 0;
    valid = shared_memory_set-IsTable;
    holds = λ k. refl;
    room = sym (length-range buffer_size 0);
  }
