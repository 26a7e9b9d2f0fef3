-- ===== src/Table/Model.antt =====
-- What the table promises: a partial map from keys, and room for so many more. The operations on
-- nodes are operations on the map.
pub mod Add
pub mod Remove
pub mod Refine
use mathlib.Core.Option
use mathlib.Core.Option.{some-injective, some-ne-none}
use mathlib.Core.Bool.{false≢true}
use sphere_multithreading_cp.Prelude.{
  Bool-cases, List, Option, [], ap, eq_ℤ, eq_ℤ_iff, false, if◌then◌else◌, inl, inr, map, none, refl,
  some, sym, ℕ, ℤ, ◌++◌, ◌>>=◌, ◌∙◌, ◌∷◌, ◌≡◌,
}
use sphere_multithreading_cp.Table.{
  Node, Nodes, NodePtr, Table, update, hash_table_size, set_stored, get_hash, find_node, add_node,
  set_node_free,
}
use sphere_multithreading_cp.Table.Chains.{Dll, frame, set_stored-SameLinks}
use sphere_multithreading_cp.Table.Shape.{IsTable, search, has_key, UniqueKeys, get_hash_bound}
use sphere_multithreading_cp.Table.Find.{find_node-search}
use sphere_multithreading_cp.Table.Insert.{
  added, add_node-added, add_node-full, added-IsTable, linked, linked-stored,
}
use sphere_multithreading_cp.Table.Free.{set_node_free-IsTable, set_node_free-stored}

pub record Model (P : Type 0) : Type 0 where
  pub entries : ℤ → Option P
  pub room : ℕ

module _ {P : Type 0} where
  unfoldable pub put : ℤ → P → (ℤ → Option P) → ℤ → Option P
  put k p m j = if eq_ℤ k j then some p else m j

  unfoldable pub remove : ℤ → (ℤ → Option P) → ℤ → Option P
  remove k m j = if eq_ℤ k j then none else m j

module _ {P : Type 0} (key_of : P → ℤ) where
  -- What a search finds.
  pub record Found (d : Nodes P) (k : ℤ) (xs : List ℕ) (i : ℕ) : Type 0 where
    pub front : List ℕ
    pub back : List ℕ
    pub split : xs ≡ front ++ i ∷ back
    pub has : key_of (d i).stored ≡ k
    pub first : has_key key_of d k front ≡ false

  pub search-Found :
      (d : Nodes P) (k : ℤ) (xs : List ℕ) (i : ℕ) → search key_of d k xs ≡ some i → Found d k xs i
  unfolding search has_key
  search-Found d k [] i h = cc
  search-Found d k (x ∷ xs) i h = elim (Bool-cases (eq_ℤ (key_of (d x).stored) k)) [
    | inl e ↦
        let s : x ≡ i = some-injective x i (rw e at h) in
        rw (← s)
          (record { front = []; back = xs; split = refl; has = (eq_ℤ_iff _ k).0 e; first = refl })
    | inr e ↦
        let r = search-Found d k xs i (rw e at h) in
        record {
          front = x ∷ r.front;
          back = r.back;
          split = ap (◌∷◌ x) r.split;
          has = r.has;
          first = rw (e, r.first);
        }
  ]

  pub search-none :
      (d : Nodes P) (k : ℤ) (xs : List ℕ)
      → search key_of d k xs ≡ none
      → has_key key_of d k xs ≡ false
  unfolding search has_key
  search-none d k [] h = refl
  search-none d k (x ∷ xs) h = elim (Bool-cases (eq_ℤ (key_of (d x).stored) k)) [
    | inl e ↦ absurd (some-ne-none x (rw e at h))
    | inr e ↦ rw (e, search-none d k xs (rw e at h))
  ]

  pub none-search :
      (d : Nodes P) (k : ℤ) (xs : List ℕ)
      → has_key key_of d k xs ≡ false
      → search key_of d k xs ≡ none
  unfolding search has_key
  none-search d k [] h = refl
  none-search d k (x ∷ xs) h = elim (Bool-cases (eq_ℤ (key_of (d x).stored) k)) [
    | inl e ↦ absurd (false≢true (sym (rw e at h)))
    | inr e ↦ rw e (none-search d k xs (rw e at h))
  ]

  -- A node with another key does not change a search.
  pub search-remove :
      (d : Nodes P) (k : ℤ) (i : ℕ) (xs ys : List ℕ)
      → eq_ℤ (key_of (d i).stored) k ≡ false
      → search key_of d k (xs ++ i ∷ ys) ≡ search key_of d k (xs ++ ys)
  unfolding search
  search-remove d k i [] ys h = rw h
  search-remove d k i (x ∷ xs) ys h = rw (search-remove d k i xs ys h)

  -- The stored entry that a search finds.
  unfoldable pub entry : Nodes P → ℤ → List ℕ → Option P
  entry d k xs = Option.map (λ i. (d i).stored) (search key_of d k xs)

  search-keys :
      (d e : Nodes P) (k : ℤ) (xs : List ℕ)
      → ((j : ℕ) → key_of (e j).stored ≡ key_of (d j).stored)
      → search key_of e k xs ≡ search key_of d k xs
  unfolding search
  search-keys d e k [] h = refl
  search-keys d e k (x ∷ xs) h = rw (h x, search-keys d e k xs h)

  has_key-keys :
      (d e : Nodes P) (k : ℤ) (xs : List ℕ)
      → ((j : ℕ) → key_of (e j).stored ≡ key_of (d j).stored)
      → has_key key_of e k xs ≡ has_key key_of d k xs
  unfolding has_key
  has_key-keys d e k [] h = refl
  has_key-keys d e k (x ∷ xs) h = rw (h x, has_key-keys d e k xs h)

  UniqueKeys-keys :
      (d e : Nodes P) (xs : List ℕ)
      → ((j : ℕ) → key_of (e j).stored ≡ key_of (d j).stored)
      → UniqueKeys key_of d xs
      → UniqueKeys key_of e xs
  unfolding UniqueKeys
  UniqueKeys-keys d e [] h u = tt
  UniqueKeys-keys d e (x ∷ xs) h u =
      (has_key-keys d e (key_of (e x).stored) xs h ∙ rw (h x) u.0, UniqueKeys-keys d e xs h u.1)
