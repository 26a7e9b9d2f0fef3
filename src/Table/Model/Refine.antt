-- ===== src/Table/Model/Refine.antt =====
-- The table stands for a and its operations on nodes for those on the map.
use mathlib.Core.Option
use mathlib.Core.Option.{some-injective, some-ne-none}
use sphere_multithreading_cp.Prelude.{
  ==_iff, ==_refl, Bool-cases, List, Option, Option-cases, ap, eq_ℤ, eq_ℤ_iff, eq_ℤ_ne, false, inl,
  inr, length, none, some, sym, ℕ, ℤ, ◌<◌, ◌==◌, ◌∙◌, ◌≡◌,
}
use sphere_multithreading_cp.Table.{Nodes, Table, hash_table_size, set_stored, get_hash, find_node}
use sphere_multithreading_cp.Table.Chains.{frame, set_stored-SameLinks}
use sphere_multithreading_cp.Table.Shape.{IsTable, search, get_hash_bound}
use sphere_multithreading_cp.Table.Find.{find_node-search}
use sphere_multithreading_cp.Table.Model.{
  Model, put, Found, search-Found, entry, search-keys, UniqueKeys-keys,
}

module _ {P : Type 0} (key_of : P → ℤ) (hash_int : ℤ → ℕ) where
  -- The table `t` is in order and stands for the map `m`.
  pub record Represents (t : Table P) (m : Model P) : Type 0 where
    pub buckets : ℕ → List ℕ
    pub free : List ℕ
    pub valid : IsTable key_of hash_int t buckets free
    pub holds : (k : ℤ) → m.entries k ≡ entry key_of t.p_data k (buckets (get_hash hash_int k))
    pub room : m.room ≡ length free

  -- The code ended with the outcome and the map that the specification `s` gives.
  abbrev pub Implements : {A : Type 0} → A × Model P → Option (A × Table P) → Type 0
  Implements s c = (t : Table P) × (c ≡ some (s.0, t)) × Represents t s.1

  module _ (t : Table P) (m : Model P) (r : Represents t m) (k : ℤ) where
    abbrev pub place : List ℕ
    place = r.buckets (get_hash hash_int k)

    found : find_node key_of hash_int k t ≡ some (search key_of t.p_data k place)
    found = find_node-search key_of hash_int t r.buckets r.free k r.valid

    pub absent_search : m.entries k ≡ none → search key_of t.p_data k place ≡ none
    unfolding entry
    absent_search h =
        (Option.map-eq-none_iff (λ i. (t.p_data i).stored) (search key_of t.p_data k place)).0
          (sym (r.holds k) ∙ h)

    -- A key that the map lacks is not found.
    pub find_node-absent : m.entries k ≡ none → find_node key_of hash_int k t ≡ some none
    unfolding entry
    find_node-absent h = found ∙ ap some (absent_search h)

    -- A key of the map is found in the node that stores its entry.
    pub find_node-present :
        (p : P)
        → m.entries k ≡ some p
        → (i : ℕ) × (find_node key_of hash_int k t ≡ some (some i))
          × ((t.p_data i).stored ≡ p)
          × (search key_of t.p_data k (r.buckets (get_hash hash_int k)) ≡ some i)
    unfolding entry
    find_node-present p h = elim (Option-cases (search key_of t.p_data k place)) [
      | inl e ↦
          absurd (some-ne-none p (sym h ∙ r.holds k ∙ ap (Option.map (λ i. (t.p_data i).stored)) e))
      | inr (i, e) ↦ (
        i,
        found ∙ ap some e,
        some-injective _ _ (sym (r.holds k ∙ ap (Option.map (λ i. (t.p_data i).stored)) e) ∙ h),
        e,
      )
    ]

    bound : get_hash hash_int k < hash_table_size
    bound = get_hash_bound hash_int k

    module _ (i : ℕ) (here : search key_of t.p_data k (r.buckets (get_hash hash_int k)) ≡ some i)
        (p : P) where
      pub at_node : Found key_of t.p_data k (r.buckets (get_hash hash_int k)) i
      at_node = search-Found key_of t.p_data k _ i here

      pub present_key : (t.p_data i).stored ≡ p → key_of p ≡ k
      present_key s = ap key_of (sym s) ∙ at_node.has

      rewritten : Nodes P
      rewritten = set_stored i p t.p_data

      same_keys : key_of p ≡ k → (j : ℕ) → key_of (rewritten j).stored ≡ key_of (t.p_data j).stored
      unfolding rewritten set_stored
      same_keys kp j = elim (Bool-cases (j == i)) [
        | inl e ↦ rw (e, (==_iff j i).0 e, kp) (sym at_node.has)
        | inr e ↦ rw e
      ]

      stored_self : (rewritten i).stored ≡ p
      unfolding rewritten set_stored
      stored_self = rw (==_refl i)

      rewritten-IsTable :
          key_of p ≡ k → IsTable key_of hash_int (record t { p_data = rewritten }) r.buckets r.free
      unfolding rewritten
      rewritten-IsTable kp = record {
        chains = λ h l.
            frame t.p_data rewritten none (t.p_table h) (r.buckets h) (r.valid.chains h l)
              (set_stored-SameLinks i p t.p_data (r.buckets h));
        free_chain =
            frame t.p_data rewritten none t.free_node r.free r.valid.free_chain
              (set_stored-SameLinks i p t.p_data r.free);
        hashed = λ h j l e. ap (get_hash hash_int) (same_keys kp j) ∙ r.valid.hashed h j l e;
        apart = r.valid.apart;
        distinct = r.valid.distinct;
        free_distinct = r.valid.free_distinct;
        unique = λ h l.
            UniqueKeys-keys key_of t.p_data rewritten (r.buckets h) (same_keys kp)
              (r.valid.unique h l);
        count = r.valid.count;
      }

      rewritten_other :
          (j : ℕ) (k' : ℤ) (xs : List ℕ)
          → eq_ℤ k k' ≡ false
          → search key_of t.p_data k' xs ≡ some j
          → (rewritten j).stored ≡ (t.p_data j).stored
      unfolding rewritten set_stored
      rewritten_other j k' xs ne e = elim (Bool-cases (j == i)) [
        | inl s ↦ absurd (
            eq_ℤ_ne k k' ne (
              sym at_node.has
              ∙ ap (λ n. key_of (t.p_data n).stored) (sym ((==_iff j i).0 s))
              ∙ (search-Found key_of t.p_data k' xs j e).has))
        | inr s ↦ rw s
      ]

      holds_rewritten :
          key_of p ≡ k
          → (k' : ℤ)
          → put k p m.entries k' ≡ entry key_of rewritten k' (r.buckets (get_hash hash_int k'))
      unfolding put entry
      holds_rewritten kp k' = elim (Bool-cases (eq_ℤ k k')) [
        | inl e ↦
            rw
              (
                e,
                ← ((eq_ℤ_iff k k').0 e),
                search-keys key_of t.p_data rewritten k _ (same_keys kp),
                here,
              )
              (ap some (sym stored_self))
        | inr e ↦
            rw (e, search-keys key_of t.p_data rewritten k' _ (same_keys kp), r.holds k')
              (elim (Option-cases (search key_of t.p_data k' (r.buckets (get_hash hash_int k')))) [
                | inl n ↦ rw n
                | inr (j, n) ↦ rw n (ap some (sym (rewritten_other j k' _ e n)))
              ])
      ]

      -- New contents for the node of a key.
      pub set_stored-Represents :
          key_of p ≡ k
          → Represents
              (record t { p_data = set_stored i p t.p_data })
              (record m { entries = put k p m.entries })
      unfolding rewritten
      set_stored-Represents kp = record {
        buckets = r.buckets;
        free = r.free;
        valid = rewritten-IsTable kp;
        holds = holds_rewritten kp;
        room = r.room;
      }
