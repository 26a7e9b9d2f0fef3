-- ===== src/Table/Insert.antt =====
-- A node for a new key: `get_node_free`, the writes to the node and the links in `set`.
use sphere_multithreading_cp.Prelude.{
  ==_iff, ==_refl, Bool-cases, List, [], ap, arith, false, if◌then◌else◌, inl, inr, mem, none, some,
  sym, true, ℕ, ℤ, ◌<◌, ◌==◌, ◌∙◌, ◌∷◌, ◌≡◌,
}
use sphere_multithreading_cp.Table.{
  Nodes, Table, update, hash_table_size, set_next, set_prev, set_stored, get_hash, get_node_free,
  link_node, add_node,
}
use sphere_multithreading_cp.Table.Chains.{
  Dll, SameLinks, outside, frame, head_outside, set_next-stored, set_prev-stored,
  set_next-SameLinks, set_prev-SameLinks, set_stored-SameLinks, Dll-set_prev, Dll-push,
}
use sphere_multithreading_cp.Table.Chains.Unlink.{SameLinks-trans}
use sphere_multithreading_cp.Table.Shape.{
  IsTable, total-update, has_key, UniqueKeys, SameStored, has_key-same, UniqueKeys-same,
}

-- With no node free nothing is taken and the call fails.
pub add_node-full :
    {P : Type 0} (key_of : P → ℤ) (hash_int : ℤ → ℕ) (t : Table P) (b : ℕ → List ℕ) (h : ℕ) (p : P)
    → IsTable key_of hash_int t b []
    → add_node h p t ≡ none
unfolding add_node get_node_free
add_node-full key_of hash_int t b h p v = rw (v.free_chain)

module _ {P : Type 0} (key_of : P → ℤ) (hash_int : ℤ → ℕ) (t : Table P) (b : ℕ → List ℕ)
    (f : List ℕ) (n h : ℕ) (p : P) (l : h < hash_table_size)
    (v : IsTable key_of hash_int t b (n ∷ f)) where
  taken : Nodes P
  taken = set_prev (t.p_data n).n_next none t.p_data

  written : Nodes P
  written = set_stored n p taken

  pub linked : Nodes P
  linked = set_prev (t.p_table h) (some n) (set_next (some n) (t.p_table h) written)

  -- The table after `add_node`.
  unfoldable pub added : Table P
  added = record {
    p_table = update t.p_table h (some n);
    free_node = (t.p_data n).n_next;
    p_data = linked;
  }

  pub add_node-added : add_node h p t ≡ some added
  unfolding add_node get_node_free link_node added linked written taken
  add_node-added = rw (v.free_chain.0)

  pub linked-stored : (j : ℕ) → (linked j).stored ≡ (if j == n then p else (t.p_data j).stored)
  unfolding linked written taken set_stored
  linked-stored j =
      set_prev-stored (t.p_table h) (some n) _ j
      ∙ set_next-stored (some n) (t.p_table h) _ j
      ∙ ground (arith, set_prev-stored (t.p_data n).n_next none t.p_data j)

  linked-stored_other : (j : ℕ) → (j == n) ≡ false → (linked j).stored ≡ (t.p_data j).stored
  linked-stored_other j o = rw (linked-stored j, o)

  -- A list that shares no node with the free ones keeps its links until the node is linked.
  written-SameLinks :
      (xs : List ℕ) → ((j : ℕ) → mem j xs ≡ true → mem j f ≡ false) → SameLinks t.p_data written xs
  unfolding written taken
  written-SameLinks xs away =
      SameLinks-trans t.p_data taken written xs
        (set_prev-SameLinks (t.p_data n).n_next none t.p_data xs (
          head_outside t.p_data (some n) (t.p_data n).n_next f xs v.free_chain.2
            (λ j m. ground (arith, away j))))
        (set_stored-SameLinks n p taken xs)

  -- A list with neither the node nor the first one of bucket `h` keeps its links when it is linked.
  linked-SameLinks :
      (xs : List ℕ)
      → mem n xs ≡ false
      → outside (t.p_table h) xs ≡ true
      → SameLinks written linked xs
  unfolding linked
  linked-SameLinks xs out away =
      SameLinks-trans written (set_next (some n) (t.p_table h) written) linked xs
        (set_next-SameLinks (some n) (t.p_table h) written xs (ground arith))
        (set_prev-SameLinks (t.p_table h) (some n) _ xs away)

  -- The head of bucket `h` stands in no other list.
  head_away :
      (xs : List ℕ)
      → ((j : ℕ) → mem j (b h) ≡ true → mem j xs ≡ false)
      → outside (t.p_table h) xs ≡ true
  head_away xs = head_outside t.p_data none (t.p_table h) (b h) xs (v.chains h l)

  other_bucket :
      (h' j : ℕ)
      → h' < hash_table_size
      → (h' == h) ≡ false
      → mem j (b h) ≡ true
      → mem j (b h') ≡ false
  other_bucket h' j l' o m = elim (Bool-cases (mem j (b h'))) [
    | inr e ↦ e
    | inl e ↦ absurd (ground (arith, v.hashed h' j l', v.hashed h j l))
  ]

  not_free :
      (h' j : ℕ)
      → h' < hash_table_size
      → mem j (b h') ≡ true
      → (mem j f ≡ false) × ((j == n) ≡ false)
  not_free h' j l' m = ground (arith, v.apart h' j l')

  not_in_bucket : (h' : ℕ) → h' < hash_table_size → mem n (b h') ≡ false
  not_in_bucket h' l' = ground (arith, v.apart h' n l')

  chain_of_h : Dll linked none (some n) (n ∷ b h)
  unfolding linked
  chain_of_h =
      Dll-push written (t.p_table h) n (b h) (not_in_bucket h l, v.distinct h l)
        (frame t.p_data written none (t.p_table h) (b h) (v.chains h l)
          (written-SameLinks (b h) (λ j m. (not_free h j l m).0)))
        ((written-SameLinks (n ∷ []) (λ j m. ground (arith, v.free_distinct.0)) n (ground arith)).0
          ∙ v.free_chain.1)

  chain_of_other :
      (h' : ℕ) → h' < hash_table_size → (h' == h) ≡ false → Dll linked none (t.p_table h') (b h')
  chain_of_other h' l' o = frame t.p_data linked none (t.p_table h') (b h') (v.chains h' l') (
      SameLinks-trans t.p_data written linked (b h')
        (written-SameLinks (b h') (λ j m. (not_free h' j l' m).0))
        (linked-SameLinks (b h') (not_in_bucket h' l')
          (head_away (b h') (λ j m. other_bucket h' j l' o m))))

  chain_of_free : Dll linked none (t.p_data n).n_next f
  unfolding written taken
  chain_of_free =
      let d =
        Dll-set_prev t.p_data (some n) none (t.p_data n).n_next f v.free_distinct.1
          v.free_chain.2 in
      let e = frame taken written none (t.p_data n).n_next f d (set_stored-SameLinks n p taken f) in
      frame written linked none (t.p_data n).n_next f e
        (linked-SameLinks f v.free_distinct.0 (head_away f (λ j m. (not_free h j l m).0)))

  module _ (hp : get_hash hash_int (key_of p) ≡ h)
      (fresh : has_key key_of t.p_data (key_of p) (b h) ≡ false) where
    pub stored_in : (h' : ℕ) → h' < hash_table_size → SameStored key_of t.p_data linked (b h')
    stored_in h' l' j m = linked-stored_other j (not_free h' j l' m).1

    pub stored_new : (linked n).stored ≡ p
    stored_new = rw (linked-stored n, ==_refl n)

    hashed_in :
        (h' i : ℕ)
        → h' < hash_table_size
        → mem i (b h') ≡ true
        → get_hash hash_int (key_of (linked i).stored) ≡ h'
    hashed_in h' i l' m = rw (stored_in h' l' i m) (v.hashed h' i l' m)

    hashed_first :
        (i : ℕ) → mem i (n ∷ b h) ≡ true → get_hash hash_int (key_of (linked i).stored) ≡ h
    hashed_first i m = elim (Bool-cases (i == n)) [
      | inl e ↦ rw ((==_iff i n).0 e, stored_new) hp
      | inr e ↦ hashed_in h i l (ground arith)
    ]

    unique_first : has_key key_of linked (key_of (linked n).stored) (b h) ≡ false
    unique_first =
        has_key-same key_of t.p_data linked _ (b h) (stored_in h l)
        ∙ ap (λ s. has_key key_of t.p_data (key_of s) (b h)) stored_new
        ∙ fresh

    -- The node is the first of its bucket now, and the list of free nodes is shorter by it.
    pub added-IsTable : IsTable key_of hash_int added (update b h (n ∷ b h)) f
    unfolding added UniqueKeys
    added-IsTable = record {
      chains = λ h' l'. elim (Bool-cases (h' == h)) [
        | inl e ↦ rw e chain_of_h
        | inr e ↦ rw e (chain_of_other h' l' e)
      ];
      free_chain = chain_of_free;
      hashed = λ h' i l' m. elim (Bool-cases (h' == h)) [
        | inl e ↦ hashed_first i (rw e at m) ∙ sym ((==_iff h' h).0 e)
        | inr e ↦ hashed_in h' i l' (rw e at m)
      ];
      apart = λ h' i l' m. elim (Bool-cases (h' == h)) [
        | inl e ↦ ground (arith, not_free h i l, v.free_distinct.0)
        | inr e ↦ ground (arith, not_free h' i l')
      ];
      distinct = λ h' l'. elim (Bool-cases (h' == h)) [
        | inl e ↦ rw e (not_in_bucket h l, v.distinct h l)
        | inr e ↦ rw e (v.distinct h' l')
      ];
      free_distinct = v.free_distinct.1;
      unique = λ h' l'. elim (Bool-cases (h' == h)) [
        | inl e ↦ rw e (
          unique_first,
          UniqueKeys-same key_of t.p_data linked (b h) (stored_in h l) (v.unique h l),
        )
        | inr e ↦
            rw e (UniqueKeys-same key_of t.p_data linked (b h') (stored_in h' l') (v.unique h' l'))
      ];
      count = omega (arith, total-update b hash_table_size h (n ∷ b h) l, v.count);
    }
