-- ===== src/Table/Free.antt =====
-- `set_node_free`: a node leaves its bucket and becomes the first of the free ones.
use sphere_multithreading_cp.Prelude.{
  ==_iff, ==_refl, Bool-cases, Distinct, Distinct-remove, List, ap, arith, false, if◌then◌else◌,
  inl, inr, is_empty, length, length-append, mem, mem-append, none, refl, some, subst, suc, sym,
  true, ℕ, ℤ, ◌++◌, ◌+◌, ◌<◌, ◌==◌, ◌∙◌, ◌∷◌, ◌≡◌,
}
use sphere_multithreading_cp.Table.{
  Nodes, Table, update, points_to, hash_table_size, set_next, set_prev, get_hash, unlink_table,
  set_node_free,
}
use sphere_multithreading_cp.Table.Chains.{
  Dll, SameLinks, frame, head_outside, set_next-stored, set_prev-stored, set_next-SameLinks,
  set_prev-SameLinks,
}
use sphere_multithreading_cp.Table.Chains.Unlink.{
  points_away, points_head, SameLinks-trans, unlinked, Dll-push_free, Dll-unlinked, prev_outside,
  next_outside,
}
use sphere_multithreading_cp.Table.Shape.{
  IsTable, total-update, UniqueKeys, UniqueKeys-same, UniqueKeys-remove,
}
use sphere_multithreading_cp.Table.Scan.{unlink_table-if}

module _ {P : Type 0} (key_of : P → ℤ) (hash_int : ℤ → ℕ) (t : Table P) (b : ℕ → List ℕ)
    (f : List ℕ) (n h : ℕ) (xs ys : List ℕ) (l : h < hash_table_size)
    (v : IsTable key_of hash_int t b f) (at : b h ≡ xs ++ n ∷ ys) where
  out : Nodes P
  out = unlinked t.p_data n

  freed : Nodes P
  freed = set_prev (some n) none (set_next (some n) t.free_node (set_prev t.free_node (some n) out))

  freed-stored : (j : ℕ) → (freed j).stored ≡ (t.p_data j).stored
  unfolding freed out
  freed-stored j =
      set_prev-stored (some n) none _ j
      ∙ set_next-stored (some n) t.free_node _ j
      ∙ set_prev-stored t.free_node (some n) _ j
      ∙ set_prev-stored (t.p_data n).n_next (t.p_data n).n_prev _ j
      ∙ set_next-stored (t.p_data n).n_prev (t.p_data n).n_next t.p_data j

  whole : Dll t.p_data none (t.p_table h) (xs ++ n ∷ ys)
  whole = subst (λ c. Dll t.p_data none (t.p_table h) c) at (v.chains h l)

  once : Distinct (xs ++ n ∷ ys)
  once = subst Distinct at (v.distinct h l)

  in_h : (j : ℕ) → mem j (xs ++ n ∷ ys) ≡ true → mem j (b h) ≡ true
  in_h j m = rw at m

  n_in_h : mem n (b h) ≡ true
  n_in_h = in_h n (ground (arith, mem-append n xs (n ∷ ys)))

  kept_in_h : (j : ℕ) → mem j (xs ++ ys) ≡ true → (mem j (b h) ≡ true) × ((j == n) ≡ false)
  kept_in_h j m = (
    in_h j (ground (arith, mem-append j xs ys, mem-append j xs (n ∷ ys))),
    ground (arith, (Distinct-remove n xs ys once).1),
  )

  other_bucket :
      (h' j : ℕ)
      → h' < hash_table_size
      → (h' == h) ≡ false
      → mem j (b h) ≡ true
      → mem j (b h') ≡ false
  other_bucket h' j l' o m = elim (Bool-cases (mem j (b h'))) [
    | inr e ↦ e
    | inl e ↦ absurd (ground (arith, v.hashed h' j l', v.hashed h j l))
  ]

  -- A list apart from bucket `h` keeps its links when the node is taken out.
  out-SameLinks :
      (zs : List ℕ) → ((j : ℕ) → mem j (b h) ≡ true → mem j zs ≡ false) → SameLinks t.p_data out zs
  unfolding out
  out-SameLinks zs away =
      let away' = λ (j : ℕ) (m : mem j (xs ++ n ∷ ys) ≡ true). away j (in_h j m) in
      SameLinks-trans t.p_data (set_next (t.p_data n).n_prev (t.p_data n).n_next t.p_data) out zs
        (set_next-SameLinks (t.p_data n).n_prev (t.p_data n).n_next t.p_data zs
          (prev_outside t.p_data (t.p_table h) n xs ys zs whole away'))
        (set_prev-SameLinks (t.p_data n).n_next (t.p_data n).n_prev _ zs
          (next_outside t.p_data (t.p_table h) n xs ys zs whole away'))

  -- A list with neither the node nor a free one keeps its links when the node is freed.
  freed-SameLinks :
      (zs : List ℕ)
      → mem n zs ≡ false
      → ((j : ℕ) → mem j f ≡ true → mem j zs ≡ false)
      → SameLinks out freed zs
  unfolding freed
  freed-SameLinks zs o away =
      let e = set_prev t.free_node (some n) out in
      let head = head_outside t.p_data none t.free_node f zs v.free_chain away in
      SameLinks-trans out e freed zs (set_prev-SameLinks t.free_node (some n) out zs head) (
        SameLinks-trans e (set_next (some n) t.free_node e) freed zs
          (set_next-SameLinks (some n) t.free_node e zs (ground arith))
          (set_prev-SameLinks (some n) none _ zs (ground arith)))

  not_free : (h' j : ℕ) → h' < hash_table_size → mem j (b h') ≡ true → mem j f ≡ false
  not_free h' j l' m = v.apart h' j l' m

  free_not_in :
      (h' j : ℕ) (zs : List ℕ)
      → h' < hash_table_size
      → ((i : ℕ) → mem i zs ≡ true → mem i (b h') ≡ true)
      → mem j f ≡ true
      → mem j zs ≡ false
  free_not_in h' j zs l' inside m = elim (Bool-cases (mem j zs)) [
    | inr e ↦ e
    | inl e ↦ absurd (ground (arith, v.apart h' j l' (inside j e)))
  ]

  chain_of_h : Dll freed none (if is_empty xs then (t.p_data n).n_next else t.p_table h) (xs ++ ys)
  unfolding out
  chain_of_h =
      frame out freed none _ (xs ++ ys)
        (Dll-unlinked t.p_data none (t.p_table h) n xs ys once refl whole)
        (freed-SameLinks (xs ++ ys) (Distinct-remove n xs ys once).1
          (λ j. free_not_in h j (xs ++ ys) l (λ i m. (kept_in_h i m).0)))

  chain_of_other :
      (h' : ℕ) → h' < hash_table_size → (h' == h) ≡ false → Dll freed none (t.p_table h') (b h')
  chain_of_other h' l' o = frame t.p_data freed none (t.p_table h') (b h') (v.chains h' l') (
      SameLinks-trans t.p_data out freed (b h') (out-SameLinks (b h') (λ j. other_bucket h' j l' o))
        (freed-SameLinks (b h') (other_bucket h' n l' o n_in_h)
          (λ j. free_not_in h' j (b h') l' (λ i m. m))))

  chain_of_free : Dll freed none (some n) (n ∷ f)
  unfolding freed
  chain_of_free =
      Dll-push_free out t.free_node n f (not_free h n l n_in_h, v.free_distinct)
        (frame t.p_data out none t.free_node f v.free_chain (out-SameLinks f (λ j. not_free h j l)))

  head_of_other :
      (h' : ℕ) → h' < hash_table_size → (h' == h) ≡ false → points_to (t.p_table h') n ≡ false
  head_of_other h' l' o =
      points_away t.p_data none (t.p_table h') n (b h') (v.chains h' l')
        (other_bucket h' n l' o n_in_h)

  one_head : (a : ℕ) → a < 0 + hash_table_size → points_to (t.p_table a) n ≡ true → a ≡ h
  one_head a l' e = elim (Bool-cases (a == h)) [
    | inl s ↦ (==_iff a h).0 s
    | inr s ↦ absurd (ground (arith, head_of_other a (omega arith) s))
  ]

  scanned :
      (j : ℕ)
      → j < hash_table_size
      → unlink_table hash_table_size 0 n (t.p_data n).n_next t.p_table j
        ≡ (if points_to (t.p_table j) n then (t.p_data n).n_next else t.p_table j)
  scanned j l' =
      unlink_table-if hash_table_size 0 n (t.p_data n).n_next t.p_table h j one_head (omega arith)
        (omega arith)

  freed_table : Table P
  freed_table = record {
    p_table = unlink_table hash_table_size 0 n (t.p_data n).n_next t.p_table;
    free_node = some n;
    p_data = freed;
  }

  set_node_free-freed_table : set_node_free n t ≡ freed_table
  unfolding set_node_free freed_table freed out
  set_node_free-freed_table = refl

  bucket_h : Dll freed none (freed_table.p_table h) (xs ++ ys)
  unfolding freed_table
  bucket_h =
      subst (λ r. Dll freed none r (xs ++ ys))
        (sym (
          scanned h l
          ∙ ap (λ c. if c then (t.p_data n).n_next else t.p_table h)
              (points_head t.p_data none (t.p_table h) n xs ys whole once)))
        chain_of_h

  bucket_other :
      (h' : ℕ)
      → h' < hash_table_size
      → (h' == h) ≡ false
      → Dll freed none (freed_table.p_table h') (b h')
  unfolding freed_table
  bucket_other h' l' o =
      subst (λ r. Dll freed none r (b h'))
        (sym (
          scanned h' l'
          ∙ ap (λ c. if c then (t.p_data n).n_next else t.p_table h') (head_of_other h' l' o)))
        (chain_of_other h' l' o)

  hashed_in :
      (h' i : ℕ)
      → h' < hash_table_size
      → mem i (b h') ≡ true
      → get_hash hash_int (key_of (freed i).stored) ≡ h'
  hashed_in h' i l' m = rw (freed-stored i) (v.hashed h' i l' m)

  apart_in :
      (h' i : ℕ)
      → h' < hash_table_size
      → mem i (b h') ≡ true
      → (i == n) ≡ false
      → mem i (n ∷ f) ≡ false
  apart_in h' i l' m o = rw (o, v.apart h' i l' m)

  freed_table-IsTable : IsTable key_of hash_int freed_table (update b h (xs ++ ys)) (n ∷ f)
  unfolding freed_table
  freed_table-IsTable = record {
    chains = λ h' l'. elim (Bool-cases (h' == h)) [
      | inl e ↦ rw ((==_iff h' h).0 e, ==_refl h) bucket_h
      | inr e ↦ rw e (bucket_other h' l' e)
    ];
    free_chain = chain_of_free;
    hashed = λ h' i l' m. elim (Bool-cases (h' == h)) [
      | inl e ↦ hashed_in h i l (kept_in_h i (rw e at m)).0 ∙ sym ((==_iff h' h).0 e)
      | inr e ↦ hashed_in h' i l' (rw e at m)
    ];
    apart = λ h' i l' m. elim (Bool-cases (h' == h)) [
      | inl e ↦ let (a, o) = kept_in_h i (rw e at m) in apart_in h i l a o
      | inr e ↦
          let m' : mem i (b h') ≡ true = rw e at m in
          apart_in h' i l' m' (ground (arith, other_bucket h' n l' e n_in_h))
    ];
    distinct = λ h' l'. elim (Bool-cases (h' == h)) [
      | inl e ↦ rw e (Distinct-remove n xs ys once).0
      | inr e ↦ rw e (v.distinct h' l')
    ];
    free_distinct = (not_free h n l n_in_h, v.free_distinct);
    unique = λ h' l'. elim (Bool-cases (h' == h)) [
      | inl e ↦ rw e (
          UniqueKeys-same key_of t.p_data freed (xs ++ ys) (λ j m. freed-stored j)
            (UniqueKeys-remove key_of t.p_data n xs ys
              (subst (UniqueKeys key_of t.p_data) at (v.unique h l))))
      | inr e ↦
          rw e
            (UniqueKeys-same key_of t.p_data freed (b h') (λ j m. freed-stored j) (v.unique h' l'))
    ];
    count = omega (arith, total-update b hash_table_size h (xs ++ ys) l, v.count, lengths);
  }
    where
      lengths : length (b h) ≡ suc (length (xs ++ ys))
      lengths = rw at (omega (arith, length-append xs (n ∷ ys), length-append xs ys))

  -- The node has left bucket `h`, and is the first of the free ones.
  pub set_node_free-IsTable :
      IsTable key_of hash_int (set_node_free n t) (update b h (xs ++ ys)) (n ∷ f)
  set_node_free-IsTable = rw set_node_free-freed_table freed_table-IsTable

  -- No node is written but for its links.
  pub set_node_free-stored : (j : ℕ) → ((set_node_free n t).p_data j).stored ≡ (t.p_data j).stored
  unfolding set_node_free freed_table freed
  set_node_free-stored j = ap (λ u. (u.p_data j).stored) set_node_free-freed_table ∙ freed-stored j
