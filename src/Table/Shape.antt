-- ===== src/Table/Shape.antt =====
-- The invariant of the table: which nodes stand in which bucket, and which are free.
use sphere_multithreading_cp.Prelude.{
  ==_iff, Bool, Bool-cases, Distinct, List, Option, [], ap, arith, eq_ℤ, false, if◌then◌else◌, inl,
  inr, length, mem, none, refl, some, suc, true, zero, ℕ, ℤ, ◌++◌, ◌+◌, ◌<◌, ◌==◌, ◌||◌, ◌∙◌, ◌∷◌,
  ◌≡◌, ◌≤◌,
}
use sphere_multithreading_cp.Table.{Nodes, Table, update, hash_table_size, buffer_size, get_hash}
use sphere_multithreading_cp.Table.Chains.{Dll}

-- The number of nodes in the first `n` buckets.
unfoldable pub total : (ℕ → List ℕ) → ℕ → ℕ
total b zero = 0
total b (suc n) = total b n + length (b n)

length-le-total : (b : ℕ → List ℕ) (n h : ℕ) → h < n → length (b h) ≤ total b n
unfolding total
length-le-total b zero h l = absurd (omega arith)
length-le-total b (suc n) h l = elim (Bool-cases (h == n)) [
  | inl e ↦ rw ((==_iff h n).0 e) (omega arith)
  | inr e ↦ omega (arith, length-le-total b n h (ground arith))
]

total-update_past :
    (b : ℕ → List ℕ) (n h : ℕ) (l : List ℕ) → n ≤ h → total (update b h l) n ≡ total b n
unfolding total
total-update_past b zero h l k = refl
total-update_past b (suc n) h l k = ground (arith, total-update_past b n h l)

pub total-update :
    (b : ℕ → List ℕ) (n h : ℕ) (l : List ℕ)
    → h < n
    → total (update b h l) n + length (b h) ≡ total b n + length l
unfolding total
total-update b zero h l k = absurd (omega arith)
total-update b (suc n) h l k = elim (Bool-cases (n == h)) [
  | inl e ↦ rw (e, (==_iff n h).0 e) (omega (arith, total-update_past b h h l))
  | inr e ↦ rw e (omega (arith, total-update b n h l (ground arith)))
]

pub get_hash_bound : (hash_int : ℤ → ℕ) (k : ℤ) → get_hash hash_int k < hash_table_size
unfolding get_hash
get_hash_bound hash_int k = omega arith

module _ {P : Type 0} (key_of : P → ℤ) where
  unfoldable pub has_key : Nodes P → ℤ → List ℕ → Bool
  has_key d k [] = false
  has_key d k (i ∷ xs) = eq_ℤ (key_of (d i).stored) k || has_key d k xs

  -- No key twice.
  unfoldable pub UniqueKeys : Nodes P → List ℕ → Type 0
  UniqueKeys d [] = Unit
  UniqueKeys d (i ∷ xs) = (has_key d (key_of (d i).stored) xs ≡ false) × UniqueKeys d xs

  -- The first node with the key.
  unfoldable pub search : Nodes P → ℤ → List ℕ → Option ℕ
  search d k [] = none
  search d k (i ∷ xs) = if eq_ℤ (key_of (d i).stored) k then some i else search d k xs

  -- `e` stores at the nodes of `xs` what `d` stores there.
  abbrev pub SameStored : Nodes P → Nodes P → List ℕ → Type 0
  SameStored d e xs = (j : ℕ) → mem j xs ≡ true → (e j).stored ≡ (d j).stored

  pub has_key-same :
      (d e : Nodes P) (k : ℤ) (xs : List ℕ) → SameStored d e xs → has_key e k xs ≡ has_key d k xs
  unfolding has_key
  has_key-same d e k [] h = refl
  has_key-same d e k (i ∷ xs) h =
      rw (h i (ground arith), has_key-same d e k xs (λ j m. h j (ground arith)))

  pub UniqueKeys-same :
      (d e : Nodes P) (xs : List ℕ) → SameStored d e xs → UniqueKeys d xs → UniqueKeys e xs
  unfolding UniqueKeys
  UniqueKeys-same d e [] h u = tt
  UniqueKeys-same d e (i ∷ xs) h u =
      let tail = λ (j : ℕ) (m : mem j xs ≡ true). h j (ground arith) in
      (
        has_key-same d e _ xs tail ∙ ap (λ s. has_key d (key_of s) xs) (h i (ground arith)) ∙ u.0,
        UniqueKeys-same d e xs tail u.1,
      )

  has_key-append :
      (d : Nodes P) (k : ℤ) (xs ys : List ℕ)
      → has_key d k (xs ++ ys) ≡ (has_key d k xs || has_key d k ys)
  unfolding has_key
  has_key-append d k [] ys = refl
  has_key-append d k (x ∷ xs) ys = ground (arith, has_key-append d k xs ys)

  pub has_key-remove :
      (d : Nodes P) (k : ℤ) (n : ℕ) (xs ys : List ℕ)
      → has_key d k (xs ++ n ∷ ys) ≡ false
      → has_key d k (xs ++ ys) ≡ false
  unfolding has_key
  has_key-remove d k n xs ys h =
      ground (arith, has_key-append d k xs (n ∷ ys), has_key-append d k xs ys)

  pub UniqueKeys-remove :
      (d : Nodes P) (n : ℕ) (xs ys : List ℕ) → UniqueKeys d (xs ++ n ∷ ys) → UniqueKeys d (xs ++ ys)
  unfolding UniqueKeys
  UniqueKeys-remove d n [] ys h = h.1
  UniqueKeys-remove d n (x ∷ xs) ys h =
      (has_key-remove d (key_of (d x).stored) n xs ys h.0, UniqueKeys-remove d n xs ys h.1)

  pub search-same :
      (d e : Nodes P) (k : ℤ) (xs : List ℕ) → SameStored d e xs → search e k xs ≡ search d k xs
  unfolding search
  search-same d e k [] h = refl
  search-same d e k (i ∷ xs) h =
      rw (h i (ground arith), search-same d e k xs (λ j m. h j (ground arith)))

module _ {P : Type 0} (key_of : P → ℤ) (hash_int : ℤ → ℕ) where
  -- Bucket `h` is the chain of the nodes `b h`, whose keys have the hash `h`; the other nodes of the
  -- buffer are the chain `f` of free ones.
  pub record IsTable (t : Table P) (b : ℕ → List ℕ) (f : List ℕ) : Type 0 where
    pub chains : (h : ℕ) → h < hash_table_size → Dll t.p_data none (t.p_table h) (b h)
    pub free_chain : Dll t.p_data none t.free_node f
    pub hashed :
        (h i : ℕ)
        → h < hash_table_size
        → mem i (b h) ≡ true
        → get_hash hash_int (key_of (t.p_data i).stored) ≡ h
    pub apart : (h i : ℕ) → h < hash_table_size → mem i (b h) ≡ true → mem i f ≡ false
    pub distinct : (h : ℕ) → h < hash_table_size → Distinct (b h)
    pub free_distinct : Distinct f
    pub unique : (h : ℕ) → h < hash_table_size → UniqueKeys key_of t.p_data (b h)
    pub count : total b hash_table_size + length f ≡ buffer_size

  pub bucket_bound :
      (t : Table P) (b : ℕ → List ℕ) (f : List ℕ) (h : ℕ)
      → IsTable t b f
      → h < hash_table_size
      → length (b h) ≤ buffer_size
  bucket_bound t b f h v l = omega (arith, length-le-total b hash_table_size h l, v.count)
