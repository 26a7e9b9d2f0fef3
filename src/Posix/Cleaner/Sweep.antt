-- ===== src/Posix/Cleaner/Sweep.antt =====
-- What a pass of the cleaner does to the buckets.
use sphere_multithreading_cp.Prelude.{
  ==_refl, Bool-cases, List, [], append_assoc, arith, false, fun_ext, if◌then◌else◌, inl, inr, leb,
  length, ltb, none, refl, some, suc, sym, true, zero, ℕ, ℤ, ◌&&◌, ◌++◌, ◌+◌, ◌/◌, ◌<◌, ◌==◌, ◌∙◌,
  ◌∷◌, ◌≡◌, ◌≤◌,
}
use sphere_multithreading_cp.Table.{
  Nodes, NodePtr, update, hash_table_size, buffer_size, get_next, set_node_free,
}
use sphere_multithreading_cp.Table.Chains.{Dll}
use sphere_multithreading_cp.Table.Shape.{IsTable, bucket_bound}
use sphere_multithreading_cp.Table.Free.{set_node_free-IsTable, set_node_free-stored}
use sphere_multithreading_cp.Posix.{Entry, Store, is_expired}
use sphere_multithreading_cp.Posix.Worker.{num_sections}
use sphere_multithreading_cp.Posix.Cleaner.{clean_chain, clean_section}

-- The nodes of a bucket that are not expired.
unfoldable pub kept : ℤ → Nodes Entry → List ℕ → List ℕ
kept now d [] = []
kept now d (i ∷ xs) =
    let rest = kept now d xs in if is_expired now (d i).stored then rest else i ∷ rest

-- The tables store the same at every node.
abbrev pub SameNodes : Nodes Entry → Nodes Entry → Type 0
SameNodes d e = (j : ℕ) → (e j).stored ≡ (d j).stored

pub kept-same :
    (now : ℤ) (d e : Nodes Entry) (xs : List ℕ) → SameNodes d e → kept now e xs ≡ kept now d xs
unfolding kept
kept-same now d e [] h = refl
kept-same now d e (i ∷ xs) h = rw (h i, kept-same now d e xs h)

abbrev head_of : List ℕ → NodePtr
head_of [] = none
head_of (x ∷ xs) = some x

Dll-head : (d : Nodes Entry) (prev p : NodePtr) (xs : List ℕ) → Dll d prev p xs → p ≡ head_of xs
Dll-head d prev p [] h = h
Dll-head d prev p (x ∷ xs) h = h.0

Dll-next :
    (d : Nodes Entry) (prev p : NodePtr) (xs : List ℕ) (i : ℕ) (ys : List ℕ)
    → Dll d prev p (xs ++ i ∷ ys)
    → (d i).n_next ≡ head_of ys
Dll-next d prev p [] i ys h = Dll-head d (some i) (d i).n_next ys h.2
Dll-next d prev p (x ∷ xs) i ys h = Dll-next d (some x) (d x).n_next xs i ys h.2

update-twice : (b : ℕ → List ℕ) (h : ℕ) (l m : List ℕ) → update (update b h l) h m ≡ update b h m
update-twice b h l m = fun_ext (λ j. ground arith)

update-same : (b : ℕ → List ℕ) (h : ℕ) → update b h (b h) ≡ b
update-same b h = fun_ext (λ j. ground arith)

module _ (hash_int : ℤ → ℕ) (now : ℤ) where
  -- A table in order with the buckets `b'` that stores what `t` stores.
  pub record Swept (t t' : Store) (b' : ℕ → List ℕ) : Type 0 where
    pub free : List ℕ
    pub valid : IsTable Entry.key hash_int t' b' free
    pub same : SameNodes t.p_data t'.p_data

  chain_step :
      (fuel i : ℕ) (t : Store)
      → clean_chain (suc fuel) now (some i) t
        ≡ clean_chain fuel now
            (t.p_data i).n_next
            (if is_expired now (t.p_data i).stored then set_node_free i t else t)
  unfolding clean_chain get_next
  chain_step fuel i t = refl

  clean_chain_lem :
      (fuel : ℕ) (t : Store) (b : ℕ → List ℕ) (f : List ℕ) (h : ℕ) (xs ys : List ℕ) (p : NodePtr)
      → IsTable Entry.key hash_int t b f
      → h < hash_table_size
      → b h ≡ xs ++ ys
      → p ≡ head_of ys
      → length ys ≤ fuel
      → (t' : Store) × (clean_chain fuel now p t ≡ some t')
        × Swept t t' (update b h (xs ++ kept now t.p_data ys))
  unfolding clean_chain kept
  clean_chain_lem fuel t b f h xs [] p v l e q n =
      rw (q, ← e, update-same b h) (t, refl, record { free = f; valid = v; same = λ j. refl })
  clean_chain_lem zero t b f h xs (i ∷ ys) p v l e q n = absurd (omega arith)
  clean_chain_lem (suc fuel) t b f h xs (i ∷ ys) p v l e q n =
      let next = Dll-next t.p_data none (t.p_table h) xs i ys (rw e at (v.chains h l)) in
      elim (Bool-cases (is_expired now (t.p_data i).stored)) [
        | inl old ↦
            let same = set_node_free-stored Entry.key hash_int t b f i h xs ys l v e in
            let (t', c, s) =
              clean_chain_lem fuel (set_node_free i t) (update b h (xs ++ ys)) (i ∷ f) h xs ys
                (head_of ys) (set_node_free-IsTable Entry.key hash_int t b f i h xs ys l v e) l
                (rw (==_refl h)) refl (omega arith) in
            rw (q, chain_step fuel i t, old, next)
              (
                t',
                c,
                record {
                  free = s.free;
                  valid =
                      rw
                        (
                          update-twice b h (xs ++ ys)
                              (xs ++ kept now (set_node_free i t).p_data ys),
                          kept-same now t.p_data (set_node_free i t).p_data ys same,
                        )
                        at s.valid;
                  same = λ j. s.same j ∙ same j;
                },
              )
        | inr young ↦
            let (t', c, s) =
              clean_chain_lem fuel t b f h (xs ++ i ∷ []) ys (head_of ys) v l
                (e ∙ sym (append_assoc xs (i ∷ []) ys)) refl (omega arith) in
            rw (q, chain_step fuel i t, young, next)
              (t', c, rw (append_assoc xs (i ∷ []) (kept now t.p_data ys)) at s)
      ]

  -- The buckets when those from `i` to `j` have been looked through.
  unfoldable pub swept_range : (i j : ℕ) → Nodes Entry → (ℕ → List ℕ) → ℕ → List ℕ
  swept_range i j d b h = if leb i h && ltb h j then kept now d (b h) else b h

  swept_none : (i : ℕ) (d : Nodes Entry) (b : ℕ → List ℕ) → swept_range i i d b ≡ b
  unfolding swept_range
  swept_none i d b = fun_ext (λ h. ground arith)

  swept_next :
      (i j : ℕ) (d e : Nodes Entry) (b : ℕ → List ℕ)
      → i < j
      → SameNodes d e
      → swept_range (i + 1) j e (update b i (kept now d (b i))) ≡ swept_range i j d b
  unfolding swept_range
  swept_next i j d e b l same = fun_ext (λ h. ground (arith, kept-same now d e (b h) same))

  pub clean_section_lem :
      (k i : ℕ) (t : Store) (b : ℕ → List ℕ) (f : List ℕ)
      → IsTable Entry.key hash_int t b f
      → i + k ≡ num_sections
      → (t' : Store) × (clean_section (suc k) now 0 i t ≡ some (num_sections, t'))
        × Swept t t' (swept_range i num_sections t.p_data b)
  unfolding clean_section swept_range
  clean_section_lem zero i t b f v e =
      let past : (i / num_sections == 0) && ltb i num_sections ≡ false = ground arith in
      let at_end : i ≡ num_sections = omega arith in
      rw (clean_section, past, at_end, swept_none num_sections t.p_data b)
        (t, refl, record { free = f; valid = v; same = λ j. refl })
  clean_section_lem (suc k) i t b f v e =
      let inside : (i / num_sections == 0) && ltb i num_sections ≡ true = ground arith in
      let (t1, c, s) =
        clean_chain_lem buffer_size t b f i [] (b i) (t.p_table i) v (omega arith) refl
          (Dll-head t.p_data none (t.p_table i) (b i) (v.chains i (omega arith)))
          (bucket_bound Entry.key hash_int t b f i v (omega arith)) in
      let (t', c', s') =
        clean_section_lem k (i + 1) t1 (update b i (kept now t.p_data (b i))) s.free s.valid
          (omega arith) in
      rw (clean_section, inside, c, c')
        (
          t',
          refl,
          record {
            free = s'.free;
            valid =
                rw (swept_next i num_sections t.p_data t1.p_data b (omega arith) s.same) at
                  s'.valid;
            same = λ j. s'.same j ∙ s.same j;
          },
        )
