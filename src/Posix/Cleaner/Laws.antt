-- ===== src/Posix/Cleaner/Laws.antt =====
-- A pass of the cleaner on the map that the table stands for.
use sphere_multithreading_cp.Prelude.{
  Bool-cases, List, Option, [], ap, arith, eq_ℤ, eq_ℤ_iff, false, fun_ext, if◌then◌else◌, inl, inr,
  leb, length, ltb, none, ok, refl, some, suc, sym, true, zero, ℕ, ℤ, ◌&&◌, ◌+◌, ◌-◌, ◌/◌, ◌<◌,
  ◌==◌, ◌∙◌, ◌∷◌, ◌≡◌, ◌≤◌,
}
use sphere_multithreading_cp.Table.{Nodes, update, get_hash, hash_table_size}
use sphere_multithreading_cp.Table.Shape.{UniqueKeys, search, has_key, get_hash_bound}
use sphere_multithreading_cp.Table.Model.{entry, none-search}
use sphere_multithreading_cp.Table.Model.Refine.{Represents}
use sphere_multithreading_cp.Table.Model.Add.{entry-same}
use sphere_multithreading_cp.Posix.{Entry, Store, is_expired}
use sphere_multithreading_cp.Posix.Laws.{Map}
use sphere_multithreading_cp.Posix.Worker.{num_sections, sem_post, sem_wait}
use sphere_multithreading_cp.Posix.Cleaner.{clean_section, clean_from, clean}
use sphere_multithreading_cp.Posix.Cleaner.Sweep.{Swept, kept, swept_range, clean_section_lem}

-- What is left of an entry.
pub live : ℤ → Option Entry → Option Entry
live now none = none
live now (some e) = if is_expired now e then none else some e

-- The entries after a pass: those that are expired are gone from the first buckets.
pub sweep : (ℤ → ℕ) → ℤ → (ℤ → Option Entry) → ℤ → Option Entry
sweep hash_int now m k = if ltb (get_hash hash_int k) num_sections then live now (m k) else m k

has_key-kept :
    (now : ℤ) (d : Nodes Entry) (k : ℤ) (xs : List ℕ)
    → has_key Entry.key d k xs ≡ false
    → has_key Entry.key d k (kept now d xs) ≡ false
unfolding has_key kept
has_key-kept now d k [] h = refl
has_key-kept now d k (i ∷ xs) h = ground (arith, has_key-kept now d k xs)

entry-kept :
    (now : ℤ) (d : Nodes Entry) (k : ℤ) (xs : List ℕ)
    → UniqueKeys Entry.key d xs
    → entry Entry.key d k (kept now d xs) ≡ live now (entry Entry.key d k xs)
unfolding entry search kept live UniqueKeys
entry-kept now d k [] u = refl
entry-kept now d k (i ∷ xs) u = elim (Bool-cases (eq_ℤ (d i).stored.key k)) [
  | inl same ↦ elim (Bool-cases (is_expired now (d i).stored)) [
    | inr young ↦ rw (young, same, young)
    | inl old ↦
        let gone =
          none-search Entry.key d k (kept now d xs)
            (has_key-kept now d k xs (rw ((eq_ℤ_iff (d i).stored.key k).0 same) at u.0)) in
        rw (same, old, gone)
  ]
  | inr other ↦ elim (Bool-cases (is_expired now (d i).stored)) [
    | inl old ↦ rw (old, other) (entry-kept now d k xs u.1)
    | inr young ↦ rw (young, other) (entry-kept now d k xs u.1)
  ]
]

wait-post :
    (j : ℕ) (s : ℕ → ℕ)
    → j < num_sections
    → 0 < s j
    → (s' : ℕ → ℕ) × (sem_wait j s ≡ ok s') × (sem_post j s' ≡ ok s)
wait-post j s l p =
    let inside : ltb j num_sections ≡ true = ground arith in
    let one_free : (s j == 0) ≡ false = ground arith in
    (
      update s j (s j - 1),
      rw (inside, one_free) refl,
      rw inside (ap ok (fun_ext (λ i. ground arith))),
    )

clean_section_idle : (now : ℤ) (j : ℕ) (t : Store) → clean_section 9 now j 8 t ≡ some (8, t)
unfolding clean_section
clean_section_idle now j t =
    let past : ((8 / num_sections) == j) && ltb 8 num_sections ≡ false = ground arith in
    rw (clean_section, past)

clean_from_step :
    (left : ℕ) (now : ℤ) (j i i' : ℕ) (s s' s'' : ℕ → ℕ) (t t' : Store)
    → sem_wait j s ≡ ok s'
    → clean_section 9 now j i t ≡ some (i', t')
    → sem_post j s' ≡ ok s''
    → clean_from (suc left) now j i s t ≡ clean_from left now (j + 1) i' s'' t'
unfolding clean_from
clean_from_step left now j i i' s s' s'' t t' a c b = rw (clean_from, a, c, b)

clean_from_idle :
    (left : ℕ) (now : ℤ) (j : ℕ) (s : ℕ → ℕ) (t : Store)
    → j + left ≤ num_sections
    → ((i : ℕ) → i < num_sections → 0 < s i)
    → clean_from left now j num_sections s t ≡ ok (s, t)
unfolding clean_from
clean_from_idle zero now j s t l p = refl
clean_from_idle (suc left) now j s t l p =
    let (s', w, q) = wait-post j s (omega arith) (p j (omega arith)) in
    clean_from_step left now j 8 8 s s' s t t w (clean_section_idle now j t) q
    ∙ clean_from_idle left now (j + 1) s t (omega arith) p

entry-swept_range :
    (hash_int : ℤ → ℕ) (now : ℤ) (t t' : Store) (m : Map) (r : Represents Entry.key hash_int t m)
    → (w : Swept hash_int now t t' (swept_range hash_int now 0 num_sections t.p_data r.buckets))
    → (k : ℤ)
    → entry Entry.key t'.p_data k
        (swept_range hash_int now 0 num_sections t.p_data r.buckets (get_hash hash_int k))
      ≡ sweep hash_int now m.entries k
unfolding sweep swept_range
entry-swept_range hash_int now t t' m r w k =
    let h = get_hash hash_int k in
    let low : leb 0 h ≡ true = ground arith in
    let bound : h < hash_table_size = get_hash_bound hash_int k in
    let same : (xs : List ℕ) → entry Entry.key t'.p_data k xs ≡ entry Entry.key t.p_data k xs =
      λ xs. entry-same Entry.key t.p_data t'.p_data k xs (λ j n. w.same j) in
    elim (Bool-cases (ltb h num_sections)) [
      | inl early ↦
          rw (low, early)
            (same (kept now t.p_data (r.buckets h))
              ∙ (entry-kept now t.p_data k (r.buckets h) (r.valid.unique h bound)
                  ∙ ap (live now) (sym (r.holds k))))
      | inr late ↦ rw (low, late) (same (r.buckets h) ∙ sym (r.holds k))
    ]

-- A pass of the cleaner ends. It removes the expired keys whose hash is below `NUM_SECTIONS` and no
-- other, and leaves the semaphores as they were; each of these must be free at the start.
pub clean-sweep :
    (hash_int : ℤ → ℕ) (now : ℤ) (s : ℕ → ℕ) (t : Store) (m : Map)
    → Represents Entry.key hash_int t m
    → ((i : ℕ) → i < num_sections → 0 < s i)
    → (t' : Store) × (room : ℕ) × (clean now s t ≡ ok (s, t'))
      × Represents Entry.key hash_int t'
          (record { entries = sweep hash_int now m.entries; room = room })
unfolding clean
clean-sweep hash_int now s t m r p =
    let (t', c, w) = clean_section_lem hash_int now 8 0 t r.buckets r.free r.valid (omega arith) in
    let (s', a, b) = wait-post 0 s (omega arith) (p 0 (omega arith)) in
    (
      t',
      length w.free,
      clean_from_step 7 now 0 0 8 s s' s t t' a c b ∙ clean_from_idle 7 now 1 s t' (omega arith) p,
      record {
        buckets = swept_range hash_int now 0 num_sections t.p_data r.buckets;
        free = w.free;
        valid = w.valid;
        holds = λ k. sym (entry-swept_range hash_int now t t' m r w k);
        room = refl;
      },
    )
