-- ===== src/Allocator/Tiles.antt =====
-- The blocks of p1's allocator lie one behind the other.
pub mod Merge
pub mod Free
pub mod Content
use sphere_multithreading_cp.Prelude.{
  All, Bool, Bool-cases, List, [], ap, arith, err, false, if◌then◌else◌, inl, inr, leb, length, ltb,
  none, ok, refl, some, subst, sym, true, ℕ, ◌&&◌, ◌++◌, ◌+◌, ◌∷◌, ◌≡◌, ◌⊎◌,
}
use mathlib.Core.Option.{some-injective, some-ne-none}
use sphere_multithreading_cp.Allocator.{
  AllocErrorType, no_memory, MemoryBlock, is_free, Allocator, Pointer, take_front, alloc_in, alloc,
  close_run, keep_block, merge_from, merge_empty_blocks, release, free, defrag_from, defrag,
}

-- The blocks fill the buffer from `o` to `e`.
unfoldable pub Tiles : ℕ → List MemoryBlock → ℕ → Type 0
Tiles o [] e = o ≡ e
Tiles o (b ∷ bs) e = (b.offset ≡ o) × Tiles (o + b.length) bs e

-- The blocks in use.
unfoldable pub used : List MemoryBlock → List MemoryBlock
used [] = []
used (b ∷ bs) = let rest = used bs in if is_free b then rest else b ∷ rest

move : {o o' : ℕ} (bs : List MemoryBlock) (e : ℕ) → o ≡ o' → Tiles o bs e → Tiles o' bs e
move bs e h = subst (λ x. Tiles x bs e) h

take_front-Tiles :
    (next n o : ℕ) (b : MemoryBlock) (bs : List MemoryBlock) (e : ℕ)
    → leb n b.length ≡ true
    → Tiles o (b ∷ bs) e
    → Tiles o (take_front next n b ++ bs) e
unfolding Tiles
take_front-Tiles next n o b bs e l h = elim (Bool-cases (ltb n b.length)) [
  | inl s ↦ rw s (h.0, (omega arith, move bs e (ground arith) h.1))
  | inr s ↦ rw s h
]

-- A free block that is long enough.
abbrev pub fits : ℕ → MemoryBlock → Bool
fits n b = is_free b && leb n b.length

-- `b`, at `p`, is the first block that fits, and its front is taken.
pub record FirstFit (next n : ℕ) (bs : List MemoryBlock) (p : ℕ) (bs' : List MemoryBlock)
    : Type 0 where
  pub front : List MemoryBlock
  pub back : List MemoryBlock
  pub b : MemoryBlock
  pub split : bs ≡ front ++ b ∷ back
  pub passed : All (λ c. fits n c ≡ false) front
  pub fit : fits n b ≡ true
  pub at : p ≡ b.address
  pub result : bs' ≡ front ++ (take_front next n b ++ back)

alloc_in-cases :
    (next n : ℕ) (bs : List MemoryBlock)
    → ((alloc_in next n bs ≡ none) × All (λ c. fits n c ≡ false) bs)
      ⊎ ((p : ℕ) × (bs' : List MemoryBlock) × (alloc_in next n bs ≡ some (p, bs'))
          × FirstFit next n bs p bs')
unfolding alloc_in
alloc_in-cases next n [] = inl (refl, tt)
alloc_in-cases next n (b ∷ bs) = elim (Bool-cases (fits n b)) [
  | inl f ↦ rw f (
      inr (
        _,
        _,
        refl,
        record {
          front = [];
          back = bs;
          b = b;
          split = refl;
          passed = tt;
          fit = f;
          at = refl;
          result = refl;
        },
      ))
  | inr f ↦ elim (alloc_in-cases next n bs) [
    | inl (e, a) ↦ rw (f, e) (inl (refl, (refl, a)))
    | inr (p, bs', e, w) ↦
        rw (f, e)
          (inr (
            _,
            _,
            refl,
            record {
              front = b ∷ w.front;
              back = w.back;
              b = w.b;
              split = ap (◌∷◌ b) w.split;
              passed = (f, w.passed);
              fit = w.fit;
              at = w.at;
              result = ap (◌∷◌ b) w.result;
            },
          ))
  ]
]

Tiles-append :
    (xs ys : List MemoryBlock) (o e : ℕ)
    → Tiles o (xs ++ ys) e
    → (c : ℕ) × Tiles o xs c × Tiles c ys e
unfolding Tiles
Tiles-append [] ys o e h = (o, refl, h)
Tiles-append (x ∷ xs) ys o e h =
    let (c, a, b) = Tiles-append xs ys (o + x.length) e h.1 in (c, (h.0, a), b)

append-Tiles :
    (xs ys : List MemoryBlock) (o c e : ℕ) → Tiles o xs c → Tiles c ys e → Tiles o (xs ++ ys) e
unfolding Tiles
append-Tiles [] ys o c e h k = move ys e (sym h) k
append-Tiles (x ∷ xs) ys o c e h k = (h.0, append-Tiles xs ys (o + x.length) c e h.1 k)

FirstFit-Tiles :
    (next n o : ℕ) (bs : List MemoryBlock) (e p : ℕ) (bs' : List MemoryBlock)
    → FirstFit next n bs p bs'
    → Tiles o bs e
    → Tiles o bs' e
unfolding Tiles
FirstFit-Tiles next n o bs e p bs' w h =
    let (c, a, k) = Tiles-append w.front (w.b ∷ w.back) o e (rw w.split at h) in
    rw w.result (
      append-Tiles w.front _ o c e a
        (take_front-Tiles next n c w.b w.back e (ground (arith, w.fit)) k))

-- `alloc` takes the front of the first free block that is long enough, and the blocks go on to fill
-- the buffer; it fails with `NoMemory` exactly if no free block is long enough.
pub alloc-FirstFit :
    (n size : ℕ) (a : Allocator)
    → Tiles 0 a.blocks size
    → ((alloc n a ≡ err no_memory) × All (λ c. fits n c ≡ false) a.blocks)
      ⊎ ((p : ℕ) × (a' : Allocator) × (alloc n a ≡ ok (some p, a'))
          × FirstFit a.next_address n a.blocks p a'.blocks
          × Tiles 0 a'.blocks size)
unfolding alloc
alloc-FirstFit n size a h = elim (alloc_in-cases a.next_address n a.blocks) [
  | inl (e, w) ↦ rw (alloc, e) (inl (refl, w))
  | inr (p, bs', e, w) ↦
      rw (alloc, e) (inr (p, _, refl, w, FirstFit-Tiles a.next_address n 0 a.blocks size p bs' w h))
]
