-- ===== src/Allocator/Tiles/Free.antt =====
-- What `free` and `defrag` of p1's allocator do to the blocks.
use sphere_multithreading_cp.Prelude.{
  Bool-cases, List, Result, [], ap, arith, err, false, if◌then◌else◌, inl, inr, map, none, ok, refl,
  some, true, ℕ, ◌++◌, ◌+◌, ◌==◌, ◌∷◌, ◌≡◌,
}
use sphere_multithreading_cp.Allocator.{
  Fault, alloc_error, undefined, Pointer, block_at, MemoryBlock, is_free, Allocator, release, free,
  defrag_from, defrag,
}
use sphere_multithreading_cp.Allocator.Tiles.{Tiles, used, append-Tiles}
use sphere_multithreading_cp.Allocator.Tiles.Merge.{apart, merge_empty_blocks-apart}

release-Tiles : (p o : ℕ) (bs : List MemoryBlock) (e : ℕ) → Tiles o bs e → Tiles o (release p bs) e
unfolding release Tiles
release-Tiles p o [] e h = h
release-Tiles p o (b ∷ bs) e h = elim (Bool-cases (p == b.address)) [
  | inl y ↦ rw y (h.0, release-Tiles p (o + b.length) bs e h.1)
  | inr y ↦ rw y (h.0, release-Tiles p (o + b.length) bs e h.1)
]

-- The blocks that stay in use when the block at `p` is free.
pub others : ℕ → List MemoryBlock → List MemoryBlock
others p [] = []
others p (b ∷ bs) = let rest = others p bs in if p == b.address then rest else b ∷ rest

used-release : (p : ℕ) (bs : List MemoryBlock) → used (release p bs) ≡ others p (used bs)
unfolding used release others
used-release p [] = refl
used-release p (b ∷ bs) = elim (Bool-cases (p == b.address)) [
  | inl y ↦ elim (Bool-cases b.state) [
    | inl u ↦ rw (y, u, used, others, y) (used-release p bs)
    | inr u ↦ rw (y, u) (used-release p bs)
  ]
  | inr y ↦ elim (Bool-cases (is_free b)) [
    | inr u ↦ rw (y, u, used, others, y) (ap (◌∷◌ b) (used-release p bs))
    | inl u ↦ rw (y, u) (used-release p bs)
  ]
]

-- What `free` comes to for the block at `p`.
abbrev pub Freed : ℕ → ℕ → Allocator → Result Fault (Pointer × Allocator) → Type 0
Freed p size a (ok (q, a')) =
    (q ≡ none)
    × (used a'.blocks ≡ others p (used a.blocks))
    × Tiles 0 a'.blocks size
    × (apart (release p a.blocks) ≡ true)
Freed p size a (err undefined) = apart (release p a.blocks) ≡ false
Freed p size a (err (alloc_error e)) = ⊥

-- `free` of a block in the list clears the pointer and takes the block, and no other, from those in
-- use, and the blocks go on to fill the buffer; exactly if behind that no free block, but an empty one,
-- stands in front of a free block. If one does, the merging is undefined.
pub free-others :
    (p size : ℕ) (a : Allocator) (b : MemoryBlock)
    → Tiles 0 a.blocks size
    → block_at p a.blocks ≡ some b
    → Freed p size a (free (some p) a)
unfolding free
free-others p size a b h e =
    let m = merge_empty_blocks-apart (release p a.blocks) in
    elim (Bool-cases (apart (release p a.blocks))) [
      | inl x ↦
          rw (free, e, m, x) (refl, used-release p a.blocks, release-Tiles p 0 a.blocks size h, x)
      | inr x ↦ rw (free, e, m, x) x
    ]

defrag_from-Tiles :
    (bo bl o : ℕ) (bs : List MemoryBlock) (e : ℕ) (m : ℕ → ℕ)
    → Tiles o bs e
    → let (bs', m', o', l') = defrag_from bo bl bs m in
      Tiles bo bs' o'
      × (o' + l' + o ≡ bo + bl + e)
      × (map MemoryBlock.address bs' ≡ map MemoryBlock.address (used bs))
unfolding defrag_from Tiles used
defrag_from-Tiles bo bl o [] e m h = (refl, omega arith, refl)
defrag_from-Tiles bo bl o (b ∷ bs) e m h = elim (Bool-cases b.state) [
  | inl u ↦
      let (t, s, n) = defrag_from-Tiles (bo + b.length) bl (o + b.length) bs e _ h.1 in
      rw u ((refl, t), omega arith, ap (◌∷◌ b.address) n)
  | inr u ↦
      let (t, s, n) = defrag_from-Tiles bo (bl + b.length) (o + b.length) bs e m h.1 in
      rw u (t, omega arith, n)
]

-- `defrag` moves the blocks in use, in their order, to the front of the buffer and leaves one free
-- block behind them; the blocks go on to fill the buffer.
pub defrag-Tiles :
    (size : ℕ) (a : Allocator)
    → Tiles 0 a.blocks size
    → (bs : List MemoryBlock) × (b : MemoryBlock) × ((defrag a).blocks ≡ bs ++ b ∷ [])
      × (is_free b ≡ true)
      × (map MemoryBlock.address bs ≡ map MemoryBlock.address (used a.blocks))
      × Tiles 0 bs b.offset
      × Tiles 0 (defrag a).blocks size
unfolding defrag Tiles
defrag-Tiles size a h =
    let (t, s, n) = defrag_from-Tiles 0 0 0 a.blocks size a.p_buffer h in
    let d = defrag_from 0 0 a.blocks a.p_buffer in
    (d.0, _, refl, refl, n, t, append-Tiles d.0 _ 0 d.2 size t (refl, omega arith))
