-- ===== src/Allocator/Realloc/Shrink.antt =====
-- `realloc` of p1's allocator to a length that is not longer.
use mathlib.Core.Option.{some-injective, some-ne-none}
use sphere_multithreading_cp.Prelude.{
  Bool-cases, List, Result, [], ap, arith, err, false, if◌then◌else◌, inl, inr, ltb, ok, refl, some,
  subst, sym, true, ℕ, ◌+◌, ◌-◌, ◌<◌, ◌==◌, ◌∙◌, ◌∷◌, ◌≡◌, ◌≤◌,
}
use sphere_multithreading_cp.Allocator.{
  Fault, alloc_error, undefined, Pointer, block_at, MemoryBlock, Allocator,
}
use sphere_multithreading_cp.Allocator.Tiles.{Tiles, used}
use sphere_multithreading_cp.Allocator.Tiles.Merge.{apart, merge_empty_blocks-apart}
use sphere_multithreading_cp.Allocator.Realloc.{find_block, shrink, realloc_block, realloc}

-- The first block at `p` has the length `n`.
unfoldable pub resize : (p n : ℕ) → List MemoryBlock → List MemoryBlock
resize p n [] = []
resize p n (b ∷ bs) =
    let rest = resize p n bs in if p == b.address then record b { length = n } ∷ bs else b ∷ rest

block_at-address :
    (p : ℕ) (b : MemoryBlock) (bs : List MemoryBlock) → block_at p bs ≡ some b → b.address ≡ p
unfolding block_at
block_at-address p b [] h = absurd (some-ne-none b (sym h))
block_at-address p b (c ∷ bs) h = elim (Bool-cases (p == c.address)) [
  | inl y ↦ let same : c ≡ b = some-injective c b (rw y at h) in rw (← same) (ground arith)
  | inr y ↦ block_at-address p b bs (rw y at h)
]

module _ (p n next : ℕ) (b : MemoryBlock) where
  shrink-Tiles :
      (o : ℕ) (bs : List MemoryBlock) (e : ℕ)
      → block_at p bs ≡ some b
      → n ≤ b.length
      → Tiles o bs e
      → Tiles o (shrink p n next bs) e
  unfolding block_at shrink Tiles
  shrink-Tiles o [] e h l t = t
  shrink-Tiles o (c ∷ bs) e h l t = elim (Bool-cases (p == c.address)) [
    | inl y ↦
        let same : c ≡ b = some-injective c b (rw y at h) in
        let fits : n ≤ c.length = rw same l in
        let whole : o + c.length ≡ o + n + (c.length - n) = omega arith in
        rw y (t.0, (ap (λ x. x + n) t.0, subst (λ x. Tiles x bs e) whole t.1))
    | inr y ↦ rw y (t.0, shrink-Tiles (o + c.length) bs e (rw y at h) l t.1)
  ]

  shrink-used :
      (bs : List MemoryBlock)
      → block_at p bs ≡ some b
      → b.state ≡ true
      → used (shrink p n next bs) ≡ resize p n (used bs)
  unfolding block_at shrink used resize
  shrink-used [] h s = refl
  shrink-used (c ∷ bs) h s = elim (Bool-cases (p == c.address)) [
    | inl y ↦
        let same : c ≡ b = some-injective c b (rw y at h) in
        let in_use : c.state ≡ true = ap MemoryBlock.state same ∙ s in
        rw (y, in_use, used, resize, y) refl
    | inr y ↦ elim (Bool-cases c.state) [
      | inl u ↦
          rw (y, u, used, resize, y)
            (ap (λ l. record c { state = true } ∷ l) (shrink-used bs (rw y at h) s))
      | inr u ↦ rw (y, u) (shrink-used bs (rw y at h) s)
    ]
  ]

  resize_same :
      (bs : List MemoryBlock)
      → block_at p bs ≡ some b
      → b.state ≡ true
      → n ≡ b.length
      → resize p n (used bs) ≡ used bs
  unfolding block_at used resize
  resize_same [] h s l = refl
  resize_same (c ∷ bs) h s l = elim (Bool-cases (p == c.address)) [
    | inl y ↦
        let same : c ≡ b = some-injective c b (rw y at h) in
        let in_use : c.state ≡ true = ap MemoryBlock.state same ∙ s in
        rw (in_use, y, l, ← same) refl
    | inr y ↦ elim (Bool-cases c.state) [
      | inl u ↦ rw (u, y) (ap (λ l. record c { state = true } ∷ l) (resize_same bs (rw y at h) s l))
      | inr u ↦ rw u (resize_same bs (rw y at h) s l)
    ]
  ]

-- What `realloc` comes to for the block `b` at `p`.
abbrev pub Shrunk :
    (p n size : ℕ) → Allocator → MemoryBlock → Result Fault (Pointer × Allocator) → Type 0
Shrunk p n size a b (ok (q, a')) =
    (q ≡ some p)
    × (used a'.blocks ≡ resize p n (used a.blocks))
    × Tiles 0 a'.blocks size
    × (n < b.length → apart (shrink p n a.next_address a.blocks) ≡ true)
Shrunk p n size a b (err undefined) =
    (n < b.length) × (apart (shrink p n a.next_address a.blocks) ≡ false)
Shrunk p n size a b (err (alloc_error e)) = ⊥

-- A block in use can be made shorter: the pointer stays, the block has the length asked for, the other
-- blocks in use stay as they were, and the blocks go on to fill the buffer; exactly if the rest of the
-- block does not come to stand beside another free block. If it does, the merging is undefined. The
-- block must be the first one with its offset.
pub realloc-shrink :
    (p n size : ℕ) (a : Allocator) (b : MemoryBlock)
    → Tiles 0 a.blocks size
    → block_at p a.blocks ≡ some b
    → find_block b.offset a.blocks ≡ some b
    → b.state ≡ true
    → n ≤ b.length
    → Shrunk p n size a b (realloc (some p) n a)
unfolding realloc realloc_block
realloc-shrink p n size a b t h f s l = elim (Bool-cases (b.length == n)) [
  | inl e ↦
      rw (realloc, h, f, realloc_block, e)
        (
          refl,
          sym (resize_same p n a.next_address b a.blocks h s (ground arith)),
          t,
          λ k. absurd (ground arith),
        )
  | inr e ↦
      let less : n < b.length = ground arith in
      let shorter : ltb n b.length ≡ true = ground arith in
      let bs = shrink p n a.next_address a.blocks in
      let m = merge_empty_blocks-apart bs in
      elim (Bool-cases (apart bs)) [
        | inl x ↦
            rw (realloc, h, f, realloc_block, e, shorter, block_at-address p b a.blocks h, m, x)
              (
                refl,
                shrink-used p n a.next_address b a.blocks h s,
                shrink-Tiles p n a.next_address b 0 a.blocks size h l t,
                λ k. x,
              )
        | inr x ↦
            rw (realloc, h, f, realloc_block, e, shorter, block_at-address p b a.blocks h, m, x)
              (less, x)
      ]
]
