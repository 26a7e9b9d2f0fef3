-- ===== src/Allocator/Realloc/NoMemory.antt =====
-- `realloc` of p1's allocator without room.
use sphere_multithreading_cp.Prelude.{
  Bool-cases, List, Option, [], arith, err, false, if◌then◌else◌, inl, inr, leb, ltb, none, refl,
  some, true, ℕ, ◌+◌, ◌<◌, ◌==◌, ◌∷◌, ◌≡◌, ◌≤◌,
}
use sphere_multithreading_cp.Allocator.{no_memory, alloc_error, block_at, MemoryBlock, Allocator}
use sphere_multithreading_cp.Allocator.Realloc.{
  find_block, is_usable, find_run, grow, realloc_block, realloc,
}

-- What is free, with the block itself.
unfoldable pub usable_total : (it_block : ℕ) → List MemoryBlock → ℕ
usable_total it_block [] = 0
usable_total it_block (b ∷ bs) =
    let rest = usable_total it_block bs in if is_usable it_block b then b.length + rest else rest

find_run-bound :
    (it_block n : ℕ) (q : Option ℕ) (len : ℕ) (bs : List MemoryBlock)
    → (find_run it_block n q len bs).1 ≤ len + usable_total it_block bs
unfolding find_run usable_total
find_run-bound it_block n q len [] = omega arith
find_run-bound it_block n q len (b ∷ bs) = elim (Bool-cases (is_usable it_block b)) [
  | inl u ↦ elim (Bool-cases (len == 0)) [
    | inl z ↦
        let h = find_run-bound it_block n (some b.address) b.length bs in
        rw (u, z) (ground (arith, h))
    | inr z ↦
        let h = find_run-bound it_block n q (len + b.length) bs in rw (u, z) (ground (arith, h))
  ]
  | inr u ↦ elim (Bool-cases (leb n len)) [
    | inl z ↦ rw (u, z) (ground arith)
    | inr z ↦ let h = find_run-bound it_block n none 0 bs in rw (u, z) (ground (arith, h))
  ]
]

-- A block cannot grow beyond what is free and its own length: the call throws. The block meant is the
-- first one with the offset of the pointer's.
pub realloc-no_memory :
    (p n : ℕ) (a : Allocator) (c b : MemoryBlock)
    → block_at p a.blocks ≡ some c
    → find_block c.offset a.blocks ≡ some b
    → b.length < n
    → usable_total b.address a.blocks < n
    → realloc (some p) n a ≡ err (alloc_error no_memory)
unfolding realloc realloc_block grow
realloc-no_memory p n a c b h f l u =
    let other : (b.length == n) ≡ false = ground arith in
    let longer : ltb n b.length ≡ false = ground arith in
    let bound = find_run-bound b.address n none 0 a.blocks in
    let short : ltb (find_run b.address n none 0 a.blocks).1 n ≡ true = ground (arith, bound) in
    rw (realloc, h, f, realloc_block, other, longer, grow, short) refl
