-- ===== src/Tests/Memory.antt =====
-- p1: a buffer of 100 bytes.
use sphere_multithreading_cp.Prelude.{
  All, List, [], arith, err, false, map, ok, refl, some, true, ℕ, ◌++◌, ◌∷◌, ◌≡◌, ◌⊎◌,
}
use sphere_multithreading_cp.Allocator.{
  alloc_error, block_at, no_memory, MemoryBlock, is_free, Allocator, alloc, free, defrag,
}
use sphere_multithreading_cp.Allocator.Tiles.{Tiles, used, fits, FirstFit, alloc-FirstFit}
use sphere_multithreading_cp.Allocator.Tiles.Free.{Freed, free-others, defrag-Tiles}
use sphere_multithreading_cp.Allocator.Realloc.{find_block, realloc}
use sphere_multithreading_cp.Allocator.Realloc.Shrink.{Shrunk, realloc-shrink}
use sphere_multithreading_cp.Allocator.Realloc.NoMemory.{usable_total, realloc-no_memory}
use sphere_multithreading_cp.Allocator.Tiles.Content.{SameBytes, defrag-SameBytes}

-- A block in use, a free one and one in use.
abbrev buffer100 : Allocator
buffer100 = record {
  p_buffer = λ i. i;
  blocks =
      record { address = 0; offset = 0; length = 30; state = true }
      ∷ record { address = 1; offset = 30; length = 50; state = false }
      ∷ record { address = 2; offset = 80; length = 20; state = true }
      ∷ [];
  next_address = 3;
}

buffer100-Tiles : Tiles 0 buffer100.blocks 100
unfolding Tiles
buffer100-Tiles = (refl, (refl, (refl, refl)))

alloc-FirstFit_example :
    ((alloc 10 buffer100 ≡ err no_memory) × All (λ c. fits 10 c ≡ false) buffer100.blocks)
    ⊎ ((p : ℕ) × (a : Allocator) × (alloc 10 buffer100 ≡ ok (some p, a))
        × FirstFit 3 10 buffer100.blocks p a.blocks
        × Tiles 0 a.blocks 100)
alloc-FirstFit_example = alloc-FirstFit 10 100 buffer100 buffer100-Tiles

defrag-Tiles_example :
    (bs : List MemoryBlock) × (b : MemoryBlock) × ((defrag buffer100).blocks ≡ bs ++ b ∷ [])
    × (is_free b ≡ true)
    × (map MemoryBlock.address bs ≡ map MemoryBlock.address (used buffer100.blocks))
    × Tiles 0 bs b.offset
    × Tiles 0 (defrag buffer100).blocks 100
defrag-Tiles_example = defrag-Tiles 100 buffer100 buffer100-Tiles

abbrev first30 : MemoryBlock
first30 = record { address = 0; offset = 0; length = 30; state = true }

at_0 : block_at 0 buffer100.blocks ≡ some first30
unfolding block_at
at_0 = refl

found_0 : find_block 0 buffer100.blocks ≡ some first30
unfolding find_block
found_0 = refl

-- All of the buffer in three blocks: the one in the middle has no free block beside it.
abbrev full100 : Allocator
full100 = record {
  p_buffer = λ i. i;
  blocks =
      first30
      ∷ record { address = 1; offset = 30; length = 50; state = true }
      ∷ record { address = 2; offset = 80; length = 20; state = true }
      ∷ [];
  next_address = 3;
}

abbrev middle50 : MemoryBlock
middle50 = record { address = 1; offset = 30; length = 50; state = true }

full100-Tiles : Tiles 0 full100.blocks 100
unfolding Tiles
full100-Tiles = (refl, (refl, (refl, refl)))

at_1 : block_at 1 full100.blocks ≡ some middle50
unfolding block_at
at_1 = refl

found_1 : find_block 30 full100.blocks ≡ some middle50
unfolding find_block
found_1 = refl

free-others_example : Freed 1 100 full100 (free (some 1) full100)
free-others_example = free-others 1 100 full100 middle50 full100-Tiles at_1

realloc-shrink_example : Shrunk 1 12 100 full100 middle50 (realloc (some 1) 12 full100)
realloc-shrink_example =
    realloc-shrink 1 12 100 full100 middle50 full100-Tiles at_1 found_1 refl (omega arith)

usable_80 : usable_total 0 buffer100.blocks ≡ 80
unfolding usable_total
usable_80 = refl

realloc-no_memory_example : realloc (some 0) 90 buffer100 ≡ err (alloc_error no_memory)
realloc-no_memory_example =
    realloc-no_memory 0 90 buffer100 first30 first30 at_0 found_0 (omega arith)
      (rw usable_80 (omega arith))

defrag-SameBytes_example :
    (bs : List MemoryBlock) × (b : MemoryBlock) × ((defrag buffer100).blocks ≡ bs ++ b ∷ [])
    × SameBytes buffer100.p_buffer (defrag buffer100).p_buffer (used buffer100.blocks) bs
defrag-SameBytes_example = defrag-SameBytes 100 buffer100 buffer100-Tiles
