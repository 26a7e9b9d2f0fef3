-- ===== src/Allocator/Realloc/Tests.antt =====
-- p1: a block that grows where it is, and one that grows behind a block in use.
use sphere_multithreading_cp.Prelude.{
  Bool, List, [], err, false, length, refl, some, true, ℕ, ◌∷◌, ◌≡◌,
}
use sphere_multithreading_cp.Allocator.{
  undefined, block_at, MemoryBlock, Allocator, merge_empty_blocks, merge_from, release,
}
use sphere_multithreading_cp.Allocator.Realloc.{
  realloc, find_block, realloc_block, grow, find_run, move_to, erase_merged, erase_usable,
  take_block, insert_after,
}

abbrev block : ℕ → ℕ → ℕ → Bool → MemoryBlock
block address offset length state = record {
  address = address;
  offset = offset;
  length = length;
  state = state;
}

abbrev of_blocks : List MemoryBlock → ℕ → Allocator
of_blocks bs next = record { p_buffer = λ i. i; blocks = bs; next_address = next }

-- The block that the pointer keeps is free afterwards, and stands beside the rest of the run.
grows_in_place :
    realloc (some 0) 6 (of_blocks (block 0 0 4 true ∷ block 1 4 6 false ∷ []) 2) ≡ err undefined
unfolding realloc block_at find_block realloc_block grow find_run move_to erase_merged erase_usable
    take_block insert_after release merge_empty_blocks merge_from
grows_in_place = refl

-- The block is used after it was erased.
grows_backwards :
    realloc (some 1) 6 (of_blocks (block 0 0 4 false ∷ block 1 4 4 true ∷ []) 2) ≡ err undefined
unfolding realloc block_at find_block realloc_block grow find_run move_to erase_merged erase_usable
    take_block insert_after
grows_backwards = refl
