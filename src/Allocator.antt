-- ===== src/Allocator.antt =====
-- p1: the allocator (p1/allocator.h, p1/allocator.cpp). The list of blocks is a list of blocks with
-- their addresses, since a `Pointer` keeps the address of its block; the buffer is a function.
pub mod Tiles
pub mod Realloc
use mathlib.Core.Option
use sphere_multithreading_cp.Prelude.{
  Bool, List, Option, Result, [], err, false, if◌then◌else◌, leb, length, ltb, map, none, not, ok,
  some, true, ℕ, ◌&&◌, ◌++◌, ◌+◌, ◌-◌, ◌==◌, ◌>>=◌, ◌∷◌,
}

pub data AllocErrorType : Type 0 where
  invalid_free no_memory : AllocErrorType

-- `address` is where the list keeps the block.
pub record MemoryBlock : Type 0 where
  pub address : ℕ
  pub offset : ℕ
  pub length : ℕ
  pub state : Bool

abbrev pub is_free : MemoryBlock → Bool
is_free b = not b.state

abbrev pub Pointer : Type 0
Pointer = Option ℕ

-- `next_address` is where the list will keep its next block.
pub record Allocator : Type 0 where
  pub p_buffer : ℕ → ℕ
  pub blocks : List MemoryBlock
  pub next_address : ℕ

pub new_allocator : (ℕ → ℕ) → ℕ → Allocator
new_allocator base size = record {
  p_buffer = base;
  blocks = record { address = 0; offset = 0; length = size; state = false } ∷ [];
  next_address = 1;
}

-- A free block that is at least N long: its front is taken, the rest stays free.
abbrev pub take_front : ℕ → ℕ → MemoryBlock → List MemoryBlock
take_front next n b =
    if ltb n b.length
    then record b { length = n; state = true }
      ∷ record { address = next; offset = b.offset + n; length = b.length - n; state = false }
      ∷ []
    else record b { state = true } ∷ []

-- The loop of `alloc`: the blocks and the address of the block that is taken.
pub alloc_in : ℕ → ℕ → List MemoryBlock → Option (ℕ × List MemoryBlock)
alloc_in next n [] = none
alloc_in next n (b ∷ bs) =
    let rest = alloc_in next n bs in
    if is_free b && leb n b.length
    then some (b.address, take_front next n b ++ bs)
    else elim rest [ none ↦ none | some (p, bs') ↦ some (p, b ∷ bs') ]

pub alloc : ℕ → Allocator → Result AllocErrorType (Pointer × Allocator)
alloc n a = elim (alloc_in a.next_address n a.blocks) [
  | none ↦ err no_memory
  | some (p, bs) ↦ ok (some p, record a { blocks = bs; next_address = a.next_address + 1 })
]

-- The free block a run begins with, as long as the run.
abbrev pub close_run : Option MemoryBlock → ℕ → List MemoryBlock
close_run none total = []
close_run (some b) total = record b { length = total } ∷ []

-- A block that is left as it is.
abbrev pub keep_block : Option MemoryBlock → List MemoryBlock → List MemoryBlock
keep_block none bs = bs
keep_block (some b) bs = b ∷ bs

-- The loop of `merge_empty_blocks`, with `p_block` and `length_total`. A free block that makes up
-- the whole total begins the run anew, and the block before it stays. Another one is erased, and
-- `it--` then uses an iterator that is no longer valid: `none`.
pub merge_from : Option MemoryBlock → ℕ → List MemoryBlock → Option (List MemoryBlock)
merge_from p total [] = some (close_run p total)
merge_from p total (b ∷ bs) =
    let anew = merge_from (some b) (total + b.length) bs in
    let after = merge_from none 0 bs in
    if is_free b
    then if (total + b.length) == b.length then Option.map (keep_block p) anew else none
    else Option.map (λ l. close_run p total ++ b ∷ l) after

pub merge_empty_blocks : List MemoryBlock → Option (List MemoryBlock)
merge_empty_blocks bs = merge_from none 0 bs

-- `set_state(false)` through the address of a block.
pub release : ℕ → List MemoryBlock → List MemoryBlock
release p [] = []
release p (b ∷ bs) = (if p == b.address then record b { state = false } else b) ∷ release p bs

-- The exception, or what C++ leaves undefined: a use of a block that the list does not hold, or of its
-- iterator.
pub data Fault : Type 0 where
  alloc_error : AllocErrorType → Fault
  undefined : Fault

abbrev pub defined : {A : Type 0} → Option A → Result Fault A
defined none = err undefined
defined (some a) = ok a

-- The block that a pointer keeps the address of.
unfoldable pub block_at : ℕ → List MemoryBlock → Option MemoryBlock
block_at p [] = none
block_at p (b ∷ bs) = let rest = block_at p bs in if p == b.address then some b else rest

pub free : Pointer → Allocator → Result Fault (Pointer × Allocator)
free none a = err (alloc_error invalid_free)
free (some p) a = elim (block_at p a.blocks) [
  | none ↦ err undefined
  | some _ ↦ defined (merge_empty_blocks (release p a.blocks)) >>= λ bs.
      ok (none, record a { blocks = bs })
]

-- `memmove` of `n` bytes.
pub memmove : (to from n : ℕ) → (ℕ → ℕ) → ℕ → ℕ
memmove to from n m j = if leb to j && ltb j (to + n) then m (from + (j - to)) else m j

-- The loop of `defrag`: the blocks that stay, the buffer, the end of the last of them and the total
-- of the free lengths.
pub defrag_from : ℕ → ℕ → List MemoryBlock → (ℕ → ℕ) → List MemoryBlock × (ℕ → ℕ) × ℕ × ℕ
defrag_from block_offset block_length [] m = ([], m, block_offset, block_length)
defrag_from block_offset block_length (b ∷ bs) m =
    let skipped = defrag_from block_offset (block_length + b.length) bs m in
    let moved =
      defrag_from (block_offset + b.length) block_length bs
        (memmove block_offset b.offset b.length m) in
    if is_free b
    then skipped
    else (record b { offset = block_offset } ∷ moved.0, moved.1, moved.2, moved.3)

pub defrag : Allocator → Allocator
defrag a =
    let (bs, m, block_offset, block_length) = defrag_from 0 0 a.blocks a.p_buffer in
    record {
      p_buffer = m;
      blocks =
          bs
          ++ record {
            address = a.next_address;
            offset = block_offset;
            length = block_length;
            state = false;
          }
            ∷ [];
      next_address = a.next_address + 1;
    }
