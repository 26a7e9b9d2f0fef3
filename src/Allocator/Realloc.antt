-- ===== src/Allocator/Realloc.antt =====
-- p1: `Allocator::realloc` and `find_block` of p1/allocator.cpp.
pub mod Shrink
pub mod NoMemory
mod Tests
use sphere_multithreading_cp.Prelude.{
  Bool, List, Option, Result, [], err, false, if◌then◌else◌, leb, length, ltb, none, ok, some, true,
  ℕ, ◌+◌, ◌-◌, ◌==◌, ◌>>=◌, ◌||◌, ◌∷◌,
}
use sphere_multithreading_cp.Allocator.{
  AllocErrorType, no_memory, Fault, alloc_error, undefined, defined, block_at, MemoryBlock, is_free,
  Pointer, Allocator, alloc, merge_empty_blocks, release, memmove,
}

-- The first block with the offset.
unfoldable pub find_block : (offset : ℕ) → List MemoryBlock → Option MemoryBlock
find_block offset [] = none
find_block offset (b ∷ bs) =
    let rest = find_block offset bs in if b.offset == offset then some b else rest

-- `set_length(N)` for `it_block`, and the free block that is inserted behind it.
pub shrink : (it_block n next : ℕ) → List MemoryBlock → List MemoryBlock
shrink it_block n next [] = []
shrink it_block n next (b ∷ bs) =
    let rest = shrink it_block n next bs in
    if it_block == b.address
    then record b { length = n }
      ∷ record { address = next; offset = b.offset + n; length = b.length - n; state = false }
      ∷ bs
    else b ∷ rest

abbrev pub is_usable : ℕ → MemoryBlock → Bool
is_usable it_block b = is_free b || (it_block == b.address)

-- The loop that looks for a run of blocks, with `it_block_new` and `block_length`.
pub find_run : (it_block n : ℕ) → Option ℕ → ℕ → List MemoryBlock → Option ℕ × ℕ
find_run it_block n it_block_new block_length [] = (it_block_new, block_length)
find_run it_block n it_block_new block_length (b ∷ bs) =
    let begin = find_run it_block n (some b.address) b.length bs in
    let longer = find_run it_block n it_block_new (block_length + b.length) bs in
    let anew = find_run it_block n none 0 bs in
    if is_usable it_block b
    then if block_length == 0 then begin else longer
    else if leb n block_length
    then (it_block_new, block_length)
    else anew

-- The loop that erases: behind `it_block_new`, every free block and `it_block`.
pub erase_usable : ℕ → List MemoryBlock → List MemoryBlock
erase_usable it_block [] = []
erase_usable it_block (b ∷ bs) =
    let rest = erase_usable it_block bs in if is_usable it_block b then rest else b ∷ rest

pub erase_merged : (it_block it_block_new : ℕ) → List MemoryBlock → List MemoryBlock
erase_merged it_block it_block_new [] = []
erase_merged it_block it_block_new (b ∷ bs) =
    let rest = erase_merged it_block it_block_new bs in
    if it_block_new == b.address then b ∷ erase_usable it_block bs else b ∷ rest

-- `set_length(N)` and `set_state(true)`
pub take_block : (it_block_new n : ℕ) → List MemoryBlock → List MemoryBlock
take_block it_block_new n [] = []
take_block it_block_new n (b ∷ bs) =
    (if it_block_new == b.address then record b { length = n; state = true } else b)
    ∷ take_block it_block_new n bs

-- The block that is inserted behind `it_block_new`.
pub insert_after : ℕ → MemoryBlock → List MemoryBlock → List MemoryBlock
insert_after it_block_new d [] = []
insert_after it_block_new d (b ∷ bs) =
    let rest = insert_after it_block_new d bs in
    if it_block_new == b.address then b ∷ d ∷ bs else b ∷ rest

-- What is done with the run, once it is long enough. `it_block` may have been erased.
pub move_to :
    (b it_new : MemoryBlock) → (n block_length : ℕ) → Allocator → Result Fault (Pointer × Allocator)
move_to b it_new n block_length a =
    let erased = erase_merged b.address it_new.address a.blocks in
    let taken = take_block it_new.address n erased in
    let rest : MemoryBlock = record {
      address = a.next_address;
      offset = it_new.offset + n;
      length = block_length - n;
      state = false;
    } in
    elim (block_at b.address taken) [
      | none ↦ err undefined
      | some _ ↦
          defined (merge_empty_blocks (insert_after it_new.address rest (release b.address taken)))
          >>= λ bs. ok (
            some it_new.address,
            record {
              p_buffer = memmove it_new.offset b.offset b.length a.p_buffer;
              blocks = bs;
              next_address = a.next_address + 1;
            },
          )
    ]

pub grow : MemoryBlock → ℕ → Allocator → Result Fault (Pointer × Allocator)
grow b n a =
    let (it_block_new, block_length) = find_run b.address n none 0 a.blocks in
    if ltb block_length n then err (alloc_error no_memory) else elim it_block_new [
      | none ↦ err undefined
      | some q ↦ elim (block_at q a.blocks) [
        | none ↦ err undefined
        | some it_new ↦ move_to b it_new n block_length a
      ]
    ]

-- What follows once `it_block` is found.
pub realloc_block : ℕ → MemoryBlock → ℕ → Allocator → Result Fault (Pointer × Allocator)
realloc_block p b n a =
    if b.length == n
    then ok (some p, a)
    else if ltb n b.length
    then (defined (merge_empty_blocks (shrink b.address n a.next_address a.blocks)) >>= λ bs.
        ok (some p, record a { blocks = bs; next_address = a.next_address + 1 }))
    else grow b n a

pub realloc : Pointer → ℕ → Allocator → Result Fault (Pointer × Allocator)
realloc none n a = elim (alloc n a) [ err e ↦ err (alloc_error e) | ok r ↦ ok r ]
realloc (some p) n a = elim (block_at p a.blocks) [
  | none ↦ err undefined
  | some c ↦ elim (find_block c.offset a.blocks) [
    | none ↦ err undefined
    | some b ↦ realloc_block p b n a
  ]
]
