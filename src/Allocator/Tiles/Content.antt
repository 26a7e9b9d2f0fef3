-- ===== src/Allocator/Tiles/Content.antt =====
-- `defrag` of p1's allocator takes the bytes of the blocks along.
use sphere_multithreading_cp.Prelude.{
  All, Bool-cases, List, [], ap, arith, false, inl, inr, leb, ltb, refl, true, ℕ, ◌&&◌, ◌++◌, ◌+◌,
  ◌<◌, ◌∙◌, ◌∷◌, ◌≡◌, ◌≤◌, ◌⊎◌,
}
use sphere_multithreading_cp.Allocator.{MemoryBlock, Allocator, memmove, defrag_from, defrag}
use sphere_multithreading_cp.Allocator.Tiles.{Tiles, used}

-- Block by block, `bs` in the memory `m` and `cs` in `m'` have the same length and the same bytes.
unfoldable pub SameBytes : (m m' : ℕ → ℕ) → (bs cs : List MemoryBlock) → Type 0
SameBytes m m' [] [] = Unit
SameBytes m m' [] (c ∷ cs) = false ≡ true
SameBytes m m' (b ∷ bs) [] = false ≡ true
SameBytes m m' (b ∷ bs) (c ∷ cs) =
    (c.length ≡ b.length)
    × ((x : ℕ) → x < b.length → m' (c.offset + x) ≡ m (b.offset + x))
    × SameBytes m m' bs cs

memmove-inside : (to from n x : ℕ) (m : ℕ → ℕ) → x < n → memmove to from n m (to + x) ≡ m (from + x)
unfolding memmove
memmove-inside to from n x m l =
    let inside : leb to (to + x) && ltb (to + x) (to + n) ≡ true = ground arith in
    rw inside (ap (λ y. m (from + y)) (omega arith))

memmove-outside :
    (to from n j : ℕ) (m : ℕ → ℕ) → (j < to) ⊎ (to + n ≤ j) → memmove to from n m j ≡ m j
unfolding memmove
memmove-outside to from n j m (inl l) = ground arith
memmove-outside to from n j m (inr l) = ground arith

-- The blocks of a part of the buffer begin in it.
used-from :
    (low o : ℕ) (bs : List MemoryBlock) (e : ℕ)
    → low ≤ o
    → Tiles o bs e
    → All (λ b. low ≤ b.offset) (used bs)
unfolding Tiles used
used-from low o [] e l t = tt
used-from low o (b ∷ bs) e l t = elim (Bool-cases b.state) [
  | inl u ↦
      let first : low ≤ b.offset = omega (arith, t.0) in
      rw u (first, used-from low (o + b.length) bs e (omega arith) t.1)
  | inr u ↦ rw u (used-from low (o + b.length) bs e (omega arith) t.1)
]

-- It is enough to look at the memory from where the blocks begin.
SameBytes-from :
    (low : ℕ) (m m1 m' : ℕ → ℕ) (bs cs : List MemoryBlock)
    → All (λ b. low ≤ b.offset) bs
    → ((j : ℕ) → low ≤ j → m1 j ≡ m j)
    → SameBytes m1 m' bs cs
    → SameBytes m m' bs cs
unfolding SameBytes
SameBytes-from low m m1 m' [] [] a h s = tt
SameBytes-from low m m1 m' [] (c ∷ cs) a h s = s
SameBytes-from low m m1 m' (b ∷ bs) [] a h s = s
SameBytes-from low m m1 m' (b ∷ bs) (c ∷ cs) a h s = (
  s.0,
  (λ x l. s.1 x l ∙ h (b.offset + x) (omega (arith, a.0))),
  SameBytes-from low m m1 m' bs cs a.1 h s.2,
)

defrag_from-SameBytes :
    (bo bl o : ℕ) (bs : List MemoryBlock) (e : ℕ) (m : ℕ → ℕ)
    → bo ≤ o
    → Tiles o bs e
    → let (bs', m', o', l') = defrag_from bo bl bs m in
      ((j : ℕ) → j < bo → m' j ≡ m j) × SameBytes m m' (used bs) bs'
unfolding defrag_from Tiles used SameBytes
defrag_from-SameBytes bo bl o [] e m l t = (λ j h. refl, tt)
defrag_from-SameBytes bo bl o (b ∷ bs) e m l t = elim (Bool-cases b.state) [
  | inl u ↦
      let m1 = memmove bo b.offset b.length m in
      let (keeps, same) =
        defrag_from-SameBytes (bo + b.length) bl (o + b.length) bs e m1 (omega arith) t.1 in
      let rest = defrag_from (bo + b.length) bl bs m1 in
      let behind = used-from (bo + b.length) (o + b.length) bs e (omega arith) t.1 in
      rw u (
        (λ j h. keeps j (omega arith) ∙ memmove-outside bo b.offset b.length j m (inl h)),
        (
          refl,
          (λ x h. keeps (bo + x) (omega arith) ∙ memmove-inside bo b.offset b.length x m h),
          SameBytes-from (bo + b.length) m m1 rest.1 (used bs) rest.0 behind
              (λ j h. memmove-outside bo b.offset b.length j m (inr h)) same,
        ),
      )
  | inr u ↦
      let (keeps, same) =
        defrag_from-SameBytes bo (bl + b.length) (o + b.length) bs e m (omega arith) t.1 in
      rw u (keeps, same)
]

-- After `defrag` the blocks that were in use, in their order, have the lengths and the bytes that they
-- had, each at its new place.
pub defrag-SameBytes :
    (size : ℕ) (a : Allocator)
    → Tiles 0 a.blocks size
    → (bs : List MemoryBlock) × (b : MemoryBlock) × ((defrag a).blocks ≡ bs ++ b ∷ [])
      × SameBytes a.p_buffer (defrag a).p_buffer (used a.blocks) bs
unfolding defrag
defrag-SameBytes size a h =
    let d = defrag_from 0 0 a.blocks a.p_buffer in
    (d.0, _, refl, (defrag_from-SameBytes 0 0 0 a.blocks size a.p_buffer (omega arith) h).1)
