-- ===== src/Allocator/Tiles/Merge.antt =====
-- When `merge_empty_blocks` of p1's allocator is defined, and what it does then.
use mathlib.Core.Option
use sphere_multithreading_cp.Prelude.{
  Bool, Bool-cases, List, Option, [], arith, false, if◌then◌else◌, inl, inr, none, not, refl, some,
  true, ℕ, ◌&&◌, ◌++◌, ◌+◌, ◌==◌, ◌∙◌, ◌∷◌, ◌≡◌,
}
use sphere_multithreading_cp.Allocator.{MemoryBlock, is_free, merge_from, merge_empty_blocks}

unfoldable pub begins_free : List MemoryBlock → Bool
begins_free [] = false
begins_free (b ∷ bs) = is_free b

-- Whether no free block, but an empty one, stands in front of a free block.
unfoldable pub apart : List MemoryBlock → Bool
apart [] = true
apart (b ∷ bs) = not ((is_free b && not (b.length == 0)) && begins_free bs) && apart bs

abbrev front : Option MemoryBlock → List MemoryBlock
front none = []
front (some b) = b ∷ []

abbrev front_length : Option MemoryBlock → ℕ
front_length none = 0
front_length (some b) = b.length

abbrev IsPending : Option MemoryBlock → Type 0
IsPending none = Unit
IsPending (some b) = is_free b ≡ true

abbrev pub if_apart : List MemoryBlock → Option (List MemoryBlock)
if_apart bs = if apart bs then some bs else none

map-if_apart :
    (g : List MemoryBlock → List MemoryBlock) (bs cs : List MemoryBlock)
    → apart bs ≡ apart cs
    → g bs ≡ cs
    → Option.map g (if_apart bs) ≡ if_apart cs
map-if_apart g bs cs h e = elim (Bool-cases (apart cs)) [
  | inl a ↦ rw (h, a, e) refl
  | inr a ↦ rw (h, a) refl
]

apart-used :
    (b : MemoryBlock) (bs : List MemoryBlock) → is_free b ≡ false → apart bs ≡ apart (b ∷ bs)
unfolding apart
apart-used b bs f = rw (apart, f) refl

apart-empty :
    (b : MemoryBlock) (bs : List MemoryBlock) → (b.length == 0) ≡ true → apart bs ≡ apart (b ∷ bs)
unfolding apart
apart-empty b bs z = elim (Bool-cases (is_free b)) [
  | inl f ↦ rw (apart, z, f) refl
  | inr f ↦ rw (apart, z, f) refl
]

apart-last :
    (c b : MemoryBlock) (bs : List MemoryBlock)
    → is_free b ≡ false
    → apart (b ∷ bs) ≡ apart (c ∷ b ∷ bs)
unfolding apart begins_free
apart-last c b bs f = elim (Bool-cases (is_free c && not (c.length == 0))) [
  | inl a ↦ rw (apart, a, f) refl
  | inr a ↦ rw (apart, a) refl
]

not-apart :
    (c b : MemoryBlock) (bs : List MemoryBlock)
    → is_free c ≡ true
    → (c.length == 0) ≡ false
    → is_free b ≡ true
    → apart (c ∷ b ∷ bs) ≡ false
unfolding apart begins_free
not-apart c b bs f z g = rw (apart, f, z, g) refl

merge_from-apart :
    (p : Option MemoryBlock) (total : ℕ) (bs : List MemoryBlock)
    → IsPending p
    → total ≡ front_length p
    → merge_from p total bs ≡ if_apart (front p ++ bs)
unfolding merge_from
merge_from-apart none total [] h e = unfold apart in refl
merge_from-apart (some c) total [] h e =
    unfold apart begins_free in
    (elim (Bool-cases (is_free c && not (c.length == 0))) [
      | inl a ↦ rw (a, e) refl
      | inr a ↦ rw (a, e) refl
    ])
merge_from-apart none total (b ∷ bs) h e = elim (Bool-cases (is_free b)) [
  | inl f ↦
      let z : ((total + b.length) == b.length) ≡ true = ground arith in
      rw (f, z, merge_from-apart (some b) (total + b.length) bs f (omega (arith, e)))
        (map-if_apart (λ l. l) (b ∷ bs) (b ∷ bs) refl refl)
  | inr f ↦
      rw (f, merge_from-apart none 0 bs tt refl)
        (map-if_apart (λ l. b ∷ l) bs (b ∷ bs) (apart-used b bs f) refl)
]
merge_from-apart (some c) total (b ∷ bs) h e = elim (Bool-cases (is_free b)) [
  | inl f ↦ elim (Bool-cases (c.length == 0)) [
    | inl z ↦
        let y : ((total + b.length) == b.length) ≡ true = ground arith in
        rw (f, y, merge_from-apart (some b) (total + b.length) bs f (ground arith))
          (map-if_apart (λ l. c ∷ l) (b ∷ bs) (c ∷ b ∷ bs) (apart-empty c (b ∷ bs) z) refl)
    | inr z ↦
        let y : ((total + b.length) == b.length) ≡ false = ground arith in
        rw (f, y, not-apart c b bs h z f) refl
  ]
  | inr f ↦
      rw (f, e, merge_from-apart none 0 bs tt refl)
        (map-if_apart (λ l. c ∷ b ∷ l) bs (c ∷ b ∷ bs) (apart-used b bs f ∙ apart-last c b bs f)
          refl)
]

-- `merge_empty_blocks` is defined where there is nothing to merge, and changes nothing then.
pub merge_empty_blocks-apart : (bs : List MemoryBlock) → merge_empty_blocks bs ≡ if_apart bs
unfolding merge_empty_blocks
merge_empty_blocks-apart bs = merge_from-apart none 0 bs tt refl
