-- ===== src/Trie/Dictionary.antt =====
-- The set of words that a tree of p7/Trie.cpp holds, and what `add_new_word` does to it.
use sphere_multithreading_cp.Prelude.{
  Bool, Option-cases, Result, Result-cases, [], ap, arith, err, false, if◌then◌else◌, inl, inr,
  none, ok, refl, some, subst, suc, true, zero, ℕ, ◌&&◌, ◌<◌, ◌==◌, ◌||◌, ◌∙◌, ◌∷◌, ◌≡◌,
}
use mathlib.Core.Option.{some-injective}
use sphere_multithreading_cp.Trie.{
  Node, Links, Word, node, end, absent, present, num_latin_letters, TrieErrorType, get_node_prefix,
  null_links, get_new_node, next_at, put_at, get_char_index, child_or_new, add_new_word,
}

-- Two letters with one entry in `p_next`: the same letter, whatever its case.
pub same_letter : ℕ → ℕ → Bool
same_letter x y = elim (get_char_index x) [
  | err _ ↦ false
  | ok i ↦ elim (get_char_index y) [ err _ ↦ false | ok j ↦ i == j ]
]

pub same_word : Word → Word → Bool
same_word [] [] = true
same_word (x ∷ xs) (y ∷ ys) = same_letter x y && same_word xs ys
same_word [] (y ∷ ys) = false
same_word (x ∷ xs) [] = false

abbrev pub is_final_of : Result TrieErrorType Node → Bool
is_final_of (ok (node f c ls)) = f
is_final_of (err e) = false

-- The path of the word is there and ends in a final node.
pub holds : Node → Word → Bool
holds n w = is_final_of (get_node_prefix n w)

links_length : Links → ℕ
links_length end = 0
links_length (absent ls) = suc (links_length ls)
links_length (present n ls) = suc (links_length ls)

-- Every array `p_next` of the tree has its 26 entries.
mutual
  pub IsTrie : Node → Type 0
  IsTrie (node f c ls) = (links_length ls ≡ num_latin_letters) × AreTries ls

  pub AreTries : Links → Type 0
  AreTries end = Unit
  AreTries (absent ls) = AreTries ls
  AreTries (present n ls) = IsTrie n × AreTries ls

links_length-null_links : (n : ℕ) → links_length (null_links n) ≡ n
unfolding links_length null_links
links_length-null_links zero = refl
links_length-null_links (suc n) = ap suc (links_length-null_links n)

AreTries-null_links : (n : ℕ) → AreTries (null_links n)
unfolding IsTrie null_links
AreTries-null_links zero = tt
AreTries-null_links (suc n) = AreTries-null_links n

pub get_new_node-IsTrie : (c : ℕ) → IsTrie (get_new_node c)
unfolding IsTrie get_new_node
get_new_node-IsTrie c = (links_length-null_links 26, AreTries-null_links 26)

links_length-put_at :
    (ls : Links) (i : ℕ) (n : Node) → links_length (put_at ls i n) ≡ links_length ls
unfolding links_length put_at
links_length-put_at end i n = refl
links_length-put_at (absent ls) zero n = refl
links_length-put_at (present m ls) zero n = refl
links_length-put_at (absent ls) (suc i) n = ap suc (links_length-put_at ls i n)
links_length-put_at (present m ls) (suc i) n = ap suc (links_length-put_at ls i n)

AreTries-put_at :
    (ls : Links) (i : ℕ) (n : Node) → AreTries ls → IsTrie n → AreTries (put_at ls i n)
unfolding IsTrie put_at
AreTries-put_at end i n h k = tt
AreTries-put_at (absent ls) zero n h k = (k, h)
AreTries-put_at (present m ls) zero n h k = (k, h.1)
AreTries-put_at (absent ls) (suc i) n h k = AreTries-put_at ls i n h k
AreTries-put_at (present m ls) (suc i) n h k = (h.0, AreTries-put_at ls i n h.1 k)

next_at-put_at :
    (ls : Links) (i j : ℕ) (n : Node)
    → i < links_length ls
    → next_at (put_at ls i n) j ≡ (if i == j then some n else next_at ls j)
unfolding links_length put_at next_at
next_at-put_at end i j n h = absurd (omega arith)
next_at-put_at (absent ls) zero zero n h = refl
next_at-put_at (present m ls) zero zero n h = refl
next_at-put_at (absent ls) zero (suc j) n h = ground arith
next_at-put_at (present m ls) zero (suc j) n h = ground arith
next_at-put_at (absent ls) (suc i) zero n h = ground arith
next_at-put_at (present m ls) (suc i) zero n h = ground arith
next_at-put_at (absent ls) (suc i) (suc j) n h = ground (arith, next_at-put_at ls i j n)
next_at-put_at (present m ls) (suc i) (suc j) n h = ground (arith, next_at-put_at ls i j n)

next_at-null_links : (n j : ℕ) → next_at (null_links n) j ≡ none
unfolding next_at null_links
next_at-null_links zero j = refl
next_at-null_links (suc n) zero = refl
next_at-null_links (suc n) (suc j) = next_at-null_links n j

AreTries-next_at : (ls : Links) (i : ℕ) (n : Node) → AreTries ls → next_at ls i ≡ some n → IsTrie n
unfolding IsTrie next_at
AreTries-next_at end i n h e = cc
AreTries-next_at (absent ls) zero n h e = cc
AreTries-next_at (present m ls) zero n h e = subst IsTrie (some-injective _ _ e) h.0
AreTries-next_at (absent ls) (suc i) n h e = AreTries-next_at ls i n h e
AreTries-next_at (present m ls) (suc i) n h e = AreTries-next_at ls i n h.1 e

child_or_new-IsTrie : (ls : Links) (i c : ℕ) → AreTries ls → IsTrie (child_or_new ls i c)
unfolding child_or_new
child_or_new-IsTrie ls i c h = elim (Option-cases (next_at ls i)) [
  | inl e ↦ rw (e, child_or_new) (get_new_node-IsTrie c)
  | inr (n, e) ↦ rw (e, child_or_new) (AreTries-next_at ls i n h e)
]

get_char_index_bound : (c i : ℕ) → get_char_index c ≡ ok i → i < num_latin_letters
unfolding get_char_index
get_char_index_bound c i h = ground arith

-- `add_new_word` keeps every array at 26 entries, also where it throws.
pub add_new_word-IsTrie : (n : Node) (w : Word) → IsTrie n → IsTrie (add_new_word n w).0
unfolding add_new_word IsTrie
add_new_word-IsTrie (node f c ls) [] h = h
add_new_word-IsTrie (node f c ls) (x ∷ xs) h = elim (Result-cases (get_char_index x)) [
  | inl (e, p) ↦ rw (p, add_new_word) h
  | inr (i, p) ↦
      let child = add_new_word-IsTrie (child_or_new ls i x) xs (child_or_new-IsTrie ls i x h.1) in
      rw (p, add_new_word) (links_length-put_at ls i _ ∙ h.0, AreTries-put_at ls i _ h.1 child)
]

holds-new : (c : ℕ) (w : Word) → holds (get_new_node c) w ≡ false
unfolding holds get_node_prefix get_new_node
holds-new c [] = refl
holds-new c (x ∷ xs) = elim (Result-cases (get_char_index x)) [
  | inl (e, p) ↦ rw (p, get_node_prefix)
  | inr (i, p) ↦ rw (p, get_node_prefix, next_at-null_links 26 i)
]

-- A child that was just made holds nothing; another one holds what it held.
holds-child :
    (ls : Links) (i c : ℕ) (w : Word)
    → holds (child_or_new ls i c) w ≡ (elim (next_at ls i) [ none ↦ false | some m ↦ holds m w ])
unfolding child_or_new
holds-child ls i c w = ground (arith, holds-new c w)

-- After a successful `add_new_word` the tree holds the new word, in any case of its letters, and
-- what it held before.
pub holds-add_new_word :
    (n : Node) (w v : Word)
    → IsTrie n
    → (add_new_word n w).1 ≡ none
    → holds (add_new_word n w).0 v ≡ (same_word w v || holds n v)
unfolding holds add_new_word get_node_prefix same_word same_letter IsTrie
holds-add_new_word (node f c ls) [] [] h e = refl
holds-add_new_word (node f c ls) [] (y ∷ ys) h e = refl
holds-add_new_word (node f c ls) (x ∷ xs) [] h e = ground arith
holds-add_new_word (node f c ls) (x ∷ xs) (y ∷ ys) h e = elim (Result-cases (get_char_index x)) [
  | inl (k, p) ↦ ground arith
  | inr (i, p) ↦ elim (Result-cases (get_char_index y)) [
    | inl (k, q) ↦ ground arith
    | inr (j, q) ↦ ground (
      arith,
      holds-child ls i x ys,
      get_char_index_bound x i,
      next_at-put_at ls i j (add_new_word (child_or_new ls i x) xs).0,
      holds-add_new_word (child_or_new ls i x) xs ys,
      child_or_new-IsTrie ls i x,
    )
  ]
]
