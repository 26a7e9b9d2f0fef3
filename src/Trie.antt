-- ===== src/Trie.antt =====
-- p7/Trie.h and p7/Trie.cpp: the prefix tree of the suggestion server. A node owns its children,
-- so a tree of nodes is a value; a character is its code.
pub mod Dictionary
pub mod Words
pub mod Server
pub mod Destroy
mod Tests
use sphere_multithreading_cp.Prelude.{
  Bool, List, Option, Result, [], err, false, if◌then◌else◌, leb, none, ok, pop_back, some, suc,
  true, zero, ℕ, ◌&&◌, ◌-◌, ◌∷◌,
}

pub data TrieErrorType : Type 0 where
  no_prefix : TrieErrorType
  not_allowed_symbol : TrieErrorType

abbrev pub num_latin_letters : ℕ
num_latin_letters = 26

-- `NUM_WORDS`: at most so many suggestions for a prefix.
abbrev pub num_words : ℕ
num_words = 10

abbrev pub Word : Type 0
Word = List ℕ

-- `Links` is the array `p_next`, a NULL entry being `absent`.
mutual
  pub data Node : Type 0 where
    node : (is_final : Bool) → (c : ℕ) → Links → Node

  pub data Links : Type 0 where
    end : Links
    absent : Links → Links
    present : Node → Links → Links

null_links : ℕ → Links
null_links zero = end
null_links (suc n) = absent (null_links n)

pub get_new_node : ℕ → Node
unfolding null_links
get_new_node c = node false c (null_links num_latin_letters)

-- `p_next[i]`
pub next_at : Links → ℕ → Option Node
next_at end i = none
next_at (absent ls) zero = none
next_at (present n ls) zero = some n
next_at (absent ls) (suc i) = next_at ls i
next_at (present n ls) (suc i) = next_at ls i

-- `p_next[i] = n`
pub put_at : Links → ℕ → Node → Links
put_at end i n = end
put_at (absent ls) zero n = present n ls
put_at (present m ls) zero n = present n ls
put_at (absent ls) (suc i) n = absent (put_at ls i n)
put_at (present m ls) (suc i) n = present m (put_at ls i n)

pub get_char_index : ℕ → Result TrieErrorType ℕ
get_char_index c =
    if leb b'a' c && leb c b'z'
    then ok (c - b'a')
    else if leb b'A' c && leb c b'Z'
    then ok (c - b'A')
    else err not_allowed_symbol

-- The child that the loop goes to, created if the entry is NULL.
pub child_or_new : Links → ℕ → ℕ → Node
child_or_new ls i c = elim (next_at ls i) [ none ↦ get_new_node c | some n ↦ n ]

-- The tree below `p_node` after the call, and the exception that ended it, if any: the nodes made
-- before the throw stay.
pub add_new_word : Node → Word → Node × Option TrieErrorType
add_new_word (node f c ls) [] = (node true c ls, none)
add_new_word (node f c ls) (x ∷ xs) = elim (get_char_index x) [
  | err e ↦ (node f c ls, some e)
  | ok i ↦
      let (child, e) = add_new_word (child_or_new ls i x) xs in (node f c (put_at ls i child), e)
]

pub get_node_prefix : Node → Word → Result TrieErrorType Node
get_node_prefix n [] = ok n
get_node_prefix (node f c ls) (x ∷ xs) = elim (get_char_index x) [
  | err e ↦ err e
  | ok i ↦ elim (next_at ls i) [ none ↦ err no_prefix | some n ↦ get_node_prefix n xs ]
]

-- `Trie::Trie(file_name)`: `lines` are the buffers that `fgets` filled, each with the line break
-- that the code cuts off (the last character, whatever it is).
pub load_lines : Node → List Word → Result TrieErrorType Node
load_lines n [] = ok n
load_lines n (l ∷ ls) =
    let (n', e) = add_new_word n (pop_back l) in elim e [ none ↦ load_lines n' ls | some x ↦ err x ]

pub new_trie : List Word → Result TrieErrorType Node
new_trie lines = load_lines (get_new_node 0) lines
