-- ===== src/Trie/Words.antt =====
-- `Trie::get_words` of p7/Trie.cpp: the walk over an explicit stack, and the order in which a
-- recursive walk meets the words.
use sphere_multithreading_cp.Prelude.{
  Bool, Bool-cases, List, Option, Result, [], ap, append-nil, append_assoc, arith, false, fun_ext,
  if◌then◌else◌, inl, inr, length, length-append, none, ok, pop_back, pop_back-append, refl, some,
  suc, sym, take, take-append_exact, take_all, true, zero, ℕ, ◌&&◌, ◌*◌, ◌++◌, ◌+◌, ◌<◌, ◌==◌,
  ◌>>=◌, ◌∙◌, ◌∷◌, ◌≡◌, ◌≤◌,
}
use sphere_multithreading_cp.Trie.{
  Node, Links, Word, node, end, absent, present, num_words, TrieErrorType, get_node_prefix,
}

-- The stacks `nodes` and `is_visited`, which are pushed and popped together; the top comes first.
abbrev pub Stack : Type 0
Stack = List (Node × Bool)

-- The `for` that pushes the children from the last entry to the first.
unfoldable pub push_children : Links → Stack → Stack
push_children end st = st
push_children (absent ls) st = push_children ls st
push_children (present n ls) st = (n, false) ∷ push_children ls st

-- `p_node == nodes.top()` after that loop: nothing was pushed.
unfoldable pub is_leaf : Links → Bool
is_leaf end = true
is_leaf (absent ls) = is_leaf ls
is_leaf (present n ls) = false

unfoldable pub emit : Bool → Word → List Word → List Word
emit is_final word words = if is_final then words ++ word ∷ [] else words

-- The `while (nodes.size())` loop; `none` means that the fuel ran out.
pub walk : ℕ → Stack → Word → List Word → Option (List Word)
unfolding push_children is_leaf emit
walk fuel [] word words = some words
walk zero (x ∷ st) word words = none
walk (suc fuel) ((n, true) ∷ st) word words = walk fuel st (pop_back word) words
walk (suc fuel) ((node f c ls, false) ∷ st) word words =
    let word' = word ++ c ∷ [] in
    let words' = emit f word' words in
    let down = walk fuel (push_children ls ((node f c ls, true) ∷ st)) word' words' in
    let up = walk fuel st (pop_back word') words' in
    let next = if is_leaf ls then up else down in
    if f && (length words' == num_words) then some words' else next

mutual
  pub node_size : Node → ℕ
  node_size (node f c ls) = suc (links_size ls)

  pub links_size : Links → ℕ
  links_size end = 0
  links_size (absent ls) = links_size ls
  links_size (present n ls) = node_size n + links_size ls

-- Each node is met twice at most, so two rounds for each suffice.
pub get_words : Node → Word → Result TrieErrorType (Option (List Word))
get_words p_head prefix = do
  n ← get_node_prefix p_head prefix
  ok (walk (2 * node_size n) ((n, false) ∷ []) (pop_back prefix) [])

-- The words below a node in the order of the alphabet, a word before its extensions.
unfoldable mutual
  pub words_below : Word → Node → List Word
  words_below w (node f c ls) = emit f (w ++ c ∷ []) [] ++ words_links (w ++ c ∷ []) ls

  pub words_links : Word → Links → List Word
  words_links w end = []
  words_links w (absent ls) = words_links w ls
  words_links w (present n ls) = words_below w n ++ words_links w ls

-- What the walk has still to find, and how many rounds it takes at most.
drain : Stack → Word → List Word
drain [] w = []
drain ((n, false) ∷ st) w = words_below w n ++ drain st w
drain ((n, true) ∷ st) w = drain st (pop_back w)

unfoldable pub cost : Stack → ℕ
unfolding node_size
cost [] = 0
cost ((n, false) ∷ st) = 2 * node_size n + cost st
cost ((n, true) ∷ st) = suc (cost st)

emit-append : (f : Bool) (w : Word) (out : List Word) → emit f w out ≡ out ++ emit f w []
unfolding emit
emit-append true w out = refl
emit-append false w out = sym (append-nil out)

drain-push :
    (ls : Links) (st : Stack) (w : Word)
    → drain (push_children ls st) w ≡ words_links w ls ++ drain st w
unfolding drain words_below push_children
drain-push end st w = refl
drain-push (absent ls) st w = drain-push ls st w
drain-push (present n ls) st w =
    ap (◌++◌ (words_below w n)) (drain-push ls st w) ∙ sym (append_assoc (words_below w n) _ _)

cost-push : (ls : Links) (st : Stack) → cost (push_children ls st) ≡ 2 * links_size ls + cost st
unfolding cost push_children
cost-push end st = omega arith
cost-push (absent ls) st = cost-push ls st
cost-push (present n ls) st = omega (arith, cost-push ls st)

words_links-leaf : (ls : Links) (w : Word) → is_leaf ls ≡ true → words_links w ls ≡ []
unfolding words_below is_leaf
words_links-leaf end w h = refl
words_links-leaf (absent ls) w h = words_links-leaf ls w h
words_links-leaf (present n ls) w h = cc

drain-node :
    (f : Bool) (c : ℕ) (ls : Links) (st : Stack) (w : Word) (out : List Word)
    → out ++ drain ((node f c ls, false) ∷ st) w
      ≡ emit f (w ++ c ∷ []) out ++ (words_links (w ++ c ∷ []) ls ++ drain st w)
unfolding drain words_below
drain-node f c ls st w out = rw (emit-append f (w ++ c ∷ []) out) (simp append_assoc)

length-emit :
    (f : Bool) (w : Word) (out : List Word)
    → length out < num_words
    → (f && (length (emit f w out) == num_words)) ≡ false
    → length (emit f w out) < num_words
unfolding emit
length-emit true w out h k = ground (arith, length-append out (w ∷ []))
length-emit false w out h k = h

pub cost_node :
    (f : Bool) (c : ℕ) (ls : Links) (st : Stack) → ¬ (cost ((node f c ls, false) ∷ st) ≤ 0)
unfolding cost
cost_node f c ls st h = omega arith

pub cost_visited : (n : Node) (st : Stack) → ¬ (cost ((n, true) ∷ st) ≤ 0)
unfolding cost
cost_visited n st h = omega arith

pub cost_pop : (n : Node) (st : Stack) (k : ℕ) → cost ((n, true) ∷ st) ≤ suc k → cost st ≤ k
unfolding cost
cost_pop n st k h = omega arith

pub cost_up :
    (f : Bool) (c : ℕ) (ls : Links) (st : Stack) (k : ℕ)
    → cost ((node f c ls, false) ∷ st) ≤ suc k
    → cost st ≤ k
unfolding cost
cost_up f c ls st k h = omega arith

pub cost_down :
    (f : Bool) (c : ℕ) (ls : Links) (st : Stack) (k : ℕ)
    → cost ((node f c ls, false) ∷ st) ≤ suc k
    → cost (push_children ls ((node f c ls, true) ∷ st)) ≤ k
unfolding cost
cost_down f c ls st k h = omega (arith, cost-push ls ((node f c ls, true) ∷ st))

module _ (f : Bool) (c : ℕ) (ls : Links) (st : Stack) (w : Word) (out : List Word) where
  full_eq :
      (f && (length (emit f (w ++ c ∷ []) out) == num_words)) ≡ true
      → take num_words (out ++ drain ((node f c ls, false) ∷ st) w) ≡ emit f (w ++ c ∷ []) out
  full_eq h =
      ap (take num_words) (drain-node f c ls st w out)
      ∙ take-append_exact num_words (emit f (w ++ c ∷ []) out) _ (ground arith)

  up_eq :
      is_leaf ls ≡ true
      → emit f (w ++ c ∷ []) out ++ drain st (pop_back (w ++ c ∷ []))
        ≡ out ++ drain ((node f c ls, false) ∷ st) w
  up_eq leaf =
      rw (drain-node f c ls st w out, words_links-leaf ls (w ++ c ∷ []) leaf, pop_back-append w c)

  down_eq :
      emit f (w ++ c ∷ []) out ++ drain (push_children ls ((node f c ls, true) ∷ st)) (w ++ c ∷ [])
      ≡ out ++ drain ((node f c ls, false) ∷ st) w
  unfolding drain
  down_eq =
      rw (drain-push ls ((node f c ls, true) ∷ st) (w ++ c ∷ []), pop_back-append w c)
        (sym (drain-node f c ls st w out))

-- The explicit stack finds the first words of the recursive order.
walk-drain :
    (fuel : ℕ) (st : Stack) (w : Word) (out : List Word)
    → cost st ≤ fuel
    → length out < num_words
    → walk fuel st w out ≡ some (take num_words (out ++ drain st w))
unfolding walk drain
walk-drain fuel [] w out h k =
    ap some (sym (simp append-nil (take_all num_words out (omega arith))))
walk-drain zero ((node f c ls, false) ∷ st) w out h k = absurd (cost_node f c ls st h)
walk-drain zero ((n, true) ∷ st) w out h k = absurd (cost_visited n st h)
walk-drain (suc fuel) ((n, true) ∷ st) w out h k =
    walk-drain fuel st (pop_back w) out (cost_pop n st fuel h) k
walk-drain (suc fuel) ((node f c ls, false) ∷ st) w out h k =
    let w' = w ++ c ∷ [] in
    let out' = emit f w' out in
    elim (Bool-cases (f && (length out' == num_words))) [
      | inl full ↦ rw full (ap some (sym (full_eq f c ls st w out full)))
      | inr more ↦ rw more (elim (Bool-cases (is_leaf ls)) [
        | inl leaf ↦ rw leaf (
            walk-drain fuel st (pop_back w') out' (cost_up f c ls st fuel h)
              (length-emit f w' out k more)
            ∙ ap (λ l. some (take num_words l)) (up_eq f c ls st w out leaf))
        | inr inner ↦ rw inner (
            walk-drain fuel (push_children ls ((node f c ls, true) ∷ st)) w' out'
              (cost_down f c ls st fuel h) (length-emit f w' out k more)
            ∙ ap (λ l. some (take num_words l)) (down_eq f c ls st w out))
      ])
    ]

pub get_words-take :
    (p_head : Node) (prefix : Word)
    → get_words p_head prefix ≡ (
        get_node_prefix p_head prefix >>= λ n.
        ok (some (take num_words (words_below (pop_back prefix) n))))
unfolding get_words cost drain
get_words-take p_head prefix =
    ap (λ f. get_node_prefix p_head prefix >>= f)
      (fun_ext λ n. ap ok (
        walk-drain (2 * node_size n) ((n, false) ∷ []) (pop_back prefix) [] (omega arith)
          (omega arith)
        ∙ ap (λ l. some (take num_words l)) (append-nil (words_below (pop_back prefix) n))))
