-- ===== src/Trie/Tests.antt =====
-- p7: a dictionary of one word.
use sphere_multithreading_cp.Trie.Destroy.{delete_trie, postorder, delete_trie-postorder}
use sphere_multithreading_cp.Prelude.{[], none, refl, some, ◌||◌, ◌∷◌, ◌≡◌}
use sphere_multithreading_cp.Trie.{
  Node, get_new_node, add_new_word, get_char_index, child_or_new, next_at,
}
use sphere_multithreading_cp.Trie.Dictionary.{
  get_new_node-IsTrie, holds, same_word, holds-add_new_word,
}

added_ab : (add_new_word (get_new_node 0) (97 ∷ 98 ∷ [])).1 ≡ none
unfolding add_new_word get_new_node get_char_index child_or_new next_at
added_ab = refl

abbrev root : Node
root = (add_new_word (get_new_node 0) (97 ∷ 98 ∷ [])).0

holds-add_new_word_example :
    holds (add_new_word (get_new_node 0) (97 ∷ 98 ∷ [])).0 (65 ∷ 98 ∷ [])
    ≡ (same_word (97 ∷ 98 ∷ []) (65 ∷ 98 ∷ []) || holds (get_new_node 0) (65 ∷ 98 ∷ []))
holds-add_new_word_example =
    holds-add_new_word (get_new_node 0) (97 ∷ 98 ∷ []) (65 ∷ 98 ∷ []) (get_new_node-IsTrie 0)
      added_ab

delete_trie-postorder_example : delete_trie root ≡ some (postorder root)
delete_trie-postorder_example = delete_trie-postorder root
