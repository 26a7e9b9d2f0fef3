-- ===== src/Trie/Destroy.antt =====
-- `Trie::~Trie` of p7/Trie.cpp: the walk over an explicit stack that deletes the nodes.
use sphere_multithreading_cp.Prelude.{
  Bool-cases, List, Option, [], ap, append-nil, append_assoc, arith, false, if◌then◌else◌, inl, inr,
  none, refl, some, suc, sym, true, zero, ℕ, ◌*◌, ◌++◌, ◌∙◌, ◌∷◌, ◌≡◌, ◌≤◌,
}
use sphere_multithreading_cp.Trie.{Node, Links, node, end, absent, present}
use sphere_multithreading_cp.Trie.Words.{
  Stack, push_children, is_leaf, node_size, cost, cost_pop, cost_up, cost_down, cost_node,
  cost_visited,
}

-- The `while (nodes.size())` loop with the nodes deleted so far; `none` means that the fuel ran out.
pub delete_nodes : ℕ → Stack → List Node → Option (List Node)
unfolding push_children is_leaf
delete_nodes fuel [] deleted = some deleted
delete_nodes zero (x ∷ st) deleted = none
delete_nodes (suc fuel) ((n, true) ∷ st) deleted = delete_nodes fuel st (deleted ++ n ∷ [])
delete_nodes (suc fuel) ((node f c ls, false) ∷ st) deleted =
    let down = delete_nodes fuel (push_children ls ((node f c ls, true) ∷ st)) deleted in
    let leaf = delete_nodes fuel st (deleted ++ node f c ls ∷ []) in
    if is_leaf ls then leaf else down

-- Each node is met twice at most.
pub delete_trie : Node → Option (List Node)
delete_trie p_head = delete_nodes (2 * node_size p_head) ((p_head, false) ∷ []) []

-- The nodes of a tree, each behind those below it.
unfoldable mutual
  pub postorder : Node → List Node
  postorder (node f c ls) = postorder_links ls ++ node f c ls ∷ []

  pub postorder_links : Links → List Node
  postorder_links end = []
  postorder_links (absent ls) = postorder_links ls
  postorder_links (present n ls) = postorder n ++ postorder_links ls

to_delete : Stack → List Node
to_delete [] = []
to_delete ((n, false) ∷ st) = postorder n ++ to_delete st
to_delete ((n, true) ∷ st) = n ∷ to_delete st

to_delete-push :
    (ls : Links) (st : Stack) → to_delete (push_children ls st) ≡ postorder_links ls ++ to_delete st
unfolding to_delete postorder push_children
to_delete-push end st = refl
to_delete-push (absent ls) st = to_delete-push ls st
to_delete-push (present n ls) st =
    ap (◌++◌ (postorder n)) (to_delete-push ls st) ∙ sym (append_assoc (postorder n) _ _)

postorder-leaf : (ls : Links) → is_leaf ls ≡ true → postorder_links ls ≡ []
unfolding postorder is_leaf
postorder-leaf end h = refl
postorder-leaf (absent ls) h = postorder-leaf ls h
postorder-leaf (present n ls) h = cc

delete_nodes-to_delete :
    (fuel : ℕ) (st : Stack) (deleted : List Node)
    → cost st ≤ fuel
    → delete_nodes fuel st deleted ≡ some (deleted ++ to_delete st)
unfolding delete_nodes to_delete postorder
delete_nodes-to_delete fuel [] deleted h = ap some (sym (append-nil deleted))
delete_nodes-to_delete zero ((node f c ls, false) ∷ st) deleted h = absurd (cost_node f c ls st h)
delete_nodes-to_delete zero ((n, true) ∷ st) deleted h = absurd (cost_visited n st h)
delete_nodes-to_delete (suc fuel) ((n, true) ∷ st) deleted h =
    delete_nodes-to_delete fuel st (deleted ++ n ∷ []) (cost_pop n st fuel h)
    ∙ ap some (append_assoc deleted (n ∷ []) (to_delete st))
delete_nodes-to_delete (suc fuel) ((node f c ls, false) ∷ st) deleted h =
    elim (Bool-cases (is_leaf ls)) [
      | inl leaf ↦
          rw (leaf, postorder-leaf ls leaf)
            (delete_nodes-to_delete fuel st (deleted ++ node f c ls ∷ []) (cost_up f c ls st fuel h)
              ∙ ap some (append_assoc deleted (node f c ls ∷ []) (to_delete st)))
      | inr inner ↦ rw inner (
          delete_nodes-to_delete fuel (push_children ls ((node f c ls, true) ∷ st)) deleted
            (cost_down f c ls st fuel h)
          ∙ ap (λ l. some (deleted ++ l))
              (to_delete-push ls ((node f c ls, true) ∷ st)
                ∙ sym (append_assoc (postorder_links ls) (node f c ls ∷ []) (to_delete st))))
    ]

-- The destructor ends and deletes each node once, behind all that are below it.
pub delete_trie-postorder : (p_head : Node) → delete_trie p_head ≡ some (postorder p_head)
unfolding delete_trie cost to_delete
delete_trie-postorder p_head =
    delete_nodes-to_delete (2 * node_size p_head) ((p_head, false) ∷ []) [] (omega arith)
    ∙ ap some (append-nil (postorder p_head))
