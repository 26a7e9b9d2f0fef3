-- ===== src/Trie/Server/Tests.antt =====
-- p7: a client asks for the words that begin with "a".
use sphere_multithreading_cp.Prelude.{[], arith, false, ok, refl, true, ◌∷◌, ◌≡◌}
use sphere_multithreading_cp.Shell.{Text}
use sphere_multithreading_cp.Shell.Parser.{is_space}
use sphere_multithreading_cp.Chat.{c_string}
use sphere_multithreading_cp.Trie.{
  Node, get_new_node, add_new_word, get_char_index, child_or_new, next_at, put_at, get_node_prefix,
}
use sphere_multithreading_cp.Trie.Words.{words_below, emit}
use sphere_multithreading_cp.Trie.Server.{
  Server, ok_line, ok_word, bytes, up_to_space, skip_spaces, first_word, process_client_event,
}
use sphere_multithreading_cp.Trie.Server.Replies.{
  suggestions, replies, Short, Fits, Fits-Short, delivered, process_client_event-replies,
}

-- The dictionary of "ab".
abbrev root : Node
root = (add_new_word (get_new_node 0) (b'a' ∷ b'b' ∷ [])).0

abbrev server : Server
server = record { slave_sockets = 5 ∷ []; p_dict = root; sent = [] }

-- " a\n"
abbrev question : Text
question = 32 ∷ b'a' ∷ 10 ∷ []

asked : first_word question ≡ b'a' ∷ []
unfolding first_word up_to_space skip_spaces c_string is_space
asked = refl

suggested : suggestions root (b'a' ∷ []) ≡ ok ((b'a' ∷ b'b' ∷ []) ∷ [])
unfolding suggestions get_node_prefix add_new_word get_new_node get_char_index child_or_new next_at
    put_at words_below emit
suggested = refl

fits : Fits root (first_word question)
unfolding Short
fits = rw asked (Fits-Short root (b'a' ∷ []) ((b'a' ∷ b'b' ∷ []) ∷ []) suggested (omega arith, tt))

process_client_event-replies_example :
    process_client_event (λ _. true) (bytes question) false 5 server
    ≡ ok (delivered 5 (replies root (first_word question)) server)
process_client_event-replies_example =
    process_client_event-replies (λ _. true) question 5 server (omega arith)
      (rw asked (omega arith)) fits

replied : replies root (first_word question) ≡ ok_line ∷ ok_word (b'a' ∷ b'b' ∷ []) ∷ []
unfolding replies
replied = rw (asked, replies, suggested) refl
