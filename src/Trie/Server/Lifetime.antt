-- ===== src/Trie/Server/Lifetime.antt =====
-- p7: the constructor and the destructor of `Server` (p7/Server.cpp). What the file holds is an
-- argument.
use sphere_multithreading_cp.Prelude.{List, Result, err, ok, ℕ}
use sphere_multithreading_cp.Kernel.{
  ◌>>=◌, ◌>>◌, Prog, pure, open_server, close_server, drop_clients,
}
use sphere_multithreading_cp.Trie.{TrieErrorType, Word, Node, new_trie}

-- The dictionary, `master_socket` and `master_fd`; what `new Trie` throws comes first.
pub new_server : ℕ → List Word → Result TrieErrorType (Prog (Node × ℕ × ℕ))
new_server port lines = elim (new_trie lines) [
  | err e ↦ err e
  | ok p_dict ↦ ok (open_server port >>= λ m. pure (p_dict, m.0, m.1))
]

pub delete_server : List ℕ → ℕ × ℕ → Prog (Unit {0})
delete_server slave_sockets m = drop_clients m slave_sockets >> close_server m
