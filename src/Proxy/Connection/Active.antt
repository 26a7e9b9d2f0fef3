-- ===== src/Proxy/Connection/Active.antt =====
-- Every connection that is reached is balanced while it is active.
use mathlib.Core.Bool.{false≢true}
use sphere_multithreading_cp.Prelude.{
  [], arith, false, inl, inr, refl, sym, true, ℕ, ◌++◌, ◌∙◌, ◌≡◌, ◌⊎◌,
}
use sphere_multithreading_cp.Shell.{Text}
use sphere_multithreading_cp.Proxy.Connection.{
  Connection, bytes, start, handle_connect_server, handle_read_from_server, handle_write_to_server,
  handle_read_from_client, handle_write_to_client, Step, connected, got_server, got_client,
  sent_client, sent_server, error, Reach, here, next,
}
use sphere_multithreading_cp.Proxy.Connection.Balanced.{
  Passed, Balanced, connecting, handle_error-inactive,
}
use sphere_multithreading_cp.Proxy.Connection.Balanced.Handlers.{
  connected-Balanced, got_server-Balanced, got_client-Balanced, sent_client-Balanced,
  sent_server-Balanced,
}

-- The connection that `instance` makes, on whatever is in the buffers.
abbrev pub new_connection : (server_buffer client_buffer : ℕ → ℕ) → Connection
new_connection s c = record {
  server_buffer = s;
  client_buffer = c;
  is_active = false;
  pending = [];
  from_server = [];
  to_client = [];
  from_client = [];
  to_server = [];
}

-- `r` has to hold at the start and when a send ends, which may be cut short.
module _ (r : Passed) (none : r [] []) (sends : ℕ → ℕ → Type 0)
    (push : (from to : Text) (buf : ℕ → ℕ) (m n : ℕ)
      → sends m n
      → r from to
      → r (from ++ bytes n buf) (to ++ bytes m buf)) where
  Step-Balanced :
      {c c' : Connection}
      → Step sends c c'
      → Balanced r c ⊎ (c.is_active ≡ false)
      → Balanced r c' ⊎ (c'.is_active ≡ false)
  unfolding handle_connect_server handle_read_from_server handle_write_to_server
      handle_read_from_client handle_write_to_client
  Step-Balanced {c} {c'} (connected {os} t h) (inl b) = inl (connected-Balanced c b os c' t h)
  Step-Balanced {c} {c'} (got_server {os} s t low high h) (inl b) =
      inl (got_server-Balanced c b os s c' t low high h)
  Step-Balanced {c} {c'} (got_client {os} s t low high h) (inl b) =
      inl (got_client-Balanced c b os s c' t low high h)
  Step-Balanced {c} {c'} (sent_client {os} m n t k h) (inl b) =
      inl (sent_client-Balanced c b os m n c' (λ from to. push from to c.server_buffer m n k) t h)
  Step-Balanced {c} {c'} (sent_server {os} m n t k h) (inl b) =
      inl (sent_server-Balanced c b os m n c' (λ from to. push from to c.client_buffer m n k) t h)
  Step-Balanced {c} {c'} (error {os} o e t h) b =
      inr (handle_error-inactive o e (record c { pending = os }) c' h)
  Step-Balanced {c} {c'} (connected {os} t h) (inr a) = inr (ground arith)
  Step-Balanced {c} {c'} (got_server {os} s t low high h) (inr a) = inr (ground arith)
  Step-Balanced {c} {c'} (got_client {os} s t low high h) (inr a) = inr (ground arith)
  Step-Balanced {c} {c'} (sent_client {os} m n t k h) (inr a) = inr (ground arith)
  Step-Balanced {c} {c'} (sent_server {os} m n t k h) (inr a) = inr (ground arith)

  Reach-Balanced :
      (s b : ℕ → ℕ) {c : Connection}
      → Reach sends (start (new_connection s b)) c
      → Balanced r c ⊎ (c.is_active ≡ false)
  unfolding start
  Reach-Balanced s b here = inl (connecting refl none none)
  Reach-Balanced s b (next q st) = Step-Balanced st (Reach-Balanced s b q)

  active :
      {c : Connection} → Balanced r c ⊎ (c.is_active ≡ false) → c.is_active ≡ true → Balanced r c
  active (inl b) a = b
  active (inr i) a = absurd (false≢true (sym i ∙ a))

  pub active-Balanced :
      (s b : ℕ → ℕ) {c : Connection}
      → Reach sends (start (new_connection s b)) c
      → c.is_active ≡ true
      → Balanced r c
  active-Balanced s b q a = active (Reach-Balanced s b q) a
