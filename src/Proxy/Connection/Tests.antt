-- ===== src/Proxy/Connection/Tests.antt =====
-- p3: a connection that has read "h" from its client.
use mathlib.Core.List.{Sublist}
use sphere_multithreading_cp.Prelude.{[], arith, refl, true, ℕ, ◌+◌, ◌∷◌, ◌≡◌}
use sphere_multithreading_cp.Proxy.Connection.{
  zeros, handle_write_to_server, bytes_from, sent_server, Connection, read_server, read_client,
  write_server, first, later, Step, connected, got_client, Reach, here, next, start, fill,
  handle_connect_server, handle_read_from_client,
}
use sphere_multithreading_cp.Proxy.Connection.Active.{new_connection}
use sphere_multithreading_cp.Proxy.Connection.Pieces.{Relayed, relay-pieces}
use sphere_multithreading_cp.Proxy.Connection.Order.{relay-Sublist}

abbrev AllSent : ℕ → ℕ → Type 0
AllSent m n = m ≡ n

abbrev started : Connection
started = start (new_connection (λ _. 0) (λ _. 0))

abbrev joined : Connection
joined = record (new_connection (λ _. 0) (λ _. 0)) {
  is_active = true;
  pending = read_server ∷ read_client ∷ [];
}

abbrev heard : Connection
heard = record joined {
  pending = write_server 1 ∷ read_server ∷ [];
  client_buffer = fill 0 (104 ∷ []) (λ _. 0);
  from_client = 104 ∷ [];
}

to_joined : Step AllSent started joined
unfolding start handle_connect_server
to_joined = connected first refl

to_heard : Step AllSent joined heard
unfolding handle_read_from_client
to_heard = got_client (104 ∷ []) (later first) (omega arith) (omega arith) refl

reached : Reach AllSent started heard
reached = next (next here to_joined) to_heard

relay-Sublist_example :
    Sublist heard.to_client heard.from_server × Sublist heard.to_server heard.from_client
relay-Sublist_example = relay-Sublist AllSent (λ m n h. omega arith) (λ _. 0) (λ _. 0) reached refl

-- Of a send the system does all but one byte.
abbrev AllButOne : ℕ → ℕ → Type 0
AllButOne m n = m + 1 ≡ n

abbrev got_hi : Connection
got_hi = record joined {
  pending = write_server 2 ∷ read_server ∷ [];
  client_buffer = fill 0 (104 ∷ 105 ∷ []) (λ _. 0);
  from_client = 104 ∷ 105 ∷ [];
}

abbrev sent_h : Connection
sent_h = record joined {
  pending = read_client ∷ read_server ∷ [];
  client_buffer = zeros got_hi.client_buffer;
  from_client = 104 ∷ 105 ∷ [];
  to_server = 104 ∷ [];
}

to_hi : Step AllButOne joined got_hi
unfolding handle_read_from_client
to_hi = got_client (104 ∷ 105 ∷ []) (later first) (omega arith) (omega arith) refl

to_first : Step AllButOne started joined
unfolding start handle_connect_server
to_first = connected first refl

to_sent_h : Step AllButOne got_hi sent_h
unfolding handle_write_to_server bytes_from fill
to_sent_h = sent_server 1 2 first (omega arith) refl

relay-pieces_example :
    Relayed AllButOne (λ m n h. omega arith) sent_h.from_server sent_h.to_client
    × Relayed AllButOne (λ m n h. omega arith) sent_h.from_client sent_h.to_server
relay-pieces_example =
    relay-pieces AllButOne (λ m n h. omega arith) (λ _. 0) (λ _. 0)
      (next (next (next here to_first) to_hi) to_sent_h) refl
