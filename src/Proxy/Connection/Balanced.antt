-- ===== src/Proxy/Connection/Balanced.antt =====
-- One operation is pending for each direction of a connection that is active.
pub mod Handlers
use mathlib.Core.Option.{some-injective, some-ne-none}
use sphere_multithreading_cp.Prelude.{
  ==_refl, Bool-cases, List, Option-cases, [], arith, false, inl, inr, length, refl, some, suc, sym,
  zero, ℕ, ◌++◌, ◌<◌, ◌==◌, ◌>>=◌, ◌∙◌, ◌∷◌, ◌≡◌, ◌≤◌, ◌⊎◌,
}
use sphere_multithreading_cp.Shell.{Text}
use sphere_multithreading_cp.Proxy.Connection.{
  buf_size, Op, connect, read_server, read_client, write_server, write_client, Connection,
  bytes_from, bytes, fill, close, write_rest, stop, handle_connect_server, handle_read_from_server,
  handle_write_to_server, handle_read_from_client, handle_write_to_client, handle_error, Takes,
  first, later,
}

bytes_from-same :
    (i n : ℕ) (f g : ℕ → ℕ) → ((j : ℕ) → i ≤ j → f j ≡ g j) → bytes_from i n f ≡ bytes_from i n g
unfolding bytes_from
bytes_from-same i zero f g h = refl
bytes_from-same i (suc n) f g h =
    rw (h i (omega arith), bytes_from-same (suc i) n f g (λ j l. h j (omega arith))) refl

bytes-fill : (i : ℕ) (t : Text) (buf : ℕ → ℕ) → bytes_from i (length t) (fill i t buf) ≡ t
unfolding bytes_from fill
bytes-fill i [] buf = refl
bytes-fill i (c ∷ cs) buf =
    let tail : bytes_from (suc i) (length cs) (fill i (c ∷ cs) buf) ≡ cs =
      bytes_from-same (suc i) (length cs) (fill i (c ∷ cs) buf) (fill (suc i) cs buf)
        (λ j l. ground arith)
      ∙ bytes-fill (suc i) cs buf in
    rw (==_refl i, tail) refl

-- What was taken for a peer and what it was given.
abbrev pub Passed : Type 1
Passed = (from to : Text) → Type 0

-- What is pending for the bytes on their way to the client, and to the server.
abbrev pub UnderWay : Passed → (from to : Text) (buf : ℕ → ℕ) → ℕ → Type 0
UnderWay r from to buf n =
    (before : Text) × (from ≡ before ++ bytes n buf) × r before to × (n ≤ buf_size)

abbrev pub ToClient : Passed → (from to : Text) (buf : ℕ → ℕ) → Op → Type 0
ToClient r from to buf read_server = r from to
ToClient r from to buf (write_client n) = UnderWay r from to buf n
ToClient r from to buf _ = ⊥

abbrev pub ToServer : Passed → (from to : Text) (buf : ℕ → ℕ) → Op → Type 0
ToServer r from to buf read_client = r from to
ToServer r from to buf (write_server n) = UnderWay r from to buf n
ToServer r from to buf _ = ⊥

-- Two operations, in either order.
abbrev pub Pair : List Op → Op → Op → Type 0
Pair os x y = (os ≡ x ∷ y ∷ []) ⊎ (os ≡ y ∷ x ∷ [])

-- Before the server is connected only that is pending; then one operation for each direction.
pub data Balanced (r : Passed) (c : Connection) : Type 0 where
  connecting :
      c.pending ≡ connect ∷ []
      → r c.from_server c.to_client
      → r c.from_client c.to_server
      → Balanced r c
  relaying :
      (x y : Op)
      → Pair c.pending x y
      → ToClient r c.from_server c.to_client c.server_buffer x
      → ToServer r c.from_client c.to_server c.client_buffer y
      → Balanced r c

Takes-none : {o : Op} {l os : List Op} → l ≡ [] → Takes o l os → ⊥
Takes-none e first = cc
Takes-none e (later t) = cc

Takes-one : {o p : Op} {l os : List Op} → l ≡ p ∷ [] → Takes o l os → (o ≡ p) × (os ≡ [])
Takes-one e first = (cc, cc)
Takes-one e (later t) = absurd (Takes-none (cc) t)

Takes-two :
    {o x y : Op} {l os : List Op}
    → l ≡ x ∷ y ∷ []
    → Takes o l os
    → ((o ≡ x) × (os ≡ y ∷ [])) ⊎ ((o ≡ y) × (os ≡ x ∷ []))
Takes-two e first = inl (cc, cc)
Takes-two e (later t) = let (p, q) = Takes-one (cc) t in inr (p, cc)

Takes-Pair :
    {o x y : Op} {l os : List Op}
    → Pair l x y
    → Takes o l os
    → ((o ≡ x) × (os ≡ y ∷ [])) ⊎ ((o ≡ y) × (os ≡ x ∷ []))
Takes-Pair (inl e) t = Takes-two e t
Takes-Pair (inr e) t = elim (Takes-two e t) [ inl p ↦ inr p | inr p ↦ inl p ]

-- What is left when a balanced connection has an operation taken.
data Left (r : Passed) (c : Connection) (o : Op) (os : List Op) : Type 0 where
  connection :
      o ≡ connect
      → os ≡ []
      → r c.from_server c.to_client
      → r c.from_client c.to_server
      → Left r c o os
  to_client :
      (y : Op)
      → os ≡ y ∷ []
      → ToClient r c.from_server c.to_client c.server_buffer o
      → ToServer r c.from_client c.to_server c.client_buffer y
      → Left r c o os
  to_server :
      (x : Op)
      → os ≡ x ∷ []
      → ToClient r c.from_server c.to_client c.server_buffer x
      → ToServer r c.from_client c.to_server c.client_buffer o
      → Left r c o os

Takes-Left :
    {r : Passed} {c : Connection} {o : Op} {os : List Op}
    → Balanced r c
    → Takes o c.pending os
    → Left r c o os
Takes-Left (connecting e a b) t = let (p, q) = Takes-one e t in connection p q a b
Takes-Left {r} {c} (relaying x y e a b) t = elim (Takes-Pair e t) [
  | inl (p, q) ↦ to_client y q (rw p a) b
  | inr (p, q) ↦ to_server x q a (rw p b)
]

stop-inactive : (e : ℕ) (c c' : Connection) → stop (some e) c ≡ some c' → c'.is_active ≡ false
unfolding stop
stop-inactive e c c' h = elim (Bool-cases (e == 2)) [
  | inr other ↦ let p : close c ≡ c' = some-injective _ _ (rw (stop, other) at h) in rw (← p) refl
  | inl eof ↦ elim (Option-cases (write_rest write_client c.server_buffer c)) [
    | inl none1 ↦ absurd (some-ne-none c' (sym (rw (stop, eof, none1) at h)))
    | inr (d, one) ↦ elim (Option-cases (write_rest write_server c.client_buffer d)) [
      | inl none2 ↦ absurd (some-ne-none c' (sym (rw (stop, eof, one, none2) at h)))
      | inr (d', two) ↦
          let p : close d' ≡ c' = some-injective _ _ (rw (stop, eof, one, two) at h) in
          rw (← p) refl
    ]
  ]
]

pub handle_error-inactive :
    (o : Op) (e : ℕ) (c c' : Connection) → handle_error o e c ≡ some c' → c'.is_active ≡ false
unfolding handle_error handle_connect_server handle_read_from_server handle_write_to_server
    handle_read_from_client handle_write_to_client
handle_error-inactive connect e c c' h = stop-inactive e c c' h
handle_error-inactive read_server e c c' h = stop-inactive e c c' h
handle_error-inactive read_client e c c' h = stop-inactive e c c' h
handle_error-inactive (write_server n) e c c' h = stop-inactive e c c' h
handle_error-inactive (write_client n) e c c' h = stop-inactive e c c' h

positive : (t : Text) → 0 < length t → (length t == 0) ≡ false
positive t h = ground arith
