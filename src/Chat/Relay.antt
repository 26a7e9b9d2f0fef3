-- ===== src/Chat/Relay.antt =====
-- The server of p2 sends every complete message to every client.
pub mod Events
use sphere_multithreading_cp.Prelude.{
  ==_refl, Bool, List, Option-cases, [], ap, append-nil, append_assoc, arith, false, fun_ext, inl,
  inr, last?, map, ok, refl, some, sym, true, ℕ, ◌++◌, ◌==◌, ◌∙◌, ◌∷◌, ◌≡◌,
}
use mathlib.Core.Bool.{false≢true}
use mathlib.Core.Option.{some-ne-none}
use sphere_multithreading_cp.Shell.{Text}
use sphere_multithreading_cp.Table.{update}
use sphere_multithreading_cp.Chat.{
  Message, no_message, append, clear, is_complete, Server, Received, bytes, message_of,
  store_message, send_message, ends_line, recv_message, send_all, relay, process_client_event,
}

-- The parts in which a line comes in: the last one ends with a line break, and no other.
unfoldable pub IsLine : List Text → Type 0
IsLine [] = false ≡ true
IsLine (t ∷ []) = ends_line t ≡ true
IsLine (t ∷ u ∷ ts) = (ends_line t ≡ false) × IsLine (u ∷ ts)

-- What `recv` gives of the parts; with the flag, `errno` is `EAGAIN` behind the last one.
abbrev pub parts_of : Bool → List Text → List Received
parts_of again [] = []
parts_of again (t ∷ []) = bytes t again ∷ []
parts_of again (t ∷ u ∷ ts) = bytes t false ∷ parts_of again (u ∷ ts)

-- What the clients are sent.
unfoldable pub deliveries : Message → List ℕ → List (ℕ × Text)
deliveries m [] = []
deliveries m (c ∷ cs) = map (λ b. (c, b)) m.blocks ++ deliveries m cs

pub send_all-deliveries :
    (m : Message) (cs : List ℕ) (s : Server)
    → send_all m cs s ≡ record s { sent = s.sent ++ deliveries m cs }
unfolding send_all deliveries
send_all-deliveries m [] s = ap (λ l. record s { sent = l }) (sym (append-nil s.sent))
send_all-deliveries m (c ∷ cs) s =
    send_all-deliveries m cs (send_message m c s)
    ∙ ap (λ l. record s { sent = l })
        (append_assoc s.sent (map (λ b. (c, b)) m.blocks) (deliveries m cs))

ends_line-last : (t : Text) → ends_line t ≡ true → (c : ℕ) × (last? t ≡ some c) × ((c == 10) ≡ true)
unfolding ends_line
ends_line-last t h = elim (Option-cases (last? t)) [
  | inl e ↦ absurd (false≢true (rw (ends_line, e) at h))
  | inr (c, e) ↦ (c, e, rw (ends_line, e) at h)
]

IsLine-last : (ts : List Text) → IsLine ts → (t : Text) × (last? ts ≡ some t) × (ends_line t ≡ true)
unfolding IsLine
IsLine-last [] h = absurd (false≢true h)
IsLine-last (t ∷ []) h = (t, refl, h)
IsLine-last (t ∷ u ∷ ts) h = IsLine-last (u ∷ ts) h.1

pub last-append : (xs ys : List Text) (y : Text) → last? ys ≡ some y → last? (xs ++ ys) ≡ some y
last-append [] ys y h = h
last-append (x ∷ []) [] y h = absurd (some-ne-none y (sym h))
last-append (x ∷ []) (z ∷ ys) y h = h
last-append (x ∷ w ∷ xs) ys y h = last-append (w ∷ xs) ys y h

is_complete-line :
    (bs ts : List Text) → IsLine ts → is_complete (record { blocks = bs ++ ts }) ≡ some true
unfolding is_complete
is_complete-line bs ts h =
    let (t, e, l) = IsLine-last ts h in
    let (c, e', l') = ends_line-last t l in rw (is_complete, last-append bs ts t e, e', l') refl

pub store-twice :
    (fd : ℕ) (m m' : Message) (s : Server)
    → store_message fd m' (store_message fd m s) ≡ store_message fd m' s
store-twice fd m m' s = ap (λ f. record s { messages = f }) (fun_ext (λ j. ground arith))

pub message_of-store :
    (fd : ℕ) (m : Message) (s : Server) → message_of fd (store_message fd m s) ≡ m
unfolding message_of
message_of-store fd m s = rw (message_of, ==_refl fd) refl

module _ (epoll_ctl : ℕ → Bool) (fd : ℕ) where
  recv_message-line :
      (again : Bool) (bs ts : List Text) (s : Server)
      → IsLine ts
      → message_of fd s ≡ record { blocks = bs }
      → recv_message epoll_ctl fd (parts_of again ts) s
        ≡ ok (true, store_message fd (record { blocks = bs ++ ts }) s)
  unfolding recv_message IsLine append
  recv_message-line again bs [] s h e = absurd (false≢true h)
  recv_message-line again bs (t ∷ []) s h e = rw (h, e) refl
  recv_message-line again bs (t ∷ u ∷ ts) s h e =
      rw
        (
          h.0,
          e,
          recv_message-line again (bs ++ t ∷ []) (u ∷ ts) _ h.1
              (message_of-store fd (record { blocks = bs ++ t ∷ [] }) s),
          store-twice fd (record { blocks = bs ++ t ∷ [] })
              (record { blocks = (bs ++ t ∷ []) ++ u ∷ ts }) s,
          append_assoc bs (t ∷ []) (u ∷ ts),
        )
        refl

  -- The event with which a line is complete.
  pub process_client_event-relay :
      (again : Bool) (ts : List Text) (s : Server)
      → IsLine ts
      → process_client_event epoll_ctl (parts_of again ts) false fd s
        ≡ ok (record s {
          messages = update s.messages fd (some no_message);
          sent =
              s.sent
              ++ deliveries (record { blocks = (message_of fd s).blocks ++ ts }) s.slave_sockets;
        })
  unfolding process_client_event relay clear
  process_client_event-relay again ts s h =
      let bs = (message_of fd s).blocks in
      let m : Message = record { blocks = bs ++ ts } in
      rw
        (
          process_client_event,
          recv_message-line again bs ts s h refl,
          relay,
          message_of-store fd m s,
          is_complete-line bs ts h,
          message_of-store fd m s,
          send_all-deliveries m s.slave_sockets (store_message fd m s),
        )
        (ap ok (
          store-twice fd m no_message (record s { sent = s.sent ++ deliveries m s.slave_sockets })))
