-- ===== src/Chat/Relay/Events.antt =====
-- p2: a line that comes to the server over several events, as `errno` and the network will have it.
use sphere_multithreading_cp.Prelude.{
  All, Bool, List, Option-cases, [], ap, append_assoc, false, inl, inr, is_empty, last?, map, none,
  ok, refl, some, sym, true, ℕ, ◌++◌, ◌==◌, ◌∙◌, ◌∷◌, ◌≡◌,
}
use mathlib.Core.Bool.{false≢true}
use mathlib.Core.Option.{some-ne-none}
use sphere_multithreading_cp.Shell.{Text}
use sphere_multithreading_cp.Table.{update}
use sphere_multithreading_cp.Chat.{
  Message, no_message, append, is_complete, Server, Received, failed, message_of, store_message,
  ends_line, recv_message, relay, process_client_event, client, process_event, process_events,
}
use sphere_multithreading_cp.Chat.Relay.{
  IsLine, parts_of, deliveries, last-append, store-twice, message_of-store,
  process_client_event-relay,
}

-- Parts behind which a line is not complete. `recv` gives no part that is empty.
unfoldable pub IsBegun : List Text → Type 0
IsBegun [] = false ≡ true
IsBegun (t ∷ []) = (ends_line t ≡ false) × (is_empty t ≡ false)
IsBegun (t ∷ u ∷ ts) = (ends_line t ≡ false) × IsBegun (u ∷ ts)

-- An event that brings such parts: `errno` was `EAGAIN` from an earlier call (`stale`), or the next call
-- of `recv` sets it.
abbrev pub cut_off : (stale : Bool) → List Text → List Received
cut_off true ts = parts_of true ts
cut_off false ts = parts_of false ts ++ failed true ∷ []

-- The parts of all events.
abbrev pub parts : List (Bool × List Text) → List Text
parts [] = []
parts ((stale, ts) ∷ es) = ts ++ parts es

last?-none : (t : Text) → last? t ≡ none → is_empty t ≡ true
last?-none [] h = refl
last?-none (x ∷ []) h = absurd (some-ne-none x h)
last?-none (x ∷ y ∷ t) h = absurd (false≢true (last?-none (y ∷ t) h))

not_ended :
    (t : Text)
    → ends_line t ≡ false
    → is_empty t ≡ false
    → (c : ℕ) × (last? t ≡ some c) × ((c == 10) ≡ false)
unfolding ends_line
not_ended t h k = elim (Option-cases (last? t)) [
  | inl e ↦ absurd (false≢true (sym k ∙ last?-none t e))
  | inr (c, e) ↦ (c, e, rw (ends_line, e) at h)
]

IsBegun-last :
    (ts : List Text)
    → IsBegun ts
    → (t : Text) × (last? ts ≡ some t) × (ends_line t ≡ false) × (is_empty t ≡ false)
unfolding IsBegun
IsBegun-last [] h = absurd (false≢true h)
IsBegun-last (t ∷ []) h = (t, refl, h.0, h.1)
IsBegun-last (t ∷ u ∷ ts) h = IsBegun-last (u ∷ ts) h.1

is_complete-begun :
    (bs ts : List Text) → IsBegun ts → is_complete (record { blocks = bs ++ ts }) ≡ some false
unfolding is_complete
is_complete-begun bs ts h =
    let (t, e, l, n) = IsBegun-last ts h in
    let (c, e', l') = not_ended t l n in rw (is_complete, last-append bs ts t e, e', l') refl

module _ (epoll_ctl : ℕ → Bool) (fd : ℕ) where
  recv_message-cut_off :
      (stale : Bool) (bs ts : List Text) (s : Server)
      → IsBegun ts
      → message_of fd s ≡ record { blocks = bs }
      → recv_message epoll_ctl fd (cut_off stale ts) s
        ≡ ok (true, store_message fd (record { blocks = bs ++ ts }) s)
  unfolding recv_message IsBegun append
  recv_message-cut_off stale bs [] s h e = absurd (false≢true h)
  recv_message-cut_off true bs (t ∷ []) s h e = rw (h.0, e) refl
  recv_message-cut_off false bs (t ∷ []) s h e = rw (h.0, e) refl
  recv_message-cut_off true bs (t ∷ u ∷ ts) s h e =
      rw
        (
          h.0,
          e,
          recv_message-cut_off true (bs ++ t ∷ []) (u ∷ ts) _ h.1
              (message_of-store fd (record { blocks = bs ++ t ∷ [] }) s),
          store-twice fd (record { blocks = bs ++ t ∷ [] })
              (record { blocks = (bs ++ t ∷ []) ++ u ∷ ts }) s,
          append_assoc bs (t ∷ []) (u ∷ ts),
        )
        refl
  recv_message-cut_off false bs (t ∷ u ∷ ts) s h e =
      rw
        (
          h.0,
          e,
          recv_message-cut_off false (bs ++ t ∷ []) (u ∷ ts) _ h.1
              (message_of-store fd (record { blocks = bs ++ t ∷ [] }) s),
          store-twice fd (record { blocks = bs ++ t ∷ [] })
              (record { blocks = (bs ++ t ∷ []) ++ u ∷ ts }) s,
          append_assoc bs (t ∷ []) (u ∷ ts),
        )
        refl

  process_client_event-cut_off :
      (stale : Bool) (ts : List Text) (s : Server)
      → IsBegun ts
      → process_client_event epoll_ctl (cut_off stale ts) false fd s
        ≡ ok (store_message fd (record { blocks = (message_of fd s).blocks ++ ts }) s)
  unfolding process_client_event relay
  process_client_event-cut_off stale ts s h =
      let bs = (message_of fd s).blocks in
      let m : Message = record { blocks = bs ++ ts } in
      rw
        (
          process_client_event,
          recv_message-cut_off stale bs ts s h refl,
          relay,
          message_of-store fd m s,
          is_complete-begun bs ts h,
          message_of-store fd m s,
        )
        (ap ok (store-twice fd m m s))

  -- A line that comes in over any number of events, part by part, behind what the client has already sent of
  -- it, goes to every client with the last of them, each with all its blocks in order, and the message of
  -- the sender is empty then. What `errno` holds from earlier calls does not matter. The events follow each
  -- other, with none of another client between them.
  pub process_events-relay :
      (es : List (Bool × List Text)) (again : Bool) (ts : List Text) (s : Server)
      → All (λ e. IsBegun e.1) es
      → IsLine ts
      → process_events epoll_ctl
          (map (λ e. client (cut_off e.0 e.1) false fd) es
            ++ client (parts_of again ts) false fd ∷ [])
          s
        ≡ ok (record s {
          messages = update s.messages fd (some no_message);
          sent =
              s.sent
              ++ deliveries
                  (record { blocks = (message_of fd s).blocks ++ (parts es ++ ts) })
                  s.slave_sockets;
        })
  unfolding process_events process_event
  process_events-relay [] again ts s h l =
      rw (process_client_event-relay epoll_ctl fd again ts s l) refl
  process_events-relay ((stale, us) ∷ es) again ts s (h, hs) l =
      let bs = (message_of fd s).blocks in
      let m : Message = record { blocks = bs ++ us } in
      rw
        (
          process_client_event-cut_off stale us s h,
          process_events-relay es again ts (store_message fd m s) hs l,
          message_of-store fd m s,
          append_assoc bs us (parts es ++ ts),
          append_assoc us (parts es) ts,
        )
        (ap ok (
          store-twice fd m no_message (record s {
            sent =
                s.sent
                ++ deliveries (record { blocks = bs ++ (us ++ (parts es ++ ts)) }) s.slave_sockets;
          })))
