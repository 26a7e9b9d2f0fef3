-- ===== src/Chat/Conversation.antt =====
-- All clients of the chat of p2 see the same conversation.
pub mod Agreement
mod Tests
use sphere_multithreading_cp.Prelude.{
  ==_refl, Bool, Bool-cases, Distinct, List, Option-cases, Result, Result-cases, [], ap, append-nil,
  append_assoc, arith, err, false, if◌then◌else◌, inl, inr, map, mem, ok, refl, subst, sym, true, ℕ,
  ◌++◌, ◌==◌, ◌>>=◌, ◌∙◌, ◌∷◌, ◌≡◌,
}
use sphere_multithreading_cp.Shell.{Text}
use sphere_multithreading_cp.Table.{update}
use sphere_multithreading_cp.Chat.{
  Message, no_message, append, clear, is_complete, Server, Halt, Received, bytes, closed, failed,
  message_of, store_message, send_message, ends_line, recv_message, send_all, relay,
  disconnect_client, process_client_event, process_master_event, Event, master, client,
  process_event, welcome,
}
use sphere_multithreading_cp.Chat.Relay.{deliveries, send_all-deliveries}

-- What was sent to one client, in order.
abbrev pub said : ℕ → List (ℕ × Text) → List Text
said a [] = []
said a ((c, t) ∷ l) = if c == a then t ∷ said a l else said a l

said-append : (a : ℕ) (k l : List (ℕ × Text)) → said a (k ++ l) ≡ said a k ++ said a l
said-append a [] l = refl
said-append a ((c, t) ∷ k) l = ground (arith, said-append a k l)

said_all : (a : ℕ) (bs : List Text) → said a (map (λ b. (a, b)) bs) ≡ bs
said_all a [] = refl
said_all a (b ∷ bs) = rw (==_refl a) (ap (◌∷◌ b) (said_all a bs))

said_none : (a c : ℕ) (bs : List Text) → (c == a) ≡ false → said a (map (λ b. (c, b)) bs) ≡ []
said_none a c [] h = refl
said_none a c (b ∷ bs) h = rw h (said_none a c bs h)

deliveries_out :
    (a : ℕ) (m : Message) (cs : List ℕ) → mem a cs ≡ false → said a (deliveries m cs) ≡ []
unfolding deliveries
deliveries_out a m [] h = refl
deliveries_out a m (c ∷ cs) h =
    said-append a (map (λ b. (c, b)) m.blocks) (deliveries m cs)
    ∙ rw (said_none a c m.blocks (ground arith)) (deliveries_out a m cs (ground arith))

-- A client that is connected gets the message once.
deliveries_in :
    (a : ℕ) (m : Message) (cs : List ℕ)
    → Distinct cs
    → mem a cs ≡ true
    → said a (deliveries m cs) ≡ m.blocks
unfolding deliveries
deliveries_in a m [] d h = cc
deliveries_in a m (c ∷ cs) d h =
    said-append a (map (λ b. (c, b)) m.blocks) (deliveries m cs) ∙ elim (Bool-cases (c == a)) [
      | inl e ↦
          let same : c ≡ a = ground arith in
          rw (same, said_all a m.blocks, deliveries_out a m cs (rw (← same) d.0))
            (append-nil m.blocks)
      | inr e ↦ rw (said_none a c m.blocks e) (deliveries_in a m cs d.1 (ground arith))
    ]

-- Nothing is said by what ends in this way; and if the handler goes on, nobody has left.
abbrev Quiet : Server → Result Halt (Bool × Server) → Type 0
Quiet s (ok (true, s')) = (s'.sent ≡ s.sent) × (s'.slave_sockets ≡ s.slave_sockets)
Quiet s (ok (false, s')) = s'.sent ≡ s.sent
Quiet s (err e) = Unit

disconnect_client-sent :
    (epoll_ctl : ℕ → Bool) (fd : ℕ) (s : Server)
    → Quiet s (disconnect_client epoll_ctl fd s >>= λ s'. ok (false, s'))
unfolding disconnect_client
disconnect_client-sent epoll_ctl fd s = elim (Bool-cases (epoll_ctl fd)) [
  | inl e ↦ rw e refl
  | inr e ↦ rw e tt
]

recv_message-Quiet :
    (epoll_ctl : ℕ → Bool) (fd : ℕ) (rs : List Received) (s : Server)
    → Quiet s (recv_message epoll_ctl fd rs s)
unfolding recv_message
recv_message-Quiet epoll_ctl fd [] s = tt
recv_message-Quiet epoll_ctl fd (bytes t again ∷ rs) s = elim (Bool-cases (ends_line t)) [
  | inl e ↦ rw e (refl, refl)
  | inr e ↦ rw e (elim (Bool-cases again) [
    | inl x ↦ rw x (refl, refl)
    | inr x ↦
        rw x (recv_message-Quiet epoll_ctl fd rs (store_message fd (append t (message_of fd s)) s))
  ])
]
recv_message-Quiet epoll_ctl fd (closed ∷ rs) s = disconnect_client-sent epoll_ctl fd s
recv_message-Quiet epoll_ctl fd (failed again ∷ rs) s = elim (Bool-cases again) [
  | inl x ↦ rw x (refl, refl)
  | inr x ↦ rw x (recv_message-Quiet epoll_ctl fd rs s)
]

welcome_other : (a c : ℕ) → (c == a) ≡ false → said a ((c, welcome) ∷ []) ≡ []
welcome_other a c h = rw h refl

-- `accept` gives no descriptor that is in use.
abbrev pub IsNew : List ℕ → Event → Type 0
IsNew clients (master sockets) = (fd : ℕ) → mem fd clients ≡ true → mem fd sockets ≡ false
IsNew clients (client rs hup fd) = Unit

-- The two clients are sent the same, behind what they were sent before.
module _ (a b : ℕ) where
  abbrev pub Same : List (ℕ × Text) → List (ℕ × Text) → Type 0
  Same before after =
      (new : List Text) × (said a after ≡ said a before ++ new)
      × (said b after ≡ said b before ++ new)

  abbrev pub Both : List (ℕ × Text) → Result Halt Server → Type 0
  Both before (ok s') = Same before s'.sent
  Both before (err e) = Unit

  pub Same-refl : (l : List (ℕ × Text)) → Same l l
  Same-refl l = ([], sym (append-nil (said a l)), sym (append-nil (said b l)))

  pub Same-trans : (k l m : List (ℕ × Text)) → Same k l → Same l m → Same k m
  Same-trans k l m (x, p, q) (y, p', q') = (
    x ++ y,
    p' ∙ ap (λ r. r ++ y) p ∙ append_assoc (said a k) x y,
    q' ∙ ap (λ r. r ++ y) q ∙ append_assoc (said b k) x y,
  )

  Both-trans : (k l : List (ℕ × Text)) (r : Result Halt Server) → Same k l → Both l r → Both k r
  Both-trans k l (ok s) h h' = Same-trans k l s.sent h h'
  Both-trans k l (err e) h h' = tt

  relay-Both :
      (fd : ℕ) (s : Server)
      → Distinct s.slave_sockets
      → mem a s.slave_sockets ≡ true
      → mem b s.slave_sockets ≡ true
      → Both s.sent (relay fd s)
  unfolding relay
  relay-Both fd s d ha hb = elim (Option-cases (is_complete (message_of fd s))) [
    | inl e ↦ rw (relay, e) tt
    | inr (true, e) ↦
        rw (relay, e)
          (
            (message_of fd s).blocks,
            ap (λ v. said a v.sent) (send_all-deliveries (message_of fd s) s.slave_sockets s)
                ∙ said-append a s.sent (deliveries (message_of fd s) s.slave_sockets)
                ∙ ap (λ l. said a s.sent ++ l)
                    (deliveries_in a (message_of fd s) s.slave_sockets d ha),
            ap (λ v. said b v.sent) (send_all-deliveries (message_of fd s) s.slave_sockets s)
                ∙ said-append b s.sent (deliveries (message_of fd s) s.slave_sockets)
                ∙ ap (λ l. said b s.sent ++ l)
                    (deliveries_in b (message_of fd s) s.slave_sockets d hb),
          )
    | inr (false, e) ↦ rw (relay, e) (Same-refl s.sent)
  ]

  hang_up-Both :
      (epoll_ctl : ℕ → Bool) (hup : Bool) (fd : ℕ) (before : List (ℕ × Text))
      (r : Result Halt Server)
      → Both before r
      → Both before (r >>= λ s'. if hup then disconnect_client epoll_ctl fd s' else ok s')
  unfolding disconnect_client
  hang_up-Both epoll_ctl hup fd before (err e) h = tt
  hang_up-Both epoll_ctl false fd before (ok v) h = h
  hang_up-Both epoll_ctl true fd before (ok v) h = elim (Bool-cases (epoll_ctl fd)) [
    | inl e ↦ rw e h
    | inr e ↦ rw e tt
  ]

  process_client_event-Both :
      (epoll_ctl : ℕ → Bool) (rs : List Received) (hup : Bool) (fd : ℕ) (s : Server)
      → Distinct s.slave_sockets
      → mem a s.slave_sockets ≡ true
      → mem b s.slave_sockets ≡ true
      → Both s.sent (process_client_event epoll_ctl rs hup fd s)
  unfolding process_client_event
  process_client_event-Both epoll_ctl rs hup fd s d ha hb =
      let q = recv_message-Quiet epoll_ctl fd rs s in
      elim (Result-cases (recv_message epoll_ctl fd rs s)) [
        | inl (e, x) ↦ rw x tt
        | inr ((false, v), x) ↦
            let same : v.sent ≡ s.sent = subst (Quiet s) x q in
            rw x (
              [],
              ap (said a) same ∙ sym (append-nil (said a s.sent)),
              ap (said b) same ∙ sym (append-nil (said b s.sent)),
            )
        | inr ((true, v), x) ↦
            let (same, all) = subst (Quiet s) x q in
            rw x (
              hang_up-Both epoll_ctl hup fd s.sent (relay fd v) (
                subst (λ l. Both l (relay fd v)) same
                  (relay-Both fd v (subst Distinct (sym all) d) (ap (mem a) all ∙ ha)
                    (ap (mem b) all ∙ hb))))
      ]

  process_master_event-Both :
      (epoll_ctl : ℕ → Bool) (sockets : List ℕ) (s : Server)
      → mem a sockets ≡ false
      → mem b sockets ≡ false
      → Both s.sent (process_master_event epoll_ctl sockets s)
  unfolding process_master_event
  process_master_event-Both epoll_ctl [] s ha hb = Same-refl s.sent
  process_master_event-Both epoll_ctl (c ∷ rest) s ha hb = elim (Bool-cases (epoll_ctl c)) [
    | inr e ↦ rw e tt
    | inl e ↦ rw e (
        Both-trans s.sent (s.sent ++ (c, welcome) ∷ []) _
          (
            [],
            said-append a s.sent ((c, welcome) ∷ [])
                ∙ ap (λ l. said a s.sent ++ l) (welcome_other a c (ground arith)),
            said-append b s.sent ((c, welcome) ∷ [])
                ∙ ap (λ l. said b s.sent ++ l) (welcome_other b c (ground arith)),
          )
          (process_master_event-Both epoll_ctl rest _ (ground arith) (ground arith)))
  ]

  pub process_event-Both :
      (epoll_ctl : ℕ → Bool) (e : Event) (s : Server)
      → Distinct s.slave_sockets
      → mem a s.slave_sockets ≡ true
      → mem b s.slave_sockets ≡ true
      → IsNew s.slave_sockets e
      → Both s.sent (process_event epoll_ctl e s)
  unfolding process_event
  process_event-Both epoll_ctl (master sockets) s d ha hb new =
      process_master_event-Both epoll_ctl sockets s (new a ha) (new b hb)
  process_event-Both epoll_ctl (client rs hup fd) s d ha hb new =
      process_client_event-Both epoll_ctl rs hup fd s d ha hb
