-- ===== src/Chat/Client/Talk.antt =====
-- A line that one client types is printed by another.
use mathlib.Core.List.{flatten}
use mathlib.Core.Bool.{false≢true}
use sphere_multithreading_cp.Prelude.{
  ==_refl, All, Bool, Bool-cases, Distinct, List, [], ap, append-nil, arith, false, if◌then◌else◌,
  inl, inr, map, mem, ok, refl, true, ℕ, ◌++◌, ◌==◌, ◌∙◌, ◌∷◌, ◌≡◌,
}
use sphere_multithreading_cp.Shell.{Text}
use sphere_multithreading_cp.Chat.{Message, no_message, Server, message_of, client, process_events}
use sphere_multithreading_cp.Chat.Relay.{IsLine, parts_of, deliveries}
use sphere_multithreading_cp.Chat.Relay.Events.{IsBegun, cut_off, parts, process_events-relay}
use sphere_multithreading_cp.Chat.Client.{Client, round, start}
use sphere_multithreading_cp.Chat.Client.Lines.{
  round-type_line, start-print_line, typed, type_line, print_line,
}

-- The parts for one client.
unfoldable pub parts_for : ℕ → List (ℕ × Text) → List Text
parts_for fd [] = []
parts_for fd ((d, t) ∷ ps) = let rest = parts_for fd ps in if d == fd then t ∷ rest else rest

parts_for-append :
    (fd : ℕ) (ps qs : List (ℕ × Text))
    → parts_for fd (ps ++ qs) ≡ parts_for fd ps ++ parts_for fd qs
unfolding parts_for
parts_for-append fd [] qs = refl
parts_for-append fd ((d, t) ∷ ps) qs = grind (arith, parts_for-append fd ps qs)

parts_for-same : (fd : ℕ) (bs : List Text) → parts_for fd (map (λ b. (fd, b)) bs) ≡ bs
unfolding parts_for
parts_for-same fd [] = refl
parts_for-same fd (b ∷ bs) = rw (==_refl fd, parts_for-same fd bs) refl

parts_for-other :
    (fd d : ℕ) (bs : List Text) → (d == fd) ≡ false → parts_for fd (map (λ b. (d, b)) bs) ≡ []
unfolding parts_for
parts_for-other fd d [] h = refl
parts_for-other fd d (b ∷ bs) h = rw (h, parts_for-other fd d bs h) refl

deliveries-absent :
    (m : Message) (fd : ℕ) (cs : List ℕ) → mem fd cs ≡ false → parts_for fd (deliveries m cs) ≡ []
unfolding deliveries parts_for
deliveries-absent m fd [] h = refl
deliveries-absent m fd (c ∷ cs) h =
    rw
      (
        parts_for-append fd (map (λ b. (c, b)) m.blocks) (deliveries m cs),
        parts_for-other fd c m.blocks (ground arith),
        deliveries-absent m fd cs (ground arith),
      )
      refl

deliveries-once :
    (m : Message) (fd : ℕ) (cs : List ℕ)
    → Distinct cs
    → mem fd cs ≡ true
    → parts_for fd (deliveries m cs) ≡ m.blocks
unfolding deliveries
deliveries-once m fd [] d h = absurd (false≢true h)
deliveries-once m fd (c ∷ cs) d h = elim (Bool-cases (c == fd)) [
  | inl e ↦
      let same : c ≡ fd = ground arith in
      let rest : mem fd cs ≡ false = rw same at d.0 in
      rw
        (
          same,
          parts_for-append fd (map (λ b. (fd, b)) m.blocks) (deliveries m cs),
          parts_for-same fd m.blocks,
          deliveries-absent m fd cs rest,
        )
        (append-nil m.blocks)
  | inr e ↦
      rw
        (
          parts_for-append fd (map (λ b. (c, b)) m.blocks) (deliveries m cs),
          parts_for-other fd c m.blocks e,
        )
        (deliveries-once m fd cs d.1 (ground arith))
]

-- A line that `a` types comes out at `b`. The client reads it in the parts `ts`, sends these, and the
-- server tells every client; `b` prints it. The network keeps the bytes but may cut them otherwise: into
-- any number of events at the server, with the parts `parts es` and then `us`, and into any number of
-- rounds at `b`, with `parts fs` and then `vs`; what `errno` holds there does not matter. No part of `ts`
-- is a lone line break, nothing is left over from an earlier line, and nothing else comes meanwhile.
pub line-printed :
    (ts us vs : List Text) (es fs : List (Bool × List Text)) (again again_b : Bool) (a b : Client)
    (epoll_ctl : ℕ → Bool) (fd_a fd_b : ℕ) (s : Server)
    → IsLine ts
    → All (λ t. typed t ≡ true) ts
    → All (λ e. IsBegun e.1) es
    → IsLine us
    → All (λ e. IsBegun e.1) fs
    → IsLine vs
    → flatten (parts es ++ us) ≡ flatten ts
    → flatten (parts fs ++ vs) ≡ flatten (parts es ++ us)
    → a.outgoing.blocks ≡ []
    → (message_of fd_a s).blocks ≡ []
    → b.incoming.blocks ≡ []
    → Distinct s.slave_sockets
    → mem fd_b s.slave_sockets ≡ true
    → (a' b' : Client) × (s' : Server) × (round (type_line ts) a ≡ ok a')
      × (a'.sent ≡ a.sent ++ ts)
      × (process_events epoll_ctl
            (map (λ e. client (cut_off e.0 e.1) false fd_a) es
              ++ client (parts_of again us) false fd_a ∷ [])
            s
          ≡ ok s')
      × (parts_for fd_b s'.sent ≡ parts_for fd_b s.sent ++ (parts es ++ us))
      × (start (print_line fs again_b vs) b ≡ ok b')
      × (b'.output ≡ b.output ++ flatten ts)
line-printed ts us vs es fs again again_b a b epoll_ctl fd_a fd_b s h k hs hu ks hv eu ev ea el eb d
      m =
    let all : List Text = parts es ++ us in
    let m' : Message = record { blocks = (message_of fd_a s).blocks ++ all } in
    (
      record a { outgoing = no_message; sent = a.sent ++ ts },
      record b { incoming = no_message; output = b.output ++ flatten (parts fs ++ vs) },
      _,
      round-type_line ts a h k ea,
      refl,
      process_events-relay epoll_ctl fd_a es again us s hs hu,
      parts_for-append fd_b s.sent (deliveries m' s.slave_sockets)
          ∙ ap (λ l. parts_for fd_b s.sent ++ l)
              (deliveries-once m' fd_b s.slave_sockets d m ∙ ap (λ l. l ++ all) el),
      start-print_line fs again_b vs b ks hv eb,
      ap (λ l. b.output ++ l) (ev ∙ eu),
    )
