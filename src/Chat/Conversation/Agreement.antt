-- ===== src/Chat/Conversation/Agreement.antt =====
-- All clients of the chat of p2 see the same conversation, whatever happens between.
use sphere_multithreading_cp.Prelude.{Bool, Distinct, List, mem, ok, subst, true, ℕ, ◌++◌, ◌≡◌}
use sphere_multithreading_cp.Shell.{Text}
use sphere_multithreading_cp.Chat.{Server, Event, process_event}
use sphere_multithreading_cp.Chat.Apart.{Apart, process_event-Apart}
use sphere_multithreading_cp.Chat.Conversation.{
  said, IsNew, Both, Same-refl, Same-trans, process_event-Both,
}

module _ (epoll_ctl : ℕ → Bool) where
  -- Events while the clients `a` and `b` are connected.
  pub data Talk (a b : ℕ) (s : Server) : Server → Type 0 where
    stay : Talk a b s s
    next :
        {t u : Server} (e : Event)
        → Talk a b s t
        → IsNew t.slave_sockets e
        → mem a t.slave_sockets ≡ true
        → mem b t.slave_sockets ≡ true
        → process_event epoll_ctl e t ≡ ok u
        → Talk a b s u

  Talk-Distinct :
      {a b : ℕ} {s u : Server} → Distinct s.slave_sockets → Talk a b s u → Distinct u.slave_sockets
  Talk-Distinct d stay = d
  Talk-Distinct d (next {t} e talk new ha hb k) =
      subst Apart k (process_event-Apart epoll_ctl e t (Talk-Distinct d talk))

  -- Two clients that are connected are sent the same texts in the same order, whoever joins, leaves
  -- or talks between, if `accept` gives no descriptor that is in use.
  pub same_conversation :
      (a b : ℕ) {s u : Server}
      → Distinct s.slave_sockets
      → Talk a b s u
      → (new : List Text) × (said a u.sent ≡ said a s.sent ++ new)
        × (said b u.sent ≡ said b s.sent ++ new)
  same_conversation a b {s} d stay = Same-refl a b s.sent
  same_conversation a b {s} {u} d (next {t} e talk new ha hb k) =
      Same-trans a b s.sent t.sent u.sent (same_conversation a b d talk) (
        subst (Both a b t.sent) k
          (process_event-Both a b epoll_ctl e t (Talk-Distinct d talk) ha hb new))
