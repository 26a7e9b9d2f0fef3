-- ===== src/Posix/Worker/HandOver/Handed.antt =====
-- No connection is lost on the way from the server to a worker, and none comes twice.
use mathlib.Core.List.{map-append}
use sphere_multithreading_cp.Prelude.{
  ==_iff, ==_refl, Bool, Bool-cases, List, [], ap, append_assoc, inl, inr, map, refl, subst, sym, ℕ,
  ℤ, ◌++◌, ◌==◌, ◌∙◌, ◌∷◌, ◌≡◌,
}
use sphere_multithreading_cp.Kernel.{Packet, Trace}
use sphere_multithreading_cp.Kernel.Laws.{exec-grows}
use sphere_multithreading_cp.Posix.Server.{Server, process_events}
use sphere_multithreading_cp.Posix.Server.Passes.{payload}
use sphere_multithreading_cp.Posix.Worker.{Worker, Buffer, Scan}
use sphere_multithreading_cp.Posix.Worker.HandOver.{
  sent_by, sent_to, System, Step, accepts, takes, serves, Reach, here, next, fresh,
}
use sphere_multithreading_cp.Posix.Worker.HandOver.Welcomes.{
  welcomed, Same, process_client_event-Same, Took, take_passed-Took,
}

abbrev pub payloads : List Packet → List ℕ
payloads [] = []
payloads (p ∷ ps) = payload p.msg_control ++ payloads ps

sent_to-append : (w : ℕ) (xs ys : Trace) → sent_to w (xs ++ ys) ≡ sent_to w xs ++ sent_to w ys
sent_to-append w [] ys = refl
sent_to-append w (x ∷ xs) ys =
    ap (λ l. sent_by w x ++ l) (sent_to-append w xs ys)
    ∙ sym (append_assoc (sent_by w x) (sent_to w xs) (sent_to w ys))

module _ (hash_int : ℤ → ℕ) (sscanf : Buffer → Scan) (epoll_ctl : ℕ → Bool) (writer : ℕ → ℕ)
    (name : ℕ → ℕ → ℕ) (server : Server) where
  -- What a worker has read comes first in what was sent to it, and whoever was in that is welcomed.
  record Handed (s : System) (i : ℕ) : Type 0 where
    unread : List Packet
    in_order : sent_to (writer i) s.calls ≡ unread ++ s.read i
    welcomes : welcomed (s.worker i).sent ≡ map (name i) (payloads (s.read i))

  Step-Handed :
      {s t : System}
      → Step hash_int sscanf epoll_ctl writer name server s t
      → ((i : ℕ) → Handed s i)
      → (i : ℕ) → Handed t i
  Step-Handed {s} (accepts os events) h i =
      let (later, e) = exec-grows os (process_events events server) s.calls in
      record {
        unread = sent_to (writer i) later ++ (h i).unread;
        in_order =
            ap (sent_to (writer i)) e
            ∙ sent_to-append (writer i) later s.calls
            ∙ ap (λ l. sent_to (writer i) later ++ l) (h i).in_order
            ∙ sym (append_assoc (sent_to (writer i) later) (h i).unread (s.read i));
        welcomes = (h i).welcomes;
      }
  Step-Handed {s} (takes j p unread {w} e k) h i = elim (Bool-cases (i == j)) [
    | inr ne ↦ record {
      unread = (h i).unread;
      in_order = rw ne (h i).in_order;
      welcomes = rw ne (h i).welcomes;
    }
    | inl same ↦ subst (Handed _) (sym ((==_iff i j).0 same)) (record {
      unread = unread;
      in_order = rw (==_refl j) e;
      welcomes =
          rw (==_refl j, map-append)
            (subst (Took (map (name j) (payload p.msg_control)) (s.worker j)) k
                (take_passed-Took epoll_ctl (name j) p (s.worker j))
              ∙ ap (λ l. map (name j) (payload p.msg_control) ++ l) (h j).welcomes);
    })
  ]
  Step-Handed {s} (serves j t m now later r hup fd {w} k) h i = elim (Bool-cases (i == j)) [
    | inr ne ↦ record {
      unread = (h i).unread;
      in_order = (h i).in_order;
      welcomes = rw ne (h i).welcomes;
    }
    | inl same ↦ subst (Handed _) (sym ((==_iff i j).0 same)) (record {
      unread = (h j).unread;
      in_order = (h j).in_order;
      welcomes =
          let v : Worker = record (s.worker j) { hash_table = t; semids = m } in
          rw (==_refl j) (
            subst (Same v) k
              (process_client_event-Same hash_int sscanf epoll_ctl now later r hup fd v)
            ∙ (h j).welcomes);
    })
  ]

  Reach-Handed :
      (w : ℕ → Worker) {s : System}
      → Reach hash_int sscanf epoll_ctl writer name server (fresh w) s
      → (i : ℕ) → Handed s i
  Reach-Handed w here i = record { unread = []; in_order = refl; welcomes = refl }
  Reach-Handed w (next r st) i = Step-Handed st (Reach-Handed w r) i

  -- However the server and its workers take turns: what a worker has read is what was sent to it but
  -- for the last messages, and the connections in it are those that it has welcomed, in order and each
  -- once. The messages of a socket come in order; what happens to the table between two turns does not
  -- matter.
  pub welcomed-sent_to :
      (w : ℕ → Worker) {s : System} (i : ℕ)
      → Reach hash_int sscanf epoll_ctl writer name server (fresh w) s
      → (unread : List Packet) × (sent_to (writer i) s.calls ≡ unread ++ s.read i)
        × (welcomed (s.worker i).sent ≡ map (name i) (payloads (s.read i)))
  welcomed-sent_to w {s} i r = let h = Reach-Handed w r i in (h.unread, h.in_order, h.welcomes)
