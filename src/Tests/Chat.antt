-- ===== src/Tests/Chat.antt =====
-- p2: a message of three bytes and two clients.
use sphere_multithreading_cp.Prelude.{
  All, Bool, List, [], false, none, ok, refl, some, true, ◌++◌, ◌∷◌, ◌≡◌,
}
use sphere_multithreading_cp.Shell.{Text}
use sphere_multithreading_cp.Table.{update}
use sphere_multithreading_cp.Chat.{
  Event, client, process_events, no_message, Server, bytes, message_of, ends_line,
}
use sphere_multithreading_cp.Chat.Blocks.{no_nul}
use sphere_multithreading_cp.Chat.Relay.{IsLine, deliveries}
use sphere_multithreading_cp.Chat.Relay.Events.{IsBegun, parts, process_events-relay}
use sphere_multithreading_cp.Chat.Client.{Client, round, start}
use sphere_multithreading_cp.Chat.Client.Lines.{typed, type_line, print_line}
use sphere_multithreading_cp.Chat.Client.Talk.{parts_for, line-printed}
use mathlib.Core.List.{flatten}

abbrev hi : Text
hi = 104 ∷ 105 ∷ 10 ∷ []

hi-no_nul : no_nul hi ≡ true
unfolding no_nul
hi-no_nul = refl

abbrev server : Server
server = record { messages = λ _. none; slave_sockets = 4 ∷ 5 ∷ []; sent = [] }

-- The first letter comes alone, while `errno` is still `EAGAIN`.
abbrev cut : List (Bool × List Text)
cut = (true, (104 ∷ []) ∷ []) ∷ []

cut-IsBegun : All (λ e. IsBegun e.1) cut
unfolding IsBegun ends_line
cut-IsBegun = ((refl, refl), tt)

abbrev end : List Text
end = (105 ∷ []) ∷ (10 ∷ []) ∷ []

end-IsLine : IsLine end
unfolding IsLine ends_line
end-IsLine = (refl, refl)

abbrev events : List Event
events =
    client (bytes (104 ∷ []) true ∷ []) false 4
    ∷ client (bytes (105 ∷ []) false ∷ bytes (10 ∷ []) true ∷ []) false 4
    ∷ []

process_events-relay_example :
    process_events (λ _. true) events server
    ≡ ok (record server {
      messages = update server.messages 4 (some no_message);
      sent =
          server.sent
          ++ deliveries
              (record { blocks = (message_of 4 server).blocks ++ (parts cut ++ end) })
              (4 ∷ 5 ∷ []);
    })
process_events-relay_example =
    process_events-relay (λ _. true) 4 cut true end server cut-IsBegun end-IsLine

hi-typed : typed hi ≡ true
unfolding typed no_nul
hi-typed = refl

hi-IsLine : IsLine (hi ∷ [])
unfolding IsLine ends_line
hi-IsLine = refl

abbrev new_client : Client
new_client = record { outgoing = no_message; incoming = no_message; sent = []; output = [] }

nothing_left : (message_of 4 server).blocks ≡ []
unfolding message_of
nothing_left = refl

same_bytes : flatten (parts cut ++ end) ≡ flatten (hi ∷ [])
unfolding flatten
same_bytes = refl

line-printed_example :
    (a' b' : Client) × (s' : Server) × (round (type_line (hi ∷ [])) new_client ≡ ok a')
    × (a'.sent ≡ hi ∷ [])
    × (process_events (λ _. true) events server ≡ ok s')
    × (parts_for 5 s'.sent ≡ parts_for 5 [] ++ (parts cut ++ end))
    × (start (print_line cut false end) new_client ≡ ok b')
    × (b'.output ≡ flatten (hi ∷ []))
line-printed_example =
    line-printed (hi ∷ []) end end cut cut true false new_client new_client (λ _. true) 4 5 server
      hi-IsLine (hi-typed, tt) cut-IsBegun end-IsLine cut-IsBegun end-IsLine same_bytes refl refl
      nothing_left refl (refl, (refl, tt)) refl
