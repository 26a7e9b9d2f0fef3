-- ===== src/Chat/Conversation/Tests.antt =====
-- p2: of two clients one says "hi".
use sphere_multithreading_cp.Prelude.{List, [], false, none, ok, refl, some, true, ◌++◌, ◌∷◌, ◌≡◌}
use sphere_multithreading_cp.Shell.{Text}
use sphere_multithreading_cp.Table.{update}
use sphere_multithreading_cp.Chat.{
  Server, bytes, client, process_event, process_client_event, recv_message, relay, is_complete,
  ends_line, message_of, append, clear, send_all, no_message,
}
use sphere_multithreading_cp.Chat.Conversation.{said}
use sphere_multithreading_cp.Chat.Conversation.Agreement.{stay, next, same_conversation}

abbrev hi : Text
hi = 104 ∷ 105 ∷ 10 ∷ []

abbrev before : Server
before = record { messages = λ _. none; slave_sockets = 4 ∷ 5 ∷ []; sent = [] }

abbrev after : Server
after = record {
  messages =
      update (update before.messages 4 (some (record { blocks = hi ∷ [] }))) 4 (some no_message);
  slave_sockets = 4 ∷ 5 ∷ [];
  sent = (4, hi) ∷ (5, hi) ∷ [];
}

spoken : process_event (λ fd. true) (client (bytes hi false ∷ []) false 4) before ≡ ok after
unfolding process_event process_client_event recv_message relay is_complete ends_line message_of
    append clear send_all
spoken = refl

same_conversation_example :
    (new : List Text) × (said 4 after.sent ≡ said 4 before.sent ++ new)
    × (said 5 after.sent ≡ said 5 before.sent ++ new)
same_conversation_example =
    same_conversation (λ fd. true) 4 5 (refl, (refl, tt))
      (next (client (bytes hi false ∷ []) false 4) stay tt refl refl spoken)
