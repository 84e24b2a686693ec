-- ===== src/Tests/Deletion.antt =====
-- A conversation with two messages, one of them deleted before, is deleted and restored, and a
-- message of it deleted alone.
use xyncra_server.Common.{
  ℕ, refl, String, Option, none, some, [], ◌∷◌, false, true, if◌then◌else◌, ◌==◌,
}
use xyncra_server.Server.Model.{Message, Tables}
use xyncra_server.Server.Stores.Transactions.{transaction}
use xyncra_server.Server.Stores.Messages.{found, get_conversation}
use xyncra_server.Server.Handlers.Members.{conversation_members}
use xyncra_server.Server.Handlers.Cascade.{delete_body, tell_members}
use xyncra_server.Server.Handlers.DeleteConversation.{
  DeleteEnv, DeleteConversationResponse, handle_delete_conversation,
}
use xyncra_server.Server.Handlers.DeleteConversation.Emptied.{
  Emptied, handle_delete_conversation-Emptied,
}
use xyncra_server.Server.Handlers.DeleteMessage.{
  DeleteMessageEnv, get_message, delete, handle_delete_message,
}
use xyncra_server.Server.Handlers.DeleteMessage.Gone.{Gone, handle_delete_message-Gone}
use xyncra_server.Tests.Engine.{list_engine, list_engine-IsSql}
use xyncra_server.Tests.Send.{room_of_two}

abbrev message : String → ℕ → Option ℕ → Message
message id message_id deleted_at = record {
  id = id;
  client_message_id = id;
  conversation_id = "room";
  message_id = message_id;
  sender_id = "ann";
  content = "hi";
  kind = "text";
  reply_to = 0;
  status = "sent";
  summarized = false;
  created_at = message_id;
  deleted_at = deleted_at;
}

abbrev before : Tables
before = record {
  conversations = room_of_two ∷ [];
  messages = message "m1" 3 none ∷ message "m2" 4 (some 5) ∷ [];
  user_updates = [];
  remote_callings = [];
}

abbrev between : Tables
between = record before {
  conversations = record room_of_two { deleted_at = some 9 } ∷ [];
  messages = message "m1" 3 (some 9) ∷ message "m2" 4 (some 5) ∷ [];
}

abbrev after : Tables
after = record before {
  conversations =
      record room_of_two { last_processed_message_id = 4; last_message_at = 4; updated_at = 12 }
      ∷ [];
}

abbrev one : ℕ
one = 1

abbrev env : DeleteEnv
env = record {
  sql = list_engine;
  sqls = λ n. list_engine;
  is_done = λ n. false;
  now = 9;
  new_id = λ n. if n == 0 then "u1" else "u2";
  payload = λ id. id;
  queues = λ to. true;
}

abbrev answer : DeleteConversationResponse
answer = record { status = "ok"; deleted_message_count = 1 }

handle_delete_conversation-Emptied_example :
    Emptied env "ann" "room" before (handle_delete_conversation env "ann" (some "room") before) 1
unfolding handle_delete_conversation get_conversation found conversation_members transaction
    delete_body tell_members
handle_delete_conversation-Emptied_example =
    handle_delete_conversation-Emptied env list_engine-IsSql (λ n. list_engine-IsSql) "ann" "room"
      before answer refl

abbrev message_env : DeleteMessageEnv
message_env = record {
  sql = list_engine;
  deleted_at = 9;
  now = 10;
  new_id = λ n. if n == 0 then "u1" else "u2";
  payload = λ m. m.id;
  queues = λ to. true;
}

handle_delete_message-Gone_example :
    Gone message_env "ann" "m1" before (handle_delete_message message_env "ann" (some "m1") before)
unfolding handle_delete_message get_message delete get_conversation found conversation_members
    tell_members
handle_delete_message-Gone_example =
    handle_delete_message-Gone message_env list_engine-IsSql "ann" "m1" before refl
