-- ===== src/Tests/Send.antt =====
-- A message between two users, sent once and then again.
use xyncra_server.Common.{
  ◌≡◌, refl, String, true, false, none, some, List, [], ◌∷◌, arith, inl, if◌then◌else◌, ◌==◌,
}
use xyncra_server.Fault.{ok}
use xyncra_server.Server.Model.{UserUpdate, Message, Conversation, Tables}
use xyncra_server.Server.Stores.UserUpdates.{create, get_latest_seq}
use xyncra_server.Server.Stores.Messages.{found, get_conversation, get_by_client_message_id}
use xyncra_server.Server.Stores.Transactions.{transaction}
use xyncra_server.Server.Stores.Fanout.Fanned.{IsLatest}
use xyncra_server.Server.Stores.SendMessage.{SendMessageResult, send_message_body, send_message}
use xyncra_server.Server.Stores.SendMessage.Sent.{Sent, send_message-Sent}
use xyncra_server.Server.Stores.SendMessage.Streams.{send_message-IsLatest}
use xyncra_server.Server.Handlers.Tasks.{Task, deliver, recipients}
use xyncra_server.Server.Handlers.SendMessage.{
  SendMessageParams, SendMessageResponse, SendEnv, new_message, handle_send_message,
}
use xyncra_server.Server.Handlers.Members.{conversation_members}
use xyncra_server.Server.Handlers.SendMessage.Reply.{Reply, handle_send_message_repeated}
use xyncra_server.Tests.Engine.{list_engine, list_engine-IsSql}

abbrev pub room_of_two : Conversation
room_of_two = record {
  id = "room";
  user_id1 = "ann";
  user_id2 = "bob";
  kind = "1-on-1";
  title = "";
  pinned = false;
  muted = false;
  avatar_url = "";
  description = "";
  last_processed_message_id = 4;
  created_at = 1;
  updated_at = 2;
  last_message_at = 2;
  last_read_message_id1 = 0;
  last_read_message_id2 = 0;
  agent_status = "idle";
  agent_id = "";
  checkpoint_id = "";
  agent_last_activity = 0;
  deleted_at = none;
}

abbrev before : Tables
before = record {
  conversations = room_of_two ∷ [];
  messages = [];
  user_updates = [];
  remote_callings = [];
}

abbrev env : SendEnv
env = record {
  sql = list_engine;
  sqls = λ n. list_engine;
  now = 7;
  message_id = "m5";
  new_id = λ n. if n == 0 then "u1" else "u2";
  marshal = λ m. some m.content;
  marshals = λ task. true;
  is_done = λ n. false;
  is_agent = none;
  device_id = "phone";
}

abbrev params : SendMessageParams
params = record {
  conversation_id = "room";
  client_message_id = "c9";
  content = "hi";
  kind = "";
  reply_to = 0;
}

abbrev sent_message : Message
sent_message = record {
  id = "m5";
  client_message_id = "c9";
  conversation_id = "room";
  message_id = 0;
  sender_id = "ann";
  content = "hi";
  kind = "text";
  reply_to = 0;
  status = "sent";
  summarized = false;
  created_at = 7;
  deleted_at = none;
}

abbrev message : Message
message = record sent_message { message_id = 5 }

abbrev update_for : String → String → UserUpdate
update_for id user_id = record {
  id = id;
  user_id = user_id;
  seq = 1;
  kind = "message";
  payload = "hi";
  created_at = 7;
}

abbrev result : SendMessageResult
result = record { message = message; updates = update_for "u1" "ann" ∷ update_for "u2" "bob" ∷ [] }

abbrev after : Tables
after = record {
  conversations =
      record room_of_two { last_processed_message_id = 5; last_message_at = 7; updated_at = 7 }
      ∷ [];
  messages = message ∷ [];
  user_updates = result.updates;
  remote_callings = [];
}

sends :
    send_message 7 env.new_id env.marshal env.is_done env.sqls sent_message
      ("ann" ∷ "bob" ∷ [])
      before
    ≡ ok (after, result)
unfolding send_message transaction create get_latest_seq get_conversation found send_message_body
sends = refl

send_message-Sent_example : Sent 7 sent_message ("ann" ∷ "bob" ∷ []) before after result
send_message-Sent_example =
    send_message-Sent 7 env.new_id env.marshal env.is_done env.sqls sent_message
      ("ann" ∷ "bob" ∷ []) before after result (λ n. list_engine-IsSql) sends

send_message-IsLatest_example : IsLatest "bob" after.user_updates 1
send_message-IsLatest_example =
    send_message-IsLatest 7 env.new_id env.marshal env.is_done env.sqls sent_message
      ("ann" ∷ "bob" ∷ []) before after result (λ n. list_engine-IsSql) sends (refl, (refl, tt))
      "bob" 0 (record { above = λ r m h. absurd m; reached = inl refl }) (omega arith)

abbrev reply : SendMessageResponse
reply = record { message = message; duplicate = false }

abbrev tasks : List Task
tasks = deliver (recipients "message" result.updates) ∷ []

abbrev no_tasks : List Task
no_tasks = []

handle_send_message_repeated_example : (after ≡ after) × (no_tasks ≡ []) × (true ≡ true)
unfolding handle_send_message send_message send_message_body transaction create get_latest_seq
    get_conversation found new_message conversation_members get_by_client_message_id
handle_send_message_repeated_example =
    handle_send_message_repeated env list_engine-IsSql (λ n. list_engine-IsSql) "ann" params after
      after no_tasks (record { message = message; duplicate = true }) message (inl refl) refl refl
      refl
