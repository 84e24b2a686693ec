-- ===== src/Tests/Mark.antt =====
-- A user who has read up to the third of four messages marks all of them as read.
use xyncra_server.Common.{true, [], ◌∷◌}
use xyncra_server.Server.Model.{Conversation, UserUpdate, Tables}
use xyncra_server.Server.Handlers.MarkAsRead.{MarkAsReadParams, MarkAsReadResponse, MarkEnv}
use xyncra_server.Tests.Engine.{list_engine}
use xyncra_server.Tests.Send.{room_of_two}

abbrev unread_room : Conversation
unread_room = record room_of_two { last_read_message_id1 = 3 }

abbrev before : Tables
before = record {
  conversations = unread_room ∷ [];
  messages = [];
  user_updates = [];
  remote_callings = [];
}

abbrev env : MarkEnv
env = record { sql = list_engine; now = 9; update_id = "u3"; payload = λ id n. id; queues = true }

abbrev params : MarkAsReadParams
params = record { conversation_id = "room"; message_id = 0 }

abbrev update : UserUpdate
update = record {
  id = "u3";
  user_id = "ann";
  seq = 1;
  kind = "mark_read";
  payload = "room";
  created_at = 9;
}

abbrev after : Tables
after = record {
  conversations = record unread_room { last_read_message_id1 = 4; updated_at = 9 } ∷ [];
  messages = [];
  user_updates = update ∷ [];
  remote_callings = [];
}

abbrev answer : MarkAsReadResponse
answer = record { unread_count = 0; last_read_message_id = 4 }
