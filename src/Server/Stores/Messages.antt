-- ===== src/Server/Stores/Messages.antt =====
-- internal/store/message.go and internal/store/conversation.go: the queries of the send handler.
use xyncra_server.Common.{String, ◌&&◌, ◌||◌, Bool, not, Option, none, some, is_some, str_eq}
use xyncra_server.Fault.{Fault, not_found, Result, ok, err, ◌>>=◌}
use xyncra_server.Sql.{Sql}
use xyncra_server.Server.Model.{Message, Conversation, Tables}

-- GORM's soft delete: a query sees the rows without `deleted_at`.
abbrev pub is_conversation : String → Conversation → Bool
is_conversation id c = not (is_some c.deleted_at) && str_eq c.id id

-- The primary key, and the unique index on (client_message_id, sender_id).
abbrev pub clashes : Message → Message → Bool
clashes new old =
    str_eq new.id old.id
    || (str_eq new.client_message_id old.client_message_id && str_eq new.sender_id old.sender_id)

unfoldable pub found : {Row : Type 0} → Option Row → Result Fault Row
found none = err not_found
found (some r) = ok r

abbrev pub is_client_message : String → String → Message → Bool
is_client_message client_message_id sender_id m =
    not (is_some m.deleted_at)
    && (str_eq m.client_message_id client_message_id && str_eq m.sender_id sender_id)

module _ (sql : Sql) where
  unfoldable pub get_conversation : String → Tables → Result Fault Conversation
  unfolding found
  get_conversation id db = do
    conv ← sql.first Conversation (is_conversation id) db.conversations
    found conv

  unfoldable pub get_by_client_message_id : String → String → Tables → Result Fault Message
  unfolding found
  get_by_client_message_id client_message_id sender_id db = do
    msg ← sql.first Message (is_client_message client_message_id sender_id) db.messages
    found msg
