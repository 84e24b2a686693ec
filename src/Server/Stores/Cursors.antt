-- ===== src/Server/Stores/Cursors.antt =====
-- internal/store/conversation.go: `UpdateLastRead`, and internal/store/message.go: `CountUnread`.
pub mod Advanced
use xyncra_server.Common.{ℕ, String, Bool, ◌&&◌, not, is_some, str_eq, ltb, ◌==◌, if◌then◌else◌}
use xyncra_server.Fault.{Fault, not_found, Result, ok, err, ◌>>=◌}
use xyncra_server.Sql.{Sql}
use xyncra_server.Server.Model.{Message, Conversation, Tables}
use xyncra_server.Server.Stores.Messages.{is_conversation, get_conversation}

-- The two columns of read cursors; `none_of` stands for a user who is no member.
pub data Column : Type 0 where
  last_read_message_id1 last_read_message_id2 none_of : Column

abbrev pub column : Conversation → String → Column
column conv user_id =
    if str_eq conv.user_id1 user_id
    then last_read_message_id1
    else if str_eq conv.user_id2 user_id
    then last_read_message_id2
    else none_of

-- `CASE WHEN cursor > id THEN cursor ELSE id END`.
abbrev pub forward : ℕ → ℕ → ℕ
forward cursor message_id = if ltb message_id cursor then cursor else message_id

abbrev pub advanced : ℕ → Column → ℕ → Conversation → Conversation
advanced now last_read_message_id1 message_id c = record c {
  last_read_message_id1 = forward c.last_read_message_id1 message_id;
  updated_at = now;
}
advanced now last_read_message_id2 message_id c = record c {
  last_read_message_id2 = forward c.last_read_message_id2 message_id;
  updated_at = now;
}
advanced now none_of message_id c = c

module _ (sql : Sql) where
  -- The update of one column. That no row is affected is no error here.
  unfoldable pub move_cursor : ℕ → String → Column → ℕ → Tables → Result Fault Tables
  move_cursor now conv_id none_of message_id db = err not_found
  move_cursor now conv_id col message_id db = do
    (rows, _) ←
        sql.update Conversation (is_conversation conv_id) (advanced now col message_id)
          db.conversations
    ok (record db { conversations = rows })

  unfoldable pub update_last_read : ℕ → String → String → ℕ → Tables → Result Fault Tables
  unfolding move_cursor
  update_last_read now conv_id user_id message_id db = do
    conv ← get_conversation sql conv_id db
    move_cursor now conv_id (column conv user_id) message_id db

  unfoldable pub count_unread : String → ℕ → Tables → Result Fault ℕ
  count_unread conv_id after_message_id db =
      sql.count Message
        (λ m.
          not (is_some m.deleted_at)
          && (str_eq m.conversation_id conv_id && ltb after_message_id m.message_id))
        db.messages
