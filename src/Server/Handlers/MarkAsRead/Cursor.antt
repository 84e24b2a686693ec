-- ===== src/Server/Handlers/MarkAsRead/Cursor.antt =====
-- internal/handler/mark_as_read.go: the read cursor only moves forward, and not past the last message.
use Prim.Native.Nat.{max, min}
use xyncra_server.Common.{ℕ, ◌≡◌, String, true, some, find_first, ◌==◌, if◌then◌else◌, has}
use xyncra_server.Fault.{Fault}
use xyncra_server.Sql.{IsSql, update_rows}
use xyncra_server.Server.Model.{Conversation, Tables}
use xyncra_server.Server.Stores.Messages.{is_conversation}
use xyncra_server.Server.Stores.Cursors.{column, advanced}
use xyncra_server.Server.Handlers.HandlerError.{HandlerError}
use xyncra_server.Server.Handlers.Members.{conversation_members}
use xyncra_server.Server.Handlers.MarkAsRead.{
  MarkAsReadParams, MarkAsReadResponse, MarkEnv, cursor_of,
}

-- The message up to which a call asks to read: the one that it names, or else the last, and never past
-- the last.
abbrev pub requested : ℕ → ℕ → ℕ
requested message_id last = if message_id == 0 then last else min message_id last

module _ (env : MarkEnv) (legal : IsSql env.sql) (user_id : String) where
  -- What a reply tells of the conversation: its cursor of the user is moved forward to the target, if
  -- that is further, and the reply has the cursor as stored.
  pub record Marked (params : MarkAsReadParams) (db db' : Tables) (resp : MarkAsReadResponse)
      : Type 0 where
    pub conversation : Conversation
    pub is_first :
        find_first (is_conversation params.conversation_id) db.conversations ≡ some conversation
    pub member : has user_id (conversation_members conversation) ≡ true
    pub cursor :
        resp.last_read_message_id
        ≡ max
            (cursor_of user_id conversation)
            (requested params.message_id conversation.last_processed_message_id)
    pub conversations :
        db'.conversations
        ≡ update_rows
            (is_conversation params.conversation_id)
            (advanced env.now
              (column conversation user_id)
              (requested params.message_id conversation.last_processed_message_id))
            db.conversations
