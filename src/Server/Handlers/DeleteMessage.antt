-- ===== src/Server/Handlers/DeleteMessage.antt =====
-- internal/handler/delete_message.go, with `Get` and `Delete` of internal/store/message.go.
pub mod Gone
use xyncra_server.Common.{
  ℕ, String, Bool, ◌&&◌, not, Option, none, some, is_some, List, [], str_eq, ◌==◌, if◌then◌else◌,
  has,
}
use xyncra_server.Fault.{Fault, not_found, Result, ok, err, ◌>>=◌}
use xyncra_server.Sql.{Sql}
use xyncra_server.Server.Model.{Message, Conversation, Tables}
use xyncra_server.Server.Stores.Messages.{get_conversation, found}
use xyncra_server.Server.Handlers.Tasks.{SendMessageRecipient, Task}
use xyncra_server.Server.Handlers.Members.{conversation_members}
use xyncra_server.Server.Handlers.HandlerError.{
  HandlerError, validation, not_found as missing, permission_denied, internal,
}
use xyncra_server.Server.Handlers.Cascade.{deleted_message, tell_members}

abbrev pub is_message : String → Message → Bool
is_message id m = not (is_some m.deleted_at) && str_eq m.id id

module _ (sql : Sql) where
  unfoldable pub get_message : String → Tables → Result Fault Message
  unfolding found
  get_message id db = do msg ← sql.first Message (is_message id) db.messages; found msg

  -- GORM's soft delete, at a time of its own.
  unfoldable pub delete : ℕ → String → Tables → Result Fault Tables
  delete now id db = do
    (messages, affected) ← sql.update Message (is_message id) (deleted_message now) db.messages
    if affected == 0 then err not_found else ok (record db { messages = messages })

-- What the handler is given: the engine, the clock at the deletion and after it, uuid.New,
-- json.Marshal of the update, and whether the delivery can be queued.
pub record DeleteMessageEnv : Type 1 where
  pub sql : Sql
  pub deleted_at : ℕ
  pub now : ℕ
  pub new_id : ℕ → String
  pub payload : Message → String
  pub queues : List SendMessageRecipient → Bool

-- The answer has the status "ok" only.
abbrev pub Answer : Type 0
Answer = Tables × List Task × Result HandlerError String

abbrev refused : Tables → HandlerError → Answer
refused db e = (db, [], err e)

module _ (env : DeleteMessageEnv) (user_id : String) where
  -- Steps 8 to 10.
  unfoldable pub removed : Message → List String → Tables → Result Fault Tables → Answer
  removed msg members db (err e) = refused db (internal e)
  removed msg members db (ok db') =
      let (later, tasks) =
        tell_members "delete_message" env.now env.new_id env.sql env.queues (env.payload msg)
          members db' in
      (later, tasks, ok "ok")

  -- Steps 5 to 7.
  unfoldable pub with_conversation : String → Message → Tables → Result Fault Conversation → Answer
  unfolding removed
  with_conversation id msg db (err not_found) = refused db (missing "conversation not found")
  with_conversation id msg db (err e) = refused db (internal e)
  with_conversation id msg db (ok conv) =
      let members = conversation_members conv in
      if not (has user_id members)
      then refused db (permission_denied "user is not a member of the conversation")
      else if not (str_eq msg.sender_id user_id)
      then refused db (permission_denied "only the sender can delete this message")
      else removed msg members db (delete env.sql env.deleted_at id db)

  unfoldable pub with_message : String → Tables → Result Fault Message → Answer
  unfolding with_conversation
  with_message id db (err not_found) = refused db (missing "message not found")
  with_message id db (err e) = refused db (internal e)
  with_message id db (ok msg) =
      with_conversation id msg db (get_conversation env.sql msg.conversation_id db)

  unfoldable pub handle_delete_message : Option String → Tables → Answer
  unfolding with_message
  handle_delete_message none db = refused db (validation "invalid params")
  handle_delete_message (some id) db =
      if str_eq id ""
      then refused db (validation "missing required field: message_id")
      else with_message id db (get_message env.sql id db)
