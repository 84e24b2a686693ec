-- ===== src/Server/Handlers/DeleteConversation.antt =====
-- internal/handler/delete_conversation.go.
pub mod Emptied
use xyncra_server.Common.{
  ℕ, String, Bool, Option, none, some, List, [], ◌∷◌, str_eq, ◌==◌, if◌then◌else◌, has,
}
use xyncra_server.Fault.{Fault, not_found, Result, ok, err}
use xyncra_server.Sql.{Sql}
use xyncra_server.Server.Model.{Conversation, Tables}
use xyncra_server.Server.Stores.Transactions.{transaction}
use xyncra_server.Server.Stores.Messages.{get_conversation}
use xyncra_server.Server.Handlers.Tasks.{SendMessageRecipient, Task}
use xyncra_server.Server.Handlers.Members.{conversation_members}
use xyncra_server.Server.Handlers.HandlerError.{
  HandlerError, validation, not_found as missing, permission_denied, internal,
}
use xyncra_server.Server.Handlers.Cascade.{delete_body, tell_members}

-- What the handler is given: the engine of its own reads and of each attempt, the context, the clock
-- in milliseconds, uuid.New, json.Marshal of the update, and whether the delivery can be queued.
pub record DeleteEnv : Type 1 where
  pub sql : Sql
  pub sqls : ℕ → Sql
  pub is_done : ℕ → Bool
  pub now : ℕ
  pub new_id : ℕ → String
  pub payload : String → String
  pub queues : List SendMessageRecipient → Bool

-- `Status` is always "ok".
pub record DeleteConversationResponse : Type 0 where
  pub status : String
  pub deleted_message_count : ℕ

abbrev pub Answer : Type 0
Answer = Tables × List Task × Result HandlerError DeleteConversationResponse

abbrev refused : Tables → HandlerError → Answer
refused db e = (db, [], err e)

module _ (env : DeleteEnv) (user_id : String) where
  unfoldable pub deleted : String → List String → Tables → Result Fault (Tables × ℕ) → Answer
  deleted conv_id members db (err not_found) = refused db (missing "conversation not found")
  deleted conv_id members db (err e) = refused db (internal e)
  deleted conv_id members db (ok (db', count)) =
      let (later, tasks) =
        tell_members "conversation" env.now env.new_id env.sql env.queues (env.payload conv_id)
          members db' in
      (later, tasks, ok (record { status = "ok"; deleted_message_count = count }))

  unfoldable pub with_conversation : String → Tables → Result Fault Conversation → Answer
  unfolding deleted
  with_conversation conv_id db (err not_found) = refused db (missing "conversation not found")
  with_conversation conv_id db (err e) = refused db (internal e)
  with_conversation conv_id db (ok conv) =
      let members = conversation_members conv in
      if has user_id members
      then deleted conv_id members db
          (transaction env.is_done (λ n. delete_body (env.sqls n) env.now conv_id db))
      else refused db (permission_denied "user is not a member of the conversation")

  unfoldable pub handle_delete_conversation : Option String → Tables → Answer
  unfolding with_conversation
  handle_delete_conversation none db = refused db (validation "invalid params")
  handle_delete_conversation (some conv_id) db =
      if str_eq conv_id ""
      then refused db (validation "missing required field: conversation_id")
      else with_conversation conv_id db (get_conversation env.sql conv_id db)
