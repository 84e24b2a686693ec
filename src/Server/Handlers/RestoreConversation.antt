-- ===== src/Server/Handlers/RestoreConversation.antt =====
-- internal/handler/restore_conversation.go.
use xyncra_server.Common.{
  ℕ, String, Bool, Option, none, some, List, [], str_eq, ◌==◌, if◌then◌else◌, has,
}
use xyncra_server.Fault.{Fault, not_found, Result, ok, err}
use xyncra_server.Sql.{Sql}
use xyncra_server.Server.Model.{Conversation, Tables}
use xyncra_server.Server.Stores.Transactions.{transaction}
use xyncra_server.Server.Stores.Messages.{get_conversation, found}
use xyncra_server.Server.Handlers.Tasks.{SendMessageRecipient, Task}
use xyncra_server.Server.Handlers.Members.{conversation_members}
use xyncra_server.Server.Handlers.HandlerError.{
  HandlerError, validation, not_found as missing, permission_denied, internal,
}
use xyncra_server.Server.Handlers.Cascade.{restore_body, tell_members}

-- What the handler is given, as for the deletion.
pub record RestoreEnv : Type 1 where
  pub sql : Sql
  pub sqls : ℕ → Sql
  pub is_done : ℕ → Bool
  pub now : ℕ
  pub new_id : ℕ → String
  pub payload : String → String
  pub queues : List SendMessageRecipient → Bool

pub record RestoreConversationResponse : Type 0 where
  pub conversation : Conversation
  pub restored_message_count : ℕ

abbrev pub Answer : Type 0
Answer = Tables × List Task × Result HandlerError RestoreConversationResponse

abbrev refused : Tables → HandlerError → Answer
refused db e = (db, [], err e)

-- `GetUnscoped` sees deleted conversations.
unfoldable pub get_unscoped : Sql → String → Tables → Result Fault Conversation
unfolding found
get_unscoped sql id db = elim (sql.first Conversation (λ c. str_eq c.id id) db.conversations) [
  | ok conv ↦ found conv
  | err e ↦ err e
]

module _ (env : RestoreEnv) (user_id : String) where
  -- Step 9, and the answer of step 5.
  abbrev answered : Tables → List Task → ℕ → Result Fault Conversation → Answer
  answered db tasks count (err e) = (db, tasks, err (internal e))
  answered db tasks count (ok conv) =
      (db, tasks, ok (record { conversation = conv; restored_message_count = count }))

  unfoldable pub restored : String → List String → Tables → Result Fault (Tables × ℕ) → Answer
  restored conv_id members db (err not_found) = refused db (missing "conversation not found")
  restored conv_id members db (err e) = refused db (internal e)
  restored conv_id members db (ok (db', count)) =
      let (later, tasks) =
        tell_members "conversation" env.now env.new_id env.sql env.queues (env.payload conv_id)
          members db' in
      answered later tasks count (get_conversation env.sql conv_id later)

  -- Steps 5 and 6, by the time at which the conversation was deleted, if it was.
  unfoldable pub by_deletion : String → List String → Tables → Option ℕ → Answer
  unfolding restored
  by_deletion conv_id members db none = answered db [] 0 (get_conversation env.sql conv_id db)
  by_deletion conv_id members db (some t) =
      if t == 0
      then answered db [] 0 (get_conversation env.sql conv_id db)
      else restored conv_id members db
          (transaction env.is_done (λ n. restore_body (env.sqls n) env.now conv_id t db))

  unfoldable pub with_conversation : String → Tables → Result Fault Conversation → Answer
  unfolding by_deletion
  with_conversation conv_id db (err not_found) = refused db (missing "conversation not found")
  with_conversation conv_id db (err e) = refused db (internal e)
  with_conversation conv_id db (ok conv) =
      let members = conversation_members conv in
      if has user_id members
      then by_deletion conv_id members db conv.deleted_at
      else refused db (permission_denied "user is not a member of the conversation")

  unfoldable pub handle_restore_conversation : Option String → Tables → Answer
  unfolding with_conversation get_unscoped
  handle_restore_conversation none db = refused db (validation "invalid params")
  handle_restore_conversation (some conv_id) db =
      if str_eq conv_id ""
      then refused db (validation "missing required field: conversation_id")
      else with_conversation conv_id db (get_unscoped env.sql conv_id db)
