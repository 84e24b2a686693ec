-- ===== src/Server/Handlers/SendMessage.antt =====
-- internal/handler/send_message.go. The handler answers with the tables after it, the tasks that it
-- queued, and the response. A failure to queue a task is only logged, so queueing is sending.
pub mod Reply
use xyncra_server.Common.{
  ℕ, String, Bool, true, false, not, ◌&&◌, Option, none, some, List, [], ◌∷◌, ◌++◌, map, str_eq,
  if◌then◌else◌, has,
}
use xyncra_server.Fault.{Fault, not_found, duplicate_key, Result, ok, err, ◌>>=◌}
use xyncra_server.Sql.{Sql}
use xyncra_server.Protocol.{PackageDataUpdate}
use xyncra_server.Server.Model.{UserUpdate, Message, Conversation, Tables}
use xyncra_server.Server.Stores.Messages.{get_conversation, get_by_client_message_id}
use xyncra_server.Server.Stores.SendMessage.{SendMessageResult, send_message}
use xyncra_server.Server.Handlers.Tasks.{
  SendMessageRecipient, Task, deliver, agent_process, recipients,
}
use xyncra_server.Server.Handlers.Members.{conversation_members}
use xyncra_server.Server.Handlers.HandlerError.{
  HandlerError, validation, not_found as missing, permission_denied, internal,
}

pub record SendMessageParams : Type 0 where
  pub conversation_id : String
  pub client_message_id : String
  pub content : String
  pub kind : String
  pub reply_to : ℕ

pub record SendMessageResponse : Type 0 where
  pub message : Message
  pub duplicate : Bool

-- What the handler is given: the engine of its own reads and of each attempt of the transaction, the
-- clock, uuid.New, json.Marshal of a message and whether it succeeds on a task, the context, and the
-- registry of agents, if there is one.
pub record SendEnv : Type 1 where
  pub sql : Sql
  pub sqls : ℕ → Sql
  pub now : ℕ
  pub message_id : String
  pub new_id : ℕ → String
  pub marshal : Message → Option String
  pub marshals : Task → Bool
  pub is_done : ℕ → Bool
  pub is_agent : Option (String → Bool)
  pub device_id : String

unfoldable pub peer_user_id : Conversation → String → String
peer_user_id conv sender_id =
    if str_eq conv.user_id1 sender_id
    then conv.user_id2
    else if str_eq conv.user_id2 sender_id
    then conv.user_id1
    else ""

unfoldable pub new_message : SendEnv → String → SendMessageParams → Conversation → Message
new_message env sender_id params conv = record {
  id = env.message_id;
  client_message_id = params.client_message_id;
  conversation_id = conv.id;
  message_id = 0;
  sender_id = sender_id;
  content = params.content;
  kind = if str_eq params.kind "" then "text" else params.kind;
  reply_to = params.reply_to;
  status = "sent";
  summarized = false;
  created_at = env.now;
  deleted_at = none;
}

module _ (env : SendEnv) (sender_id : String) where
  abbrev pub queued : Task → List Task
  queued task = if env.marshals task then task ∷ [] else []

  -- Step 5b: a human's message to an agent.
  unfoldable pub agent_tasks : Conversation → Message → List Task
  unfolding peer_user_id
  agent_tasks conv msg = elim env.is_agent [
    | none ↦ []
    | some is_agent ↦
        let peer_id = peer_user_id conv sender_id in
        if not (is_agent sender_id) && (not (str_eq peer_id "") && is_agent peer_id)
        then queued (agent_process msg.id conv.id peer_id sender_id env.device_id)
        else []
  ]

  unfoldable pub replied :
      Conversation
      → SendMessageParams
      → Tables
      → Result Fault (Tables × SendMessageResult)
      → Result HandlerError (Tables × List Task × SendMessageResponse)
  unfolding agent_tasks
  replied conv params db (ok (db', r)) = ok (
    db',
    queued (deliver (recipients "message" r.updates)) ++ agent_tasks conv r.message,
    record { message = r.message; duplicate = false },
  )
  replied conv params db (err duplicate_key) =
      elim (get_by_client_message_id env.sql params.client_message_id sender_id db) [
        | ok existing ↦ ok (db, [], record { message = existing; duplicate = true })
        | err _ ↦ err (internal duplicate_key)
      ]
  replied conv params db (err e) = err (internal e)

  unfoldable pub with_conversation :
      SendMessageParams
      → Tables
      → Result Fault Conversation
      → Result HandlerError (Tables × List Task × SendMessageResponse)
  unfolding conversation_members new_message replied
  with_conversation params db (err not_found) = err (missing "conversation not found")
  with_conversation params db (err e) = err (internal e)
  with_conversation params db (ok conv) =
      if has sender_id (conversation_members conv)
      then replied conv params db (
          send_message env.now env.new_id env.marshal env.is_done env.sqls
            (new_message env sender_id params conv) (conversation_members conv) db)
      else err (permission_denied "user is not a member of the conversation")

  unfoldable pub handle_send_message :
      Option SendMessageParams
      → Tables
      → Result HandlerError (Tables × List Task × SendMessageResponse)
  unfolding with_conversation
  handle_send_message none db = err (validation "invalid params")
  handle_send_message (some params) db =
      if str_eq params.conversation_id ""
      then err (validation "missing required field: conversation_id")
      else if str_eq params.client_message_id ""
      then err (validation "missing required field: client_message_id")
      else with_conversation params db (get_conversation env.sql params.conversation_id db)
