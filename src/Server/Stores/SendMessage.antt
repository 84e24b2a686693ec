-- ===== src/Server/Stores/SendMessage.antt =====
-- internal/store/store.go: `SendMessage`. The engine of each attempt is its own,
-- since an attempt may fail where another does not.
pub mod Persisted
pub mod Sent
pub mod Streams
use xyncra_server.Common.{
  ℕ, zero, suc, ◌+◌, ◌%◌, ◌^◌, String, Bool, Option, none, some, List, [], ◌∷◌, str_eq, ltb, ◌==◌,
  if◌then◌else◌, length,
}
use xyncra_server.Fault.{Fault, not_found, database_deadlock, unclassified, Result, ok, err, ◌>>=◌}
use xyncra_server.Sql.{Sql}
use xyncra_server.Server.Model.{UserUpdate, Message, Conversation, Tables}
use xyncra_server.Server.Stores.Transactions.{transaction}
use xyncra_server.Server.Stores.Fanout.{allocate}
use xyncra_server.Server.Stores.UserUpdates.{create, get_latest_seq}
use xyncra_server.Server.Stores.Messages.{is_conversation, clashes, get_conversation}

pub record SendMessageResult : Type 0 where
  pub message : Message
  pub updates : List UserUpdate

abbrev pub max_send_message_updates : ℕ
max_send_message_updates = 500

-- The columns with defaults, and the time of creation, as GORM's `Create` fills them in.
abbrev pub with_defaults : ℕ → Message → Message
with_defaults now m = record m {
  kind = if str_eq m.kind "" then "text" else m.kind;
  status = if str_eq m.status "" then "sent" else m.status;
  created_at = if m.created_at == 0 then now else m.created_at;
}

-- Step 7: the conversation's last message.
abbrev pub last_message : ℕ → Message → Conversation → Conversation
last_message now m c = record c {
  last_message_at = m.created_at;
  last_processed_message_id = m.message_id;
  updated_at = now;
}

unfoldable pub encoded : Option String → Result Fault String
encoded none = err unclassified
encoded (some payload) = ok payload

module _ (now : ℕ) (new_id : ℕ → String) (marshal : Message → Option String) where
  module _ (sql : Sql) where
    -- Steps 5 to 7.
    unfoldable pub persist :
        Message → List UserUpdate → Tables → Result Fault (Tables × SendMessageResult)
    persist msg updates db = do
      messages ← sql.insert Message clashes msg db.messages
      db' ← create sql updates (record db { messages = messages })
      (rows, affected) ←
          sql.update Conversation (is_conversation msg.conversation_id) (last_message now msg)
            db'.conversations
      if affected == 0
          then err not_found
          else ok (record db' { conversations = rows }, record { message = msg; updates = updates })

    unfoldable pub send_message_body :
        Message → List String → Tables → Result Fault (Tables × SendMessageResult)
    unfolding allocate encoded persist
    send_message_body msg member_ids db = do
      conv ← get_conversation sql msg.conversation_id db
      payload ←
          encoded
            (marshal (record msg { message_id = (conv.last_processed_message_id + 1) % 2 ^ 32 }))
      updates ← allocate now new_id "message" sql 0 payload member_ids db
      persist
          (with_defaults now
            (record msg { message_id = (conv.last_processed_message_id + 1) % 2 ^ 32 }))
          updates db

  -- A retry starts from the message as the attempt before left it in the source; what that has set, the
  -- number and the defaults, is set again alike.
  unfoldable pub send_message :
      (ℕ → Bool)
      → (ℕ → Sql)
      → Message
      → List String
      → Tables
      → Result Fault (Tables × SendMessageResult)
  send_message is_done sqls msg member_ids db =
      if ltb max_send_message_updates (length member_ids)
      then err unclassified
      else transaction is_done (λ n. send_message_body (sqls n) msg member_ids db)
