-- ===== src/Server/Handlers/MarkAsRead.antt =====
-- internal/handler/mark_as_read.go. Each store call commits on its own, so the tables stand beside
-- the result: what was written before an error stays.
pub mod Cursor
use xyncra_server.Common.{
  ℕ, ◌+◌, ◌%◌, ◌^◌, String, Bool, Option, none, some, List, [], ◌∷◌, str_eq, ltb, ◌==◌,
  if◌then◌else◌, has,
}
use xyncra_server.Fault.{Fault, not_found, Result, ok, err}
use xyncra_server.Sql.{Sql}
use xyncra_server.Server.Model.{UserUpdate, Conversation, Tables}
use xyncra_server.Server.Stores.Messages.{get_conversation}
use xyncra_server.Server.Stores.Cursors.{update_last_read, count_unread}
use xyncra_server.Server.Stores.UserUpdates.{create, get_latest_seq}
use xyncra_server.Server.Handlers.HandlerError.{
  HandlerError, validation, not_found as missing, permission_denied, internal,
}
use xyncra_server.Server.Handlers.Tasks.{
  SendMessageRecipient, Task, deliver, agent_process, recipients,
}
use xyncra_server.Server.Handlers.Members.{conversation_members}

pub record MarkAsReadParams : Type 0 where
  pub conversation_id : String
  pub message_id : ℕ

pub record MarkAsReadResponse : Type 0 where
  pub unread_count : ℕ
  pub last_read_message_id : ℕ

-- `payload` is json.Marshal of the conversation's ID and the cursor, `queues` whether there is a broker
-- and the task can be marshalled.
pub record MarkEnv : Type 1 where
  pub sql : Sql
  pub now : ℕ
  pub update_id : String
  pub payload : String → ℕ → String
  pub queues : Bool

-- What the handler leaves and answers: the tables, the queued tasks, and the result.
abbrev pub Answer : Type 0
Answer = Tables × List Task × Result HandlerError MarkAsReadResponse

-- Steps 4 and 5: the requested message, or the last one; never past the last one.
unfoldable pub target : MarkAsReadParams → Conversation → ℕ
target params conv =
    let message_id : ℕ =
      if params.message_id == 0 then conv.last_processed_message_id else params.message_id in
    if ltb conv.last_processed_message_id message_id
    then conv.last_processed_message_id
    else message_id

-- Step 6b: the cursor as stored.
abbrev pub cursor_of : String → Conversation → ℕ
cursor_of user_id conv =
    if str_eq user_id conv.user_id2 then conv.last_read_message_id2 else conv.last_read_message_id1

module _ (env : MarkEnv) (user_id : String) where
  unfoldable pub mark_read_update : String → ℕ → ℕ → UserUpdate
  mark_read_update conv_id cursor latest_seq = record {
    id = env.update_id;
    user_id = user_id;
    seq = (latest_seq + 1) % 2 ^ 32;
    kind = "mark_read";
    payload = env.payload conv_id cursor;
    created_at = env.now;
  }

  abbrev pub broadcast : UserUpdate → List Task
  broadcast u =
      if env.queues
      then deliver (
          record {
            user_id = user_id;
            updates =
                record {
                  seq = u.seq;
                  kind = u.kind;
                  payload = u.payload;
                  created_at = u.created_at;
                }
                ∷ [];
          }
          ∷ [])
        ∷ []
      else []

  -- A failure to store the update is only logged.
  abbrev pub stored : Tables → Result Fault Tables → Tables
  stored db (ok db') = db'
  stored db (err e) = db

  -- Steps 8 and 9: the update is broadcast even where it could not be stored.
  unfoldable pub announced : String → ℕ → Tables → Result Fault ℕ → Tables × List Task
  unfolding mark_read_update
  announced conv_id cursor db (err e) = (db, [])
  announced conv_id cursor db (ok latest_seq) =
      let u = mark_read_update conv_id cursor latest_seq in
      (stored db (create env.sql (u ∷ []) db), broadcast u)

  unfoldable pub counted : String → ℕ → Tables → Result Fault ℕ → Answer
  unfolding announced
  counted conv_id cursor db (err e) = (db, [], err (internal e))
  counted conv_id cursor db (ok n) =
      let (db', tasks) = announced conv_id cursor db (get_latest_seq env.sql user_id db) in
      (db', tasks, ok (record { unread_count = n; last_read_message_id = cursor }))

  unfoldable pub reread : String → Tables → Result Fault Conversation → Answer
  unfolding counted
  reread conv_id db (err e) = (db, [], err (internal e))
  reread conv_id db (ok conv) =
      counted conv_id (cursor_of user_id conv) db
        (count_unread env.sql conv_id (cursor_of user_id conv) db)

  unfoldable pub moved : String → Tables → Result Fault Tables → Answer
  unfolding reread
  moved conv_id db (err e) = (db, [], err (internal e))
  moved conv_id db (ok db') = reread conv_id db' (get_conversation env.sql conv_id db')

  unfoldable pub with_conversation : MarkAsReadParams → Tables → Result Fault Conversation → Answer
  unfolding moved target conversation_members
  with_conversation params db (err not_found) = (db, [], err (missing "conversation not found"))
  with_conversation params db (err e) = (db, [], err (internal e))
  with_conversation params db (ok conv) =
      if has user_id (conversation_members conv)
      then moved params.conversation_id db
          (update_last_read env.sql env.now params.conversation_id user_id (target params conv) db)
      else (db, [], err (permission_denied "user is not a member of the conversation"))

  unfoldable pub handle_mark_as_read : Option MarkAsReadParams → Tables → Answer
  unfolding with_conversation
  handle_mark_as_read none db = (db, [], err (validation "invalid params"))
  handle_mark_as_read (some params) db =
      if str_eq params.conversation_id ""
      then (db, [], err (validation "missing required field: conversation_id"))
      else with_conversation params db (get_conversation env.sql params.conversation_id db)
