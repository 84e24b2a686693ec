-- ===== src/Server/Handlers/DeleteMessage/Gone.antt =====
-- internal/handler/delete_message.go: a deletion that is answered.
use xyncra_server.Common.{
  ℕ, ◌≡◌, refl, ◌∙◌, inl, inr, String, true, some, str_eq, ◌==◌, has, Bool-cases,
}
use xyncra_server.Fault.{Fault, not_found, Result, ok, err, bind-ok}
use xyncra_server.Sql.{Sql, IsSql, update_rows}
use xyncra_server.Server.Model.{Message, Conversation, Tables}
use xyncra_server.Server.Stores.Messages.{get_conversation}
use xyncra_server.Server.Handlers.Members.{conversation_members}
use xyncra_server.Server.Handlers.Cascade.{deleted_message}
use xyncra_server.Server.Handlers.Cascade.Told.{tell_members-messages}
use xyncra_server.Server.Handlers.DeleteMessage.{
  is_message, get_message, delete, DeleteMessageEnv, Answer, removed, with_conversation,
  with_message, handle_delete_message,
}

-- The caller has sent the message that is read and is a member of its conversation, and of the
-- messages it alone is deleted.
pub record Gone (env : DeleteMessageEnv) (user_id id : String) (db : Tables) (a : Answer)
    : Type 0 where
  pub message : Message
  pub conversation : Conversation
  pub read : get_message env.sql id db ≡ ok message
  pub read_conversation : get_conversation env.sql message.conversation_id db ≡ ok conversation
  pub member : has user_id (conversation_members conversation) ≡ true
  pub sender : str_eq message.sender_id user_id ≡ true
  pub messages :
      a.0.messages ≡ update_rows (is_message id) (deleted_message env.deleted_at) db.messages

delete-rows :
    (sql : Sql) (legal : IsSql sql) (now : ℕ) (id : String) (db db' : Tables)
    → delete sql now id db ≡ ok db'
    → db'.messages ≡ update_rows (is_message id) (deleted_message now) db.messages
unfolding delete
delete-rows sql legal now id db db' e =
    let ((rows, n), done, rest) =
      bind-ok (sql.update Message (is_message id) (deleted_message now) db.messages) _ db' e in
    let changed =
      (legal.update_answer Message (is_message id) (deleted_message now) db.messages rows n
        done).0 in
    elim (Bool-cases (n == 0)) [
      | inl b ↦ cc (rw b at rest)
      | inr b ↦ let same : db'.messages ≡ rows = cc (rw b at rest) in same ∙ changed
    ]

module _ (env : DeleteMessageEnv) (legal : IsSql env.sql) (user_id id : String) (db : Tables) where
  removed-Gone :
      (msg : Message) (conv : Conversation) (r : Result Fault Tables)
      → get_message env.sql id db ≡ ok msg
      → get_conversation env.sql msg.conversation_id db ≡ ok conv
      → has user_id (conversation_members conv) ≡ true
      → str_eq msg.sender_id user_id ≡ true
      → delete env.sql env.deleted_at id db ≡ r
      → (removed env user_id msg (conversation_members conv) db r).2 ≡ ok "ok"
      → Gone env user_id id db (removed env user_id msg (conversation_members conv) db r)
  unfolding removed
  removed-Gone msg conv (err f) got got' member sender done e = cc
  removed-Gone msg conv (ok db') got got' member sender done e = record {
    message = msg;
    conversation = conv;
    read = got;
    read_conversation = got';
    member = member;
    sender = sender;
    messages =
        tell_members-messages "delete_message" env.now env.new_id env.sql legal env.queues
          (env.payload msg) (conversation_members conv) db'
        ∙ delete-rows env.sql legal env.deleted_at id db db' done;
  }

  with_conversation-Gone :
      (msg : Message) (r : Result Fault Conversation)
      → get_message env.sql id db ≡ ok msg
      → get_conversation env.sql msg.conversation_id db ≡ r
      → (with_conversation env user_id id msg db r).2 ≡ ok "ok"
      → Gone env user_id id db (with_conversation env user_id id msg db r)
  unfolding with_conversation
  with_conversation-Gone msg (err not_found) got got' e = cc
  with_conversation-Gone msg (err _) got got' e = cc
  with_conversation-Gone msg (ok conv) got got' e =
      elim (Bool-cases (has user_id (conversation_members conv))) [
        | inl member ↦ elim (Bool-cases (str_eq msg.sender_id user_id)) [
          | inl sender ↦
              rw (with_conversation, member, sender)
                (removed-Gone msg conv (delete env.sql env.deleted_at id db) got got' member sender
                  refl (rw (member, sender) at e))
          | inr other ↦ cc (rw (member, other) at e)
        ]
        | inr stranger ↦ cc
      ]

  with_message-Gone :
      (r : Result Fault Message)
      → get_message env.sql id db ≡ r
      → (with_message env user_id id db r).2 ≡ ok "ok"
      → Gone env user_id id db (with_message env user_id id db r)
  unfolding with_message
  with_message-Gone (err not_found) got e = cc
  with_message-Gone (err _) got e = cc
  with_message-Gone (ok msg) got e =
      with_conversation-Gone msg (get_conversation env.sql msg.conversation_id db) got refl e

  -- An answer of delete_message: the caller has sent the message that is read and is a member of its
  -- conversation, the rows of its ID that were not deleted are deleted, and the other messages stay as
  -- they are.
  pub handle_delete_message-Gone :
      (handle_delete_message env user_id (some id) db).2 ≡ ok "ok"
      → Gone env user_id id db (handle_delete_message env user_id (some id) db)
  unfolding handle_delete_message
  handle_delete_message-Gone e = elim (Bool-cases (str_eq id "")) [
    | inl b ↦ cc
    | inr b ↦
        rw (handle_delete_message, b)
          (with_message-Gone (get_message env.sql id db) refl (rw b at e))
  ]
