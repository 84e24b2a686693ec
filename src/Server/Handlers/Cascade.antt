-- ===== src/Server/Handlers/Cascade.antt =====
-- internal/handler/delete_conversation.go and restore_conversation.go: the transactions of the two, and
-- the updates that they send to the members after it. A failure there is only logged.
pub mod RoundTrip
pub mod Told
use xyncra_server.Common.{
  ℕ, suc, ◌+◌, ◌%◌, ◌^◌, String, Bool, true, false, not, ◌&&◌, Option, none, some, is_some, List,
  [], ◌∷◌, str_eq, ◌==◌, if◌then◌else◌,
}
use xyncra_server.Fault.{Fault, not_found, Result, ok, err, ◌>>=◌}
use xyncra_server.Sql.{Sql}
use xyncra_server.Server.Model.{UserUpdate, Message, Conversation, Tables}
use xyncra_server.Server.Stores.Messages.{is_conversation}
use xyncra_server.Server.Stores.UserUpdates.{create, get_latest_seq}
use xyncra_server.Server.Handlers.Tasks.{SendMessageRecipient, Task, deliver, recipients}

-- `WHERE conversation_id = ? AND deleted_at IS NULL`.
abbrev pub is_live_in : String → Message → Bool
is_live_in conv_id m = not (is_some m.deleted_at) && str_eq m.conversation_id conv_id

-- `WHERE conversation_id = ? AND deleted_at = ?`.
abbrev pub is_at : ℕ → Option ℕ → Bool
is_at t none = false
is_at t (some d) = d == t

abbrev pub is_cascaded : ℕ → String → Message → Bool
is_cascaded t conv_id m = str_eq m.conversation_id conv_id && is_at t m.deleted_at

abbrev pub is_deleted_conversation : String → Conversation → Bool
is_deleted_conversation id c = str_eq c.id id && is_some c.deleted_at

abbrev pub deleted_message : ℕ → Message → Message
deleted_message now m = record m { deleted_at = some now }

abbrev pub restored_message : Message → Message
restored_message m = record m { deleted_at = none }

module _ (sql : Sql) (now : ℕ) (conv_id : String) where
  -- Step 5c of the deletion.
  unfoldable pub delete_messages : ℕ → Tables → List Conversation × ℕ → Result Fault (Tables × ℕ)
  delete_messages count db (conversations, affected) = if affected == 0 then err not_found else (do
    (messages, _) ← sql.update Message (is_live_in conv_id) (deleted_message now) db.messages
    ok (record db { conversations = conversations; messages = messages }, count))

  -- Steps 5a to 5c. The raw statements leave `updated_at`.
  unfoldable pub delete_body : Tables → Result Fault (Tables × ℕ)
  unfolding delete_messages
  delete_body db = do
    count ← sql.count Message (is_live_in conv_id) db.messages
    done ←
        sql.update Conversation (is_conversation conv_id) (λ c. record c { deleted_at = some now })
          db.conversations
    delete_messages count db done

  -- Step 6c of the restoration; a failure to find the latest message is ignored.
  unfoldable pub restore_metadata :
      ℕ → Tables → Result Fault (Option Message) → Result Fault (Tables × ℕ)
  restore_metadata count db (err e) = ok (db, count)
  restore_metadata count db (ok none) = ok (db, count)
  restore_metadata count db (ok (some latest)) = do
    (conversations, _) ←
        sql.update Conversation (is_conversation conv_id)
          (λ c. record c {
            last_processed_message_id = latest.message_id;
            last_message_at = latest.created_at;
            updated_at = now;
          })
          db.conversations
    ok (record db { conversations = conversations }, count)

  -- Step 6b.
  unfoldable pub restore_messages : ℕ → Tables → List Conversation × ℕ → Result Fault (Tables × ℕ)
  unfolding restore_metadata
  restore_messages deleted_at db (conversations, affected) =
      if affected == 0 then err not_found else (do
        (messages, count) ←
            sql.update Message (is_cascaded deleted_at conv_id) restored_message db.messages
        restore_metadata count (record db { conversations = conversations; messages = messages })
            (sql.last Message (λ m. m.message_id) (λ m. str_eq m.conversation_id conv_id) messages))

  -- Steps 6a to 6c.
  unfoldable pub restore_body : ℕ → Tables → Result Fault (Tables × ℕ)
  unfolding restore_messages
  restore_body deleted_at db = do
    done ←
        sql.update Conversation (is_deleted_conversation conv_id)
          (λ c. record c { deleted_at = none; updated_at = now }) db.conversations
    restore_messages deleted_at db done

-- The updates of the members, which the deletion of a message sends too. A member whose latest seq cannot be read is left out.
module _ (kind : String) (now : ℕ) (new_id : ℕ → String) (sql : Sql) where
  unfoldable pub member_updates : ℕ → String → List String → Tables → List UserUpdate
  member_updates i payload [] db = []
  member_updates i payload (member_id ∷ member_ids) db =
      let rest = member_updates (suc i) payload member_ids db in
      elim (get_latest_seq sql member_id db) [
        | err _ ↦ rest
        | ok latest_seq ↦
            record {
              id = new_id i;
              user_id = member_id;
              seq = (latest_seq + 1) % 2 ^ 32;
              kind = kind;
              payload = payload;
              created_at = now;
            }
            ∷ rest
      ]

  -- The tables and the tasks; the delivery is queued though the updates may not be stored.
  unfoldable pub tell_members :
      (List SendMessageRecipient → Bool) → String → List String → Tables → Tables × List Task
  unfolding member_updates
  tell_members queues payload members db =
      let updates = member_updates 0 payload members db in
      let to = recipients kind updates in
      (
        elim (create sql updates db) [ ok db' ↦ db' | err _ ↦ db ],
        if queues to then deliver to ∷ [] else [],
      )
