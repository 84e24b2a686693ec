-- ===== src/Client/Stores/Conversations.antt =====
-- pkg/store/conversation_store.go and remote_calling_store.go: the operations that the
-- synchronisation calls. GORM sets `updated_at` to the current time in every update of a
-- conversation, and in a `Create` where it is zero; so `now` is an argument.
use xyncra_server.Common.{
  ℕ, String, Bool, ◌&&◌, ◌||◌, not, none, some, List, str_eq, ltb, ◌==◌, is_some, if◌then◌else◌,
}
use xyncra_server.Fault.{Fault, not_found, duplicate_key, Result, ok, err, ◌>>=◌}
use xyncra_server.Sql.{Sql}
use xyncra_server.Client.Model.{Conversation, Message, RemoteCalling, Tables}

abbrev pub is_live : Conversation → Bool
is_live c = not (is_some c.deleted_at)

-- The primary key, and the unique index on the two users.
abbrev pub clashes : Conversation → Conversation → Bool
clashes new old =
    str_eq new.id old.id || (str_eq new.user_id1 old.user_id1 && str_eq new.user_id2 old.user_id2)

abbrev or_now : ℕ → ℕ → ℕ
or_now now t = if t == 0 then now else t

module _ (sql : Sql) where
  unfoldable pub get : String → Tables → Result Fault Conversation
  get id db = do
    conv ← sql.first Conversation (λ c. is_live c && str_eq c.id id) db.conversations
    elim conv [ none ↦ err not_found | some c ↦ ok c ]

  unfoldable pub update_last_message : ℕ → String → ℕ → ℕ → Tables → Result Fault Tables
  update_last_message now conv_id last_message_at message_id db = do
    (rows, affected) ←
        sql.update Conversation (λ c. is_live c && str_eq c.id conv_id)
          (λ c. record c {
            last_message_at = last_message_at;
            last_processed_message_id = message_id;
            updated_at = now;
          })
          db.conversations
    if affected == 0 then err not_found else ok (record db { conversations = rows })

  -- The two CASE expressions: only the cursor of this user moves, and only forward.
  unfoldable pub advance_cursor : ℕ → String → ℕ → Conversation → Conversation
  advance_cursor now user_id message_id c = record c {
    last_read_message_id1 =
        if str_eq c.user_id1 user_id && ltb c.last_read_message_id1 message_id
        then message_id
        else c.last_read_message_id1;
    last_read_message_id2 =
        if str_eq c.user_id2 user_id && ltb c.last_read_message_id2 message_id
        then message_id
        else c.last_read_message_id2;
    updated_at = now;
  }

  unfoldable pub update_last_read : ℕ → String → String → ℕ → Tables → Result Fault Tables
  unfolding advance_cursor
  update_last_read now conv_id user_id message_id db = do
    (rows, affected) ←
        sql.update Conversation
          (λ c.
            is_live c
            && (str_eq c.id conv_id && (str_eq c.user_id1 user_id || str_eq c.user_id2 user_id)))
          (advance_cursor now user_id message_id) db.conversations
    if affected == 0 then err not_found else ok (record db { conversations = rows })

  -- `Unscoped().Save`.
  unfoldable pub update_existing : ℕ → Conversation → Tables → Result Fault Tables
  update_existing now conv db = do
    rows ←
        sql.upsert Conversation (λ new old. str_eq new.id old.id) (λ new old. new)
          (record conv { updated_at = now }) db.conversations
    ok (record db { conversations = rows })

  unfoldable pub create_or_retry :
      ℕ → Conversation → Tables → Result Fault (List Conversation) → Result Fault Tables
  unfolding update_existing
  create_or_retry now conv db (ok rows) = ok (record db { conversations = rows })
  create_or_retry now conv db (err duplicate_key) = update_existing now conv db
  create_or_retry now conv db (err e) = err e

  unfoldable pub upsert : ℕ → Conversation → Tables → Result Fault Tables
  unfolding create_or_retry
  upsert now conv db = do
    existing ← sql.first Conversation (λ c. str_eq c.id conv.id) db.conversations
    elim existing [
      | none ↦ create_or_retry now conv db (
          sql.insert Conversation clashes
            (record conv {
              created_at = or_now now conv.created_at;
              updated_at = or_now now conv.updated_at;
            })
            db.conversations)
      | some _ ↦ update_existing now conv db
    ]

  -- The conversation and its messages (D-013).
  unfoldable pub soft_delete : ℕ → String → Tables → Result Fault Tables
  soft_delete now id db = do
    (rows, affected) ←
        sql.update Conversation (λ c. is_live c && str_eq c.id id)
          (λ c. record c { deleted_at = some now }) db.conversations
    if affected == 0 then err not_found else do
      (msgs, _) ←
          sql.update Message (λ m. not (is_some m.deleted_at) && str_eq m.conversation_id id)
            (λ m. record m { deleted_at = some now }) db.messages
      ok (record db { conversations = rows; messages = msgs })

  -- The messages come back only with a conversation that was deleted (D-015).
  unfoldable pub restore : ℕ → String → Tables → Result Fault Tables
  restore now id db = do
    existing ← sql.count Conversation (λ c. str_eq c.id id) db.conversations
    if existing == 0 then err not_found else do
      (rows, affected) ←
          sql.update Conversation (λ c. is_some c.deleted_at && str_eq c.id id)
            (λ c. record c { deleted_at = none; updated_at = now }) db.conversations
      if affected == 0 then ok (record db { conversations = rows }) else do
        (msgs, _) ←
            sql.update Message (λ m. is_some m.deleted_at && str_eq m.conversation_id id)
              (λ m. record m { deleted_at = none }) db.messages
        ok (record db { conversations = rows; messages = msgs })

  -- `Save` of a remote calling.
  unfoldable pub upsert_remote_calling : RemoteCalling → Tables → Result Fault Tables
  upsert_remote_calling rc db = do
    rows ←
        sql.upsert RemoteCalling (λ new old. str_eq new.id old.id) (λ new old. new) rc
          db.remote_callings
    ok (record db { remote_callings = rows })

  unfoldable pub delete_remote_callings : ℕ → String → Tables → Result Fault Tables
  delete_remote_callings now conv_id db = do
    (rows, _) ←
        sql.update RemoteCalling
          (λ r. not (is_some r.deleted_at) && str_eq r.conversation_id conv_id)
          (λ r. record r { deleted_at = some now }) db.remote_callings
    ok (record db { remote_callings = rows })
