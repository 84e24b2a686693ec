-- ===== src/Client/Stores/Messages.antt =====
-- pkg/store/message_store.go: the operations that the synchronisation calls.
use xyncra_server.Common.{
  ℕ, String, Bool, ◌&&◌, ◌||◌, not, none, some, List, str_eq, ◌==◌, is_some, if◌then◌else◌,
}
use xyncra_server.Fault.{Fault, not_found, duplicate_key, Result, ok, err, ◌>>=◌}
use xyncra_server.Sql.{Sql}
use xyncra_server.Client.Model.{Message, Tables}

abbrev pub is_live : Message → Bool
is_live m = not (is_some m.deleted_at)

-- The primary key, and the unique index on (client_message_id, sender_id).
abbrev pub clashes : Message → Message → Bool
clashes new old =
    str_eq new.id old.id
    || (str_eq new.client_message_id old.client_message_id && str_eq new.sender_id old.sender_id)

-- `Create` fills in what is left empty: the columns' defaults and the time of creation.
abbrev pub with_defaults : ℕ → Message → Message
with_defaults now m = record m {
  kind = if str_eq m.kind "" then "text" else m.kind;
  status = if str_eq m.status "" then "sent" else m.status;
  created_at = if m.created_at == 0 then now else m.created_at;
}

module _ (sql : Sql) where
  unfoldable pub update_by_id : Message → Tables → Result Fault Tables
  update_by_id msg db = do
    (rows, _) ←
        sql.update Message (λ m. is_live m && str_eq m.id msg.id)
          (λ m. record m { content = msg.content; kind = msg.kind; status = msg.status })
          db.messages
    ok (record db { messages = rows })

  abbrev left_as : Message → Result Fault Tables → Result Fault (Tables × Message)
  left_as msg (ok db) = ok (db, msg)
  left_as msg (err e) = err e

  -- `Create` of a message; a clash with another row is retried as an update.
  unfoldable pub create_or_retry :
      Message → Tables → Result Fault (List Message) → Result Fault Tables
  unfolding update_by_id
  create_or_retry msg db (ok rows) = ok (record db { messages = rows })
  create_or_retry msg db (err duplicate_key) = update_by_id msg db
  create_or_retry msg db (err e) = err e

  -- With the message as GORM leaves it: a `Create` fills in the defaults in place.
  unfoldable pub create_or_update : ℕ → Message → Tables → Result Fault (Tables × Message)
  unfolding create_or_retry update_by_id
  create_or_update now msg db = do
    existing ← sql.first Message (λ m. is_live m && str_eq m.id msg.id) db.messages
    elim existing [
      | none ↦ left_as (with_defaults now msg) (
          create_or_retry (with_defaults now msg) db
            (sql.insert Message clashes (with_defaults now msg) db.messages))
      | some _ ↦ left_as msg (update_by_id msg db)
    ]

  unfoldable pub soft_delete : ℕ → String → Tables → Result Fault Tables
  soft_delete now id db = do
    (rows, affected) ←
        sql.update Message (λ m. is_live m && str_eq m.id id)
          (λ m. record m { deleted_at = some now }) db.messages
    if affected == 0 then err not_found else ok (record db { messages = rows })
