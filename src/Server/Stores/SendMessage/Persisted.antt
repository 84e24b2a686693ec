-- ===== src/Server/Stores/SendMessage/Persisted.antt =====
-- internal/store/store.go: the writes of `SendMessage`.
use xyncra_server.Common.{
  ℕ, ◌≡◌, ap, ◌∙◌, String, false, Option, List, [], ◌∷◌, ◌++◌, inl, inr, ◌==◌, All, Bool-cases,
}
use xyncra_server.Fault.{Fault, Result, ok, Result-cases}
use xyncra_server.Sql.{Sql, IsSql, update_rows}
use xyncra_server.Server.Model.{UserUpdate, Message, Conversation, Tables}
use xyncra_server.Server.Stores.UserUpdates.{create}
use xyncra_server.Server.Stores.UserUpdates.Created.{create-append}
use xyncra_server.Server.Stores.Messages.{is_conversation, clashes}
use xyncra_server.Server.Stores.SendMessage.{SendMessageResult, last_message, persist}

module _ (now : ℕ) (new_id : ℕ → String) (marshal : Message → Option String) where
  module _ (sql : Sql) (legal : IsSql sql) where
    -- What the three writes leave.
    pub record Persisted (msg : Message) (us : List UserUpdate) (db db' : Tables)
        (r : SendMessageResult) : Type 0 where
      pub message : r.message ≡ msg
      pub updates : r.updates ≡ us
      pub fresh : All (λ m. clashes msg m ≡ false) db.messages
      pub messages : db'.messages ≡ db.messages ++ msg ∷ []
      pub user_updates : db'.user_updates ≡ db.user_updates ++ us
      pub conversations :
          db'.conversations
          ≡ update_rows
              (is_conversation msg.conversation_id)
              (last_message now msg)
              db.conversations

    pub persist-Persisted :
        (msg : Message) (us : List UserUpdate) (db db' : Tables) (r : SendMessageResult)
        → persist now new_id marshal sql msg us db ≡ ok (db', r)
        → Persisted msg us db db' r
    unfolding persist
    persist-Persisted msg us db db' r e =
        elim (Result-cases (sql.insert Message clashes msg db.messages)) [
          | inl (messages, inserted) ↦
              elim (Result-cases (create sql us (record db { messages = messages }))) [
                | inl (d, created) ↦
                    elim (Result-cases (
                      sql.update Conversation (is_conversation msg.conversation_id)
                        (last_message now msg) d.conversations)) [
                          | inl ((rows, affected), updated) ↦ elim (Bool-cases (affected == 0)) [
                            | inl nothing ↦ cc (rw (inserted, created, updated, nothing) at e)
                            | inr something ↦
                                finish messages d rows affected inserted created updated
                                  (rw (inserted, created, updated, something) at e)
                          ]
                          | inr (f, failed) ↦ cc (rw (inserted, created, failed) at e)
                        ]
                | inr (f, failed) ↦ cc (rw (inserted, failed) at e)
              ]
          | inr (f, failed) ↦ cc (rw failed at e)
        ]
      where
        answer : Tables × SendMessageResult → Result Fault (Tables × SendMessageResult)
        answer a = ok a

        finish :
            (ms : List Message) (d : Tables) (rows : List Conversation) (affected : ℕ)
            → sql.insert Message clashes msg db.messages ≡ ok ms
            → create sql us (record db { messages = ms }) ≡ ok d
            → sql.update Conversation
                (is_conversation msg.conversation_id)
                (last_message now msg)
                d.conversations
              ≡ ok (rows, affected)
            → answer (record d { conversations = rows }, record { message = msg; updates = us })
              ≡ ok (db', r)
            → Persisted msg us db db' r
        finish ms d rows affected inserted created updated same =
            let added = legal.insert_answer Message clashes msg db.messages ms inserted in
            let grown = create-append sql legal us (record db { messages = ms }) d created in
            let moved =
              legal.update_answer Conversation (is_conversation msg.conversation_id)
                (last_message now msg) d.conversations rows affected updated in
            let db'_is : db' ≡ record d { conversations = rows } = cc same in
            let r_is : r ≡ record { message = msg; updates = us } = cc same in
            record {
              message = ap (λ (x : SendMessageResult). x.message) r_is;
              updates = ap (λ (x : SendMessageResult). x.updates) r_is;
              fresh = added.1;
              messages =
                  ap (λ (x : Tables). x.messages) db'_is
                  ∙ ap (λ (x : Tables). x.messages) grown
                  ∙ added.0;
              user_updates =
                  ap (λ (x : Tables). x.user_updates) db'_is
                  ∙ ap (λ (x : Tables). x.user_updates) grown;
              conversations =
                  ap (λ (x : Tables). x.conversations) db'_is
                  ∙ moved.0
                  ∙ ap
                      (λ (x : Tables).
                        update_rows (is_conversation msg.conversation_id) (last_message now msg)
                          x.conversations)
                      grown;
            }
