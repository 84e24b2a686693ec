-- ===== src/Server/Handlers/Cascade/Told.antt =====
-- internal/handler/delete_conversation.go: the updates of the members leave the messages.
use xyncra_server.Common.{ℕ, ◌≡◌, refl, ap, inl, inr, String, Bool, List}
use xyncra_server.Fault.{Result-cases}
use xyncra_server.Sql.{Sql, IsSql}
use xyncra_server.Server.Model.{Tables}
use xyncra_server.Server.Stores.UserUpdates.{create}
use xyncra_server.Server.Stores.UserUpdates.Created.{create-append}
use xyncra_server.Server.Handlers.Tasks.{SendMessageRecipient}
use xyncra_server.Server.Handlers.Cascade.{member_updates, tell_members}

pub tell_members-messages :
    (kind : String) (now : ℕ) (new_id : ℕ → String) (sql : Sql) (legal : IsSql sql)
    (queues : List SendMessageRecipient → Bool) (payload : String) (members : List String)
    (db : Tables)
    → (tell_members kind now new_id sql queues payload members db).0.messages ≡ db.messages
unfolding tell_members
tell_members-messages kind now new_id sql legal queues payload members db =
    let updates = member_updates kind now new_id sql 0 payload members db in
    elim (Result-cases (create sql updates db)) [
      | inl (db', done) ↦
          rw (tell_members, done)
            (ap (λ (d : Tables). d.messages) (create-append sql legal updates db db' done))
      | inr (f, failed) ↦ rw (tell_members, failed) refl
    ]
