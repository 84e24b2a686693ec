-- ===== src/Server/Handlers/Broadcast.antt =====
-- internal/handler/broadcast_conversation_update.go. A failure to queue the delivery is only logged,
-- so queueing is sending.
pub mod Told
use xyncra_server.Common.{ℕ, String, Bool, List, [], ◌∷◌, if◌then◌else◌}
use xyncra_server.Fault.{Fault, Result, ok, ◌>>=◌}
use xyncra_server.Sql.{Sql}
use xyncra_server.Server.Model.{UserUpdate, Tables}
use xyncra_server.Server.Stores.Transactions.{transaction}
use xyncra_server.Server.Stores.Fanout.{allocate}
use xyncra_server.Server.Stores.UserUpdates.{create}
use xyncra_server.Server.Handlers.Tasks.{SendMessageRecipient, Task, deliver, recipients}

-- What a broadcast is given: the engine of each attempt, the context, the clock, uuid.New, json.Marshal
-- of the conversation's ID and the action, and whether there is a broker and it can marshal the task.
pub record BroadcastEnv : Type 1 where
  pub sqls : ℕ → Sql
  pub is_done : ℕ → Bool
  pub now : ℕ
  pub new_id : ℕ → String
  pub payload : String → String → String
  pub queues : List SendMessageRecipient → Bool

module _ (env : BroadcastEnv) where
  unfoldable pub store_updates :
      Sql → String → List String → Tables → Result Fault (Tables × List UserUpdate)
  store_updates sql payload member_ids db = do
    updates ← allocate env.now env.new_id "conversation" sql 0 payload member_ids db
    db' ← create sql updates db
    ok (db', updates)

  abbrev pub delivery : List UserUpdate → List Task
  delivery updates =
      let to = recipients "conversation" updates in if env.queues to then deliver to ∷ [] else []

  unfoldable pub broadcast_conversation_update :
      String → List String → String → Tables → Result Fault (Tables × List Task)
  unfolding store_updates
  broadcast_conversation_update conversation_id [] action db = ok (db, [])
  broadcast_conversation_update conversation_id (m ∷ member_ids) action db = do
    (db', updates) ←
        transaction env.is_done
          (λ n. store_updates (env.sqls n) (env.payload conversation_id action) (m ∷ member_ids) db)
    ok (db', delivery updates)
