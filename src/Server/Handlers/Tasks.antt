-- ===== src/Server/Handlers/Tasks.antt =====
-- internal/handler: the tasks of the message queue, and the updates that a delivery carries to each
-- recipient.
use xyncra_server.Common.{ℕ, String, List, [], ◌∷◌}
use xyncra_server.Protocol.{PackageDataUpdate}
use xyncra_server.Server.Model.{UserUpdate}

pub record SendMessageRecipient : Type 0 where
  pub user_id : String
  pub updates : List PackageDataUpdate

pub record AgentResumeTaskPayload : Type 0 where
  pub conversation_id : String
  pub checkpoint_id : String
  pub agent_id : String
  pub sender_id : String
  pub device_id : String
  pub cancelled_by : String
  pub message_id : ℕ

pub data Task : Type 0 where
  deliver : List SendMessageRecipient → Task
  agent_process : (message_id conversation_id agent_id sender_id device_id : String) → Task
  agent_resume : AgentResumeTaskPayload → Task

abbrev pub recipient : String → UserUpdate → SendMessageRecipient
recipient kind u = record {
  user_id = u.user_id;
  updates =
      record { seq = u.seq; kind = kind; payload = u.payload; created_at = u.created_at } ∷ [];
}

abbrev pub recipients : String → List UserUpdate → List SendMessageRecipient
recipients kind [] = []
recipients kind (u ∷ us) = recipient kind u ∷ recipients kind us
