-- ===== src/Client/Model.antt =====
-- pkg/store/model: the rows of the client's tables. A time is a number of nanoseconds since 1970,
-- 0 for Go's zero time; `deleted_at` is none in a row that is not soft-deleted.
use xyncra_server.Common.{ℕ, String, Bool, Option, List}

pub record Conversation : Type 0 where
  pub id : String
  pub user_id1 : String
  pub user_id2 : String
  pub kind : String
  pub title : String
  pub pinned : Bool
  pub muted : Bool
  pub avatar_url : String
  pub description : String
  pub last_processed_message_id : ℕ
  pub created_at : ℕ
  pub updated_at : ℕ
  pub last_message_at : ℕ
  pub last_read_message_id1 : ℕ
  pub last_read_message_id2 : ℕ
  pub agent_status : String
  pub agent_id : String
  pub checkpoint_id : String
  pub agent_last_activity : ℕ
  pub deleted_at : Option ℕ

pub record Message : Type 0 where
  pub id : String
  pub client_message_id : String
  pub conversation_id : String
  pub message_id : ℕ
  pub sender_id : String
  pub content : String
  pub kind : String
  pub reply_to : ℕ
  pub status : String
  pub created_at : ℕ
  pub deleted_at : Option ℕ

pub record NotificationLog : Type 0 where
  pub id : String
  pub seq : ℕ
  pub kind : String
  pub payload : String
  pub created_at : ℕ

pub record RemoteCalling : Type 0 where
  pub id : String
  pub conversation_id : String
  pub checkpoint_id : String
  pub agent_id : String
  pub method : String
  pub params : String
  pub interrupt_id : String
  pub device_id : String
  pub status : String
  pub result : String
  pub error_message : String
  pub success : Bool
  pub created_at : ℕ
  pub resolved_at : Option ℕ
  pub expires_at : Option ℕ
  pub cancelled_at : Option ℕ
  pub cancelled_by : String
  pub cancel_reason : String
  pub deleted_at : Option ℕ

pub record SyncState : Type 0 where
  pub key : String
  pub value : String
  pub updated_at : ℕ

-- The tables that the synchronisation reads and writes.
pub record Tables : Type 0 where
  pub conversations : List Conversation
  pub messages : List Message
  pub notification_logs : List NotificationLog
  pub remote_callings : List RemoteCalling
  pub sync_states : List SyncState
