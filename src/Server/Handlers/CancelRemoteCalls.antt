-- ===== src/Server/Handlers/CancelRemoteCalls.antt =====
-- internal/handler/cancel_remote_calls.go. Each store call commits on its own, so what was written
-- before an error stays.
pub mod Counting
pub mod Live
use xyncra_server.Common.{
  ℕ, String, Bool, true, false, not, ◌&&◌, ◌||◌, Option, none, some, List, [], ◌∷◌, ◌++◌, str_eq,
  ltb, ◌==◌, if◌then◌else◌,
}
use Prim.Native.String.{len}
use xyncra_server.Fault.{Fault, not_found, unclassified, Result, ok, err}
use xyncra_server.Sql.{Sql}
use xyncra_server.Server.Model.{RemoteCalling, Conversation, Tables}
use xyncra_server.Server.Stores.Messages.{get_conversation}
use xyncra_server.Server.Stores.RemoteCallings.{
  get_pending_by_checkpoint, cancel_by_checkpoint, count_pending_by_checkpoint,
}
use xyncra_server.Server.Handlers.Tasks.{Task, AgentResumeTaskPayload, agent_resume}
use xyncra_server.Server.Handlers.Members.{conversation_members, contains_user_or_agent_base}
use xyncra_server.Server.Handlers.Broadcast.{BroadcastEnv, broadcast_conversation_update}
use xyncra_server.Server.Handlers.HandlerError.{
  HandlerError, validation, not_found as missing, permission_denied, internal,
}

pub record CancelRemoteCallsParams : Type 0 where
  pub checkpoint_id : String
  pub reason : String

-- What the handler is given: the engine, the clock, the broker's answer to a task, what the broadcast is
-- given, and the client.
pub record CancelEnv : Type 1 where
  pub sql : Sql
  pub now : ℕ
  pub has_remote_callings : Bool
  pub enqueue : AgentResumeTaskPayload → Result Fault Unit
  pub broadcast : BroadcastEnv
  pub user_id : String
  pub device_id : String

-- What the handler leaves and answers: the tables, the tasks, and `cancelled_count`.
pub record Answer : Type 0 where
  pub tables : Tables
  pub tasks : List Task
  pub result : Result HandlerError ℕ

abbrev pub max_reason_length : ℕ
max_reason_length = 1024

abbrev pub refused : Tables → HandlerError → Answer
refused db e = record { tables = db; tasks = []; result = err e }

module _ (env : CancelEnv) where
  unfoldable pub cancel_payload : String → String → String → AgentResumeTaskPayload
  cancel_payload checkpoint_id conversation_id agent_id = record {
    conversation_id = conversation_id;
    checkpoint_id = checkpoint_id;
    agent_id = agent_id;
    sender_id = env.user_id;
    device_id = env.device_id;
    cancelled_by = env.user_id;
    message_id = 0;
  }

  -- The persisted broadcast, whose failure is only logged.
  unfoldable pub announced : String → List String → Tables → Tables × List Task
  announced conversation_id members db =
      elim (broadcast_conversation_update env.broadcast conversation_id members "update" db) [
        | ok done ↦ done
        | err _ ↦ (db, [])
      ]

  -- Steps 5 and 6, after the tasks of the broadcast.
  unfoldable pub queued :
      AgentResumeTaskPayload → ℕ → Tables → List Task → Result Fault Unit → Answer
  queued p count db tasks (err e) = record { tables = db; tasks = tasks; result = err (internal e) }
  queued p count db tasks (ok _) = record {
    tables = db;
    tasks = tasks ++ agent_resume p ∷ [];
    result = ok count;
  }

  -- Step 4.
  unfoldable pub counted : AgentResumeTaskPayload → ℕ → Tables → List Task → Result Fault ℕ → Answer
  unfolding queued
  counted p count db tasks (err e) = record {
    tables = db;
    tasks = tasks;
    result = err (internal e);
  }
  counted p count db tasks (ok pending) =
      if pending == 0 && not (str_eq p.conversation_id "")
      then queued p count db tasks (env.enqueue p)
      else record { tables = db; tasks = tasks; result = ok count }

  unfoldable pub cancelled :
      String → String → List String → Tables → Result Fault (Tables × ℕ × String × String) → Answer
  unfolding cancel_payload announced counted
  cancelled checkpoint_id conversation_id members db (err e) = refused db (internal e)
  cancelled checkpoint_id conversation_id members db (ok (db', count, rc_conversation, rc_agent)) =
      let (later, tasks) = announced conversation_id members db' in
      counted (cancel_payload checkpoint_id rc_conversation rc_agent) count later tasks
        (count_pending_by_checkpoint env.sql checkpoint_id later)

  -- The caller is a member of the conversation.
  unfoldable pub with_conversation :
      CancelRemoteCallsParams → String → Tables → Result Fault Conversation → Answer
  unfolding cancelled
  with_conversation params conversation_id db (err not_found) =
      refused db (missing "conversation not found")
  with_conversation params conversation_id db (err e) = refused db (internal e)
  with_conversation params conversation_id db (ok conv) =
      let members = conversation_members conv in
      if not (contains_user_or_agent_base members env.user_id)
      then refused db (permission_denied "user is not a member of the conversation")
      else cancelled params.checkpoint_id conversation_id members db
          (cancel_by_checkpoint env.sql env.now params.checkpoint_id params.reason env.user_id db)

  -- Step 3: the pending calls of the checkpoint.
  unfoldable pub existing :
      CancelRemoteCallsParams → Tables → Result Fault (List RemoteCalling) → Answer
  unfolding with_conversation
  existing params db (err e) = refused db (internal e)
  existing params db (ok []) =
      refused db (missing "no pending remote callings found for checkpoint")
  existing params db (ok (rc ∷ rcs)) =
      with_conversation params rc.conversation_id db
        (get_conversation env.sql rc.conversation_id db)

  unfoldable pub handle_cancel_remote_calls : Option CancelRemoteCallsParams → Tables → Answer
  unfolding existing
  handle_cancel_remote_calls none db = refused db (validation "invalid params")
  handle_cancel_remote_calls (some params) db =
      if str_eq params.checkpoint_id "" || str_eq params.reason ""
      then refused db (validation "checkpoint_id and reason are required")
      else if ltb max_reason_length (len params.reason)
      then refused db (validation "reason exceeds maximum length (1024 bytes)")
      else if not env.has_remote_callings
      then refused db (internal unclassified)
      else existing params db (get_pending_by_checkpoint env.sql params.checkpoint_id db)
