-- ===== src/Server/Handlers/AgentResume.antt =====
-- internal/handler/agent_resume.go. Each store call commits on its own, so what was written before an
-- error stays.
pub mod Accepted
pub mod Queued
pub mod Once
pub mod Live
use xyncra_server.Common.{
  ℕ, ◌*◌, String, Bool, true, false, not, ◌||◌, Option, none, some, List, [], ◌∷◌, str_eq, ltb,
  ◌==◌, if◌then◌else◌,
}
use Prim.Native.String.{len}
use xyncra_server.Fault.{Fault, not_found, conflict, unclassified, Result, ok, err}
use xyncra_server.Sql.{Sql}
use xyncra_server.Protocol.{PackageDataUpdate}
use xyncra_server.Server.Model.{RemoteCalling, Conversation, Tables}
use xyncra_server.Server.Stores.Messages.{get_conversation}
use xyncra_server.Server.Stores.RemoteCallings.{
  status_pending, status_resolved, status_expired, is_overdue, get_by_id, mark_expired,
  resolve_result, resolve_error, mark_expired_by_checkpoint, count_pending_by_checkpoint,
}
use xyncra_server.Server.Handlers.Tasks.{Task, AgentResumeTaskPayload, agent_resume}
use xyncra_server.Server.Handlers.Members.{conversation_members}
use xyncra_server.Server.Handlers.Broadcast.{BroadcastEnv, broadcast_conversation_update}
use xyncra_server.Server.Handlers.HandlerError.{
  HandlerError, validation, not_found as missing, internal,
}

pub record AgentResumeParams : Type 0 where
  pub id : String
  pub success : Bool
  pub result : String
  pub error_message : String
  pub agent_id : String

pub record AgentResumeResponse : Type 0 where
  pub status : String
  pub message : Option String
  pub pending_count : Option ℕ

pub record Client : Type 0 where
  pub user_id : String
  pub device_id : String

-- What the handler is given: the engine, its readings of the clock in order, the broker's answer to a
-- task, what the broadcast is given, and, if the context has a sidecar, its json.Marshal.
pub record ResumeEnv : Type 1 where
  pub sql : Sql
  pub clock : ℕ → ℕ
  pub has_remote_callings : Bool
  pub enqueue : AgentResumeTaskPayload → Result Fault Unit
  pub broadcast : BroadcastEnv
  pub sidecar : Option (String → String → String)
  pub client : Option Client

-- What the handler leaves and answers.
pub record Answer : Type 0 where
  pub tables : Tables
  pub tasks : List Task
  pub sidecar : List PackageDataUpdate
  pub result : Result HandlerError AgentResumeResponse

abbrev pub max_result_size : ℕ
max_result_size = 1 * 1024 * 1024

abbrev pub max_error_message_size : ℕ
max_error_message_size = 10 * 1024

-- An answer that queues nothing.
abbrev pub refused : Tables → HandlerError → Answer
refused db e = record { tables = db; tasks = []; sidecar = []; result = err e }

abbrev pub answered : Tables → String → Option String → Option ℕ → Answer
answered db status message pending_count = record {
  tables = db;
  tasks = [];
  sidecar = [];
  result = ok (record { status = status; message = message; pending_count = pending_count });
}

module _ (env : ResumeEnv) where
  unfoldable pub resume_payload : RemoteCalling → AgentResumeTaskPayload
  resume_payload rc = record {
    conversation_id = rc.conversation_id;
    checkpoint_id = rc.checkpoint_id;
    agent_id = rc.agent_id;
    sender_id = elim env.client [ none ↦ "" | some c ↦ c.user_id ];
    device_id = elim env.client [ none ↦ "" | some c ↦ c.device_id ];
    cancelled_by = "";
    message_id = rc.message_id;
  }

  unfoldable pub sidecar_updates : RemoteCalling → List PackageDataUpdate
  sidecar_updates rc = elim env.sidecar [
    | none ↦ []
    | some marshal ↦
        record {
          seq = 0;
          kind = "conversation";
          payload = marshal rc.conversation_id "update";
          created_at = env.clock 3;
        }
        ∷ []
  ]

  -- The persisted broadcast, whose failures are only logged.
  unfoldable pub announced : RemoteCalling → Tables → Result Fault Conversation → Tables × List Task
  announced rc db (err e) = (db, [])
  announced rc db (ok conv) =
      elim (broadcast_conversation_update env.broadcast rc.conversation_id
        (conversation_members conv) "update" db) [ ok done ↦ done | err _ ↦ (db, []) ]

  -- Step 10.
  unfoldable pub queued : RemoteCalling → Tables → Result Fault Unit → Answer
  unfolding sidecar_updates announced
  queued rc db (err e) = refused db (internal e)
  queued rc db (ok _) =
      let (db', tasks) = announced rc db (get_conversation env.sql rc.conversation_id db) in
      record {
        tables = db';
        tasks = agent_resume (resume_payload rc) ∷ tasks;
        sidecar = sidecar_updates rc;
        result = ok (record { status = "queued"; message = none; pending_count = none });
      }

  -- Steps 8 and 9.
  unfoldable pub counted : RemoteCalling → Tables → Result Fault ℕ → Answer
  unfolding queued
  counted rc db (err e) = refused db (internal e)
  counted rc db (ok pending) =
      if pending == 0
      then queued rc db (env.enqueue (resume_payload rc))
      else answered db "partial" none (some pending)

  -- Step 7: the overdue siblings expire; a failure is only logged.
  unfoldable pub siblings : RemoteCalling → Tables → Tables
  siblings rc db = elim (mark_expired_by_checkpoint env.sql rc.checkpoint_id (env.clock 2) db) [
    | ok (db', n) ↦ db'
    | err _ ↦ db
  ]

  unfoldable pub resolved : RemoteCalling → Tables → Result Fault Tables → Answer
  unfolding counted siblings
  resolved rc db (err conflict) = answered db status_resolved (some "already resolved") none
  resolved rc db (err e) = refused db (internal e)
  resolved rc db (ok db') =
      let later = siblings rc db' in
      counted rc later (count_pending_by_checkpoint env.sql rc.checkpoint_id later)

  -- Step 6.
  unfoldable pub resolve : AgentResumeParams → RemoteCalling → Tables → Result Fault Tables
  resolve params rc db =
      if params.success
      then resolve_result env.sql (env.clock 1) rc.id params.result db
      else resolve_error env.sql (env.clock 1) rc.id params.error_message db

  unfoldable pub timed_out : Tables → Result Fault Tables → Answer
  timed_out db (err e) = refused db (internal e)
  timed_out db (ok db') = answered db' status_expired (some "remote calling has expired") none

  -- Steps 4 and 5.
  unfoldable pub fetched : AgentResumeParams → Tables → Result Fault RemoteCalling → Answer
  unfolding resolved resolve timed_out
  fetched params db (err not_found) = refused db (missing "remote calling not found")
  fetched params db (err e) = refused db (internal e)
  fetched params db (ok rc) =
      if not (str_eq rc.status status_pending)
      then answered db rc.status (some "already processed") none
      else if is_overdue (env.clock 0) rc
      then timed_out db (mark_expired env.sql rc.id db)
      else resolved rc db (resolve params rc db)

  unfoldable pub handle_agent_resume : Option AgentResumeParams → Tables → Answer
  unfolding fetched
  handle_agent_resume none db = refused db (validation "invalid params")
  handle_agent_resume (some params) db =
      if str_eq params.id "" || str_eq params.agent_id ""
      then refused db (validation "id and agent_id are required")
      else if ltb max_result_size (len params.result)
      then refused db (validation "result exceeds maximum size (1MB)")
      else if ltb max_error_message_size (len params.error_message)
      then refused db (validation "error_message exceeds maximum size (10KB)")
      else if not env.has_remote_callings
      then refused db (internal unclassified)
      else fetched params db (get_by_id env.sql params.id db)
