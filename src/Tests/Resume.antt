-- ===== src/Tests/Resume.antt =====
-- The answer to the call that is not overdue, its repetition, and the cancellation of both calls.
use xyncra_server.Common.{◌≡◌, refl, true, false, none, some, inl, inr, In, str_eq}
use xyncra_server.Fault.{ok}
use xyncra_server.Server.Model.{RemoteCalling}
use xyncra_server.Server.Stores.Transactions.{transaction}
use xyncra_server.Server.Stores.Fanout.{allocate}
use xyncra_server.Server.Handlers.Broadcast.{broadcast_conversation_update}
use xyncra_server.Tests.Sorting.{sort}
use xyncra_server.Server.Stores.UserUpdates.{create, get_latest_seq}
use xyncra_server.Server.Stores.Messages.{get_conversation, found as conversation_found}
use xyncra_server.Server.Stores.RemoteCallings.{
  is_awaited, is_overdue, found, settled, get_by_id, resolve_result, mark_expired_by_checkpoint,
  count_pending_by_checkpoint, get_pending_by_checkpoint, cancel_by_checkpoint,
}
use xyncra_server.Server.Stores.RemoteCallings.Steps.{here}
use xyncra_server.Server.Handlers.Tasks.{AgentResumeTaskPayload, agent_resume}
use xyncra_server.Server.Handlers.Members.{conversation_members, contains_user_or_agent_base}
use xyncra_server.Server.Handlers.AgentResume.{
  AgentResumeParams, ResumeEnv, resume_payload, handle_agent_resume,
}
use xyncra_server.Server.Handlers.AgentResume.Queued.{Queued, handle_agent_resume-Queued}
use xyncra_server.Server.Handlers.AgentResume.Once.{handle_agent_resume_once}
use xyncra_server.Server.Handlers.AgentResume.Live.{handle_agent_resume_last}
use xyncra_server.Server.Handlers.CancelRemoteCalls.{
  CancelRemoteCallsParams, CancelEnv, handle_cancel_remote_calls,
}
use xyncra_server.Server.Handlers.CancelRemoteCalls.Live.{
  CalledOff, handle_cancel_remote_calls-CalledOff,
}
use xyncra_server.Tests.Engine.{list_engine, list_engine-IsSql, list_engine-IsUp}
use xyncra_server.Tests.Calls.{call, waiting, broadcast_env}

abbrev env : ResumeEnv
env = record {
  sql = list_engine;
  clock = λ n. 9;
  has_remote_callings = true;
  enqueue = λ p. ok tt;
  broadcast = broadcast_env;
  sidecar = none;
  client = none;
}

abbrev params : AgentResumeParams
params = record {
  id = "c1";
  success = true;
  result = "sunny";
  error_message = "";
  agent_id = "another";
}

abbrev payload : AgentResumeTaskPayload
payload = record {
  conversation_id = "room";
  checkpoint_id = "k";
  agent_id = "bob";
  sender_id = "";
  device_id = "";
  cancelled_by = "";
  message_id = 4;
}

others :
    (x : RemoteCalling)
    → In x waiting.remote_callings
    → is_awaited "k" x ≡ true
    → str_eq x.id "c1" ≡ false
    → is_overdue 9 x ≡ true
others x (inl same) waits other = cc (same, other)
others x (inr (inl same)) waits other = rw same refl
others x (inr (inr m)) waits other = absurd m

handle_agent_resume_last_example :
    In
      (agent_resume (resume_payload env (call "c1" none)))
      (handle_agent_resume env (some params) waiting).tasks
unfolding get_by_id found
handle_agent_resume_last_example =
    handle_agent_resume_last env list_engine-IsSql list_engine-IsUp (call "c1" none) params waiting
      (record { named = refl; small_result = refl; small_message = refl }) refl refl refl refl
      others refl

resumes : In (agent_resume payload) (handle_agent_resume env (some params) waiting).tasks
unfolding handle_agent_resume get_by_id found resolve_result settled mark_expired_by_checkpoint
    count_pending_by_checkpoint resume_payload
resumes = inl refl

handle_agent_resume-Queued_example :
    Queued env "c1" payload waiting (handle_agent_resume env (some params) waiting)
handle_agent_resume-Queued_example =
    handle_agent_resume-Queued env list_engine-IsSql (λ n. list_engine-IsSql) params waiting payload
      resumes

handle_agent_resume_once_example :
    ¬ In
      (agent_resume payload)
      (handle_agent_resume env
        (some params)
        (handle_agent_resume env (some params) waiting).tables).tasks
handle_agent_resume_once_example =
    handle_agent_resume_once env list_engine-IsSql (λ n. list_engine-IsSql) env list_engine-IsSql
      (λ n. list_engine-IsSql) params params waiting
      (handle_agent_resume env (some params) waiting).tables payload payload refl resumes here

abbrev cancel_env : CancelEnv
cancel_env = record {
  sql = list_engine;
  now = 9;
  has_remote_callings = true;
  enqueue = λ p. ok tt;
  broadcast = broadcast_env;
  user_id = "ann";
  device_id = "phone";
}

abbrev cancel_params : CancelRemoteCallsParams
cancel_params = record { checkpoint_id = "k"; reason = "enough" }

cancels : (handle_cancel_remote_calls cancel_env (some cancel_params) waiting).result ≡ ok 2
unfolding handle_cancel_remote_calls get_pending_by_checkpoint get_conversation conversation_found
    conversation_members contains_user_or_agent_base cancel_by_checkpoint
    count_pending_by_checkpoint sort broadcast_conversation_update transaction allocate
    get_latest_seq create
cancels = refl

handle_cancel_remote_calls-CalledOff_example :
    CalledOff cancel_env cancel_params waiting
      (handle_cancel_remote_calls cancel_env (some cancel_params) waiting)
      2
handle_cancel_remote_calls-CalledOff_example =
    handle_cancel_remote_calls-CalledOff cancel_env list_engine-IsSql (λ n. list_engine-IsSql)
      cancel_params waiting 2 cancels
