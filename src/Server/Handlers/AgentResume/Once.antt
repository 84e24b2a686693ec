-- ===== src/Server/Handlers/AgentResume/Once.antt =====
-- internal/handler/agent_resume.go: a call resumes its agent at most once.
use xyncra_server.Common.{
  ℕ, ◌≡◌, refl, sym, inl, inr, true, false, some, String, In, str_eq, ◌==◌, Bool-cases,
}
use xyncra_server.Fault.{Fault, Result, ok, err, Result-cases}
use xyncra_server.Sql.{IsSql}
use xyncra_server.Server.Model.{RemoteCalling, Tables}
use xyncra_server.Server.Stores.RemoteCallings.{
  status_pending, is_overdue, get_by_id, mark_expired_by_checkpoint, count_pending_by_checkpoint,
}
use xyncra_server.Server.Stores.RemoteCallings.Evolves.{Changed, Changed-refl}
use xyncra_server.Server.Stores.RemoteCallings.Steps.{Reach, Reach-Changed, overdue, Step-Changed}
use xyncra_server.Server.Stores.RemoteCallings.Final.{Changed-IsSettled}
use xyncra_server.Server.Stores.RemoteCallings.Ends.{
  Ends, with_a_result, with_an_error, Ends-IsSettled, IsSettled-Ends,
}
use xyncra_server.Server.Handlers.Tasks.{AgentResumeTaskPayload, agent_resume}
use xyncra_server.Server.Handlers.AgentResume.Accepted.{accepted, get_by_id-In}
use xyncra_server.Server.Handlers.AgentResume.Queued.{fetched-Queued, queued-keeps}
use xyncra_server.Server.Handlers.AgentResume.{
  AgentResumeParams, ResumeEnv, resume_payload, counted, siblings, resolved, resolve, fetched,
  handle_agent_resume,
}

module _ (env : ResumeEnv) (legal : IsSql env.sql)
    (all_legal : (n : ℕ) → IsSql (env.broadcast.sqls n)) where
  counted-keeps :
      (rc : RemoteCalling) (db : Tables) (r : Result Fault ℕ)
      → (counted env rc db r).tables.remote_callings ≡ db.remote_callings
  unfolding counted
  counted-keeps rc db (err f) = refl
  counted-keeps rc db (ok n) = elim (Bool-cases (n == 0)) [
    | inl zero ↦
        rw (counted, zero)
          (queued-keeps env legal all_legal rc db (env.enqueue (resume_payload env rc)))
    | inr some_left ↦ rw (counted, some_left) refl
  ]

  siblings-Changed :
      (rc : RemoteCalling) (db : Tables)
      → Changed db.remote_callings (siblings env rc db).remote_callings
  unfolding siblings
  siblings-Changed rc db =
      elim (Result-cases (mark_expired_by_checkpoint env.sql rc.checkpoint_id (env.clock 2) db)) [
        | inl ((db', n), done) ↦
            rw (siblings, done)
              (Step-Changed env.sql legal db db' (overdue rc.checkpoint_id (env.clock 2) n done))
        | inr (f, failed) ↦ rw (siblings, failed) (Changed-refl db.remote_callings)
      ]

  resolve-Ends :
      (params : AgentResumeParams) (rc : RemoteCalling) (db db' : Tables)
      → resolve env params rc db ≡ ok db'
      → Ends env.sql rc.id db db'
  unfolding resolve
  resolve-Ends params rc db db' e = elim (Bool-cases params.success) [
    | inl good ↦ with_a_result (env.clock 1) params.result (rw good at e)
    | inr bad ↦ with_an_error (env.clock 1) params.error_message (rw bad at e)
  ]

  resolved-Changed :
      (rc : RemoteCalling) (db db' : Tables) (r : Result Fault Tables)
      → r ≡ ok db'
      → Changed db'.remote_callings (resolved env rc db r).tables.remote_callings
  unfolding resolved
  resolved-Changed rc db db' r e =
      let later = siblings env rc db' in
      rw
        (
          e,
          resolved,
          counted-keeps rc later (count_pending_by_checkpoint env.sql rc.checkpoint_id later),
        )
        (siblings-Changed rc db')

  fetched-Changed :
      (params : AgentResumeParams) (rc : RemoteCalling) (db db' : Tables)
      → str_eq rc.status status_pending ≡ true
      → is_overdue (env.clock 0) rc ≡ false
      → resolve env params rc db ≡ ok db'
      → Changed db'.remote_callings (fetched env params db (ok rc)).tables.remote_callings
  unfolding fetched
  fetched-Changed params rc db db' waits in_time done =
      rw (fetched, waits, in_time) (resolved-Changed rc db db' (resolve env params rc db) done)

  same_call :
      (a b : String) (db db' : Tables) → a ≡ b → Ends env.sql a db db' → Ends env.sql b db db'
  same_call a b db db' same h = rw (sym same) h

  -- A request that resumes an agent has ended the call, and changed the other calls at most.
  settles :
      (params : AgentResumeParams) (db : Tables) (p : AgentResumeTaskPayload)
      → In (agent_resume p) (handle_agent_resume env (some params) db).tasks
      → (db' : Tables) × Ends env.sql params.id db db'
        × Changed db'.remote_callings
            (handle_agent_resume env (some params) db).tables.remote_callings
  settles params db p m =
      let same = accepted env legal params db (agent_resume p) m in
      let (rc, got, (waits, in_time, _, (db', done))) =
        fetched-Queued env legal all_legal params db (get_by_id env.sql params.id db) p
          (rw same at m) in
      go rc db' got waits in_time done same
    where
      go :
          (rc : RemoteCalling) (db' : Tables)
          → get_by_id env.sql params.id db ≡ ok rc
          → str_eq rc.status status_pending ≡ true
          → is_overdue (env.clock 0) rc ≡ false
          → resolve env params rc db ≡ ok db'
          → handle_agent_resume env (some params) db
            ≡ fetched env params db (get_by_id env.sql params.id db)
          → (db' : Tables) × Ends env.sql params.id db db'
            × Changed db'.remote_callings
                (handle_agent_resume env (some params) db).tables.remote_callings
      go rc db' got waits in_time done same =
          let (_, named) = get_by_id-In env legal params.id db rc got in
          (
            db',
            same_call rc.id params.id db db' named (resolve-Ends params rc db db' done),
            rw (same, got) (fetched-Changed params rc db db' waits in_time done),
          )

-- A call resumes its agent at most once: after a request for it that queued a resume, whatever the
-- operations do to the calls in between, no later request for it queues one, though the engine,
-- the clock, the client and the rest of what the handler is given may differ.
pub handle_agent_resume_once :
    (env : ResumeEnv) (legal : IsSql env.sql) (all_legal : (n : ℕ) → IsSql (env.broadcast.sqls n))
    (env' : ResumeEnv) (legal' : IsSql env'.sql)
    (all_legal' : (n : ℕ) → IsSql (env'.broadcast.sqls n)) (params params' : AgentResumeParams)
    (db later : Tables) (p p' : AgentResumeTaskPayload)
    → params'.id ≡ params.id
    → In (agent_resume p) (handle_agent_resume env (some params) db).tasks
    → Reach env.sql (handle_agent_resume env (some params) db).tables later
    → ¬ In (agent_resume p') (handle_agent_resume env' (some params') later).tasks
handle_agent_resume_once env legal all_legal env' legal' all_legal' params params' db later p p'
      same m path m' =
    let a = handle_agent_resume env (some params) db in
    let (d, ends, change) = settles env legal all_legal params db p m in
    let (d', ends', _) = settles env' legal' all_legal' params' later p' m' in
    let settled =
      Changed-IsSettled params.id d.remote_callings a.tables.remote_callings change
        (Ends-IsSettled env.sql legal params.id db d ends) in
    let still =
      Changed-IsSettled params.id a.tables.remote_callings later.remote_callings
        (Reach-Changed env.sql legal a.tables later path) settled in
    IsSettled-Ends env'.sql legal' params.id later d' still (rw (sym same) ends')
