-- ===== src/Server/Handlers/AgentResume/Queued.antt =====
-- internal/handler/agent_resume.go: what holds when the handler queues a resume.
use xyncra_server.Common.{
  ℕ, ◌≡◌, refl, ap, ◌∙◌, ◌⊎◌, inl, inr, String, true, false, none, some, List, [], ◌∷◌, In, str_eq,
  ◌==◌, Bool-cases, arith,
}
use xyncra_server.Fault.{Fault, not_found, conflict, Result, ok, err, Result-cases}
use xyncra_server.Sql.{IsSql}
use xyncra_server.Server.Model.{UserUpdate, RemoteCalling, Conversation, Tables}
use xyncra_server.Server.Stores.Messages.{get_conversation}
use xyncra_server.Server.Stores.RemoteCallings.{
  status_pending, is_awaited, is_overdue, get_by_id, mark_expired, count_pending_by_checkpoint,
}
use xyncra_server.Server.Stores.RemoteCallings.Counted.{none_pending-count}
use xyncra_server.Server.Handlers.Tasks.{
  Task, AgentResumeTaskPayload, deliver, recipients, agent_resume,
}
use xyncra_server.Server.Handlers.Members.{conversation_members}
use xyncra_server.Server.Handlers.Broadcast.{broadcast_conversation_update}
use xyncra_server.Server.Handlers.Broadcast.Told.{broadcast-Told}
use xyncra_server.Server.Handlers.AgentResume.Accepted.{accepted, get_by_id-In}
use xyncra_server.Server.Handlers.AgentResume.{
  AgentResumeParams, ResumeEnv, Answer, resume_payload, announced, queued, counted, siblings,
  resolved, resolve, timed_out, fetched, handle_agent_resume,
}

-- The handler has queued the resume of a stored call: the call was pending and in time, no call of its
-- checkpoint is left pending, and the task carries what is stored of the call.
pub record Queued (env : ResumeEnv) (id : String) (p : AgentResumeTaskPayload) (db : Tables)
    (a : Answer) : Type 0 where
  pub call : RemoteCalling
  pub stored : In call db.remote_callings
  pub named : call.id ≡ id
  pub pending : str_eq call.status status_pending ≡ true
  pub in_time : is_overdue (env.clock 0) call ≡ false
  pub task : p ≡ resume_payload env call
  pub none_pending :
      (r : RemoteCalling) → In r a.tables.remote_callings → is_awaited call.checkpoint_id r ≡ false
  pub reply : a.result ≡ ok (record { status = "queued"; message = none; pending_count = none })

module _ (env : ResumeEnv) (legal : IsSql env.sql)
    (all_legal : (n : ℕ) → IsSql (env.broadcast.sqls n)) where
  abbrev Closes : RemoteCalling → AgentResumeTaskPayload → Answer → Type 0
  Closes rc p a =
      (p ≡ resume_payload env rc)
      × ((r : RemoteCalling)
          → In r a.tables.remote_callings
          → is_awaited rc.checkpoint_id r ≡ false)
      × (a.result ≡ ok (record { status = "queued"; message = none; pending_count = none }))

  no_resume :
      (ts : List Task) (us : List UserUpdate) (p : AgentResumeTaskPayload)
      → (ts ≡ []) ⊎ (ts ≡ deliver (recipients "conversation" us) ∷ [])
      → In (agent_resume p) ts
      → ⊥
  no_resume [] us p h m = m
  no_resume (t ∷ ts) us p (inl e) m = cc e
  no_resume (t ∷ ts) us p (inr e) (inl same) = cc (e, same)
  no_resume (t ∷ ts) us p (inr e) (inr m) = let none_left : ts ≡ [] = cc e in rw none_left at m

  pub announced-keeps :
      (rc : RemoteCalling) (db : Tables) (conv : Result Fault Conversation)
      → ((announced env rc db conv).0.remote_callings ≡ db.remote_callings)
        × ((p : AgentResumeTaskPayload) → In (agent_resume p) (announced env rc db conv).1 → ⊥)
  unfolding announced
  announced-keeps rc db (err f) = (refl, λ p m. m)
  announced-keeps rc db (ok conv) =
      elim (Result-cases (
        broadcast_conversation_update env.broadcast rc.conversation_id (conversation_members conv)
          "update" db)) [
            | inl ((db', tasks), done) ↦
                let told =
                  broadcast-Told env.broadcast all_legal rc.conversation_id
                    (conversation_members conv) "update" db db' tasks done in
                rw (announced, done)
                  (
                    ap (λ (d : Tables). d.remote_callings) told.appended,
                    λ p m. no_resume tasks told.updates p told.delivered m,
                  )
            | inr (f, failed) ↦ rw (announced, failed) (refl, λ p m. m)
          ]

  pub queued-keeps :
      (rc : RemoteCalling) (db : Tables) (r : Result Fault Unit)
      → (queued env rc db r).tables.remote_callings ≡ db.remote_callings
  unfolding queued
  queued-keeps rc db (err f) = refl
  queued-keeps rc db (ok u) =
      (announced-keeps rc db (get_conversation env.sql rc.conversation_id db)).0

  queued-task :
      (rc : RemoteCalling) (db : Tables) (r : Result Fault Unit) (p : AgentResumeTaskPayload)
      → In (agent_resume p) (queued env rc db r).tasks
      → (p ≡ resume_payload env rc)
        × ((queued env rc db r).result
            ≡ ok (record { status = "queued"; message = none; pending_count = none }))
  unfolding queued
  queued-task rc db (err f) p m = absurd m
  queued-task rc db (ok u) p (inl same) = (cc same, refl)
  queued-task rc db (ok u) p (inr m) =
      absurd ((announced-keeps rc db (get_conversation env.sql rc.conversation_id db)).1 p m)

  counted-Queued :
      (rc : RemoteCalling) (db : Tables) (r : Result Fault ℕ) (p : AgentResumeTaskPayload)
      → count_pending_by_checkpoint env.sql rc.checkpoint_id db ≡ r
      → In (agent_resume p) (counted env rc db r).tasks
      → Closes rc p (counted env rc db r)
  unfolding counted
  counted-Queued rc db (err f) p counts m = absurd m
  counted-Queued rc db (ok n) p counts m = elim (Bool-cases (n == 0)) [
    | inl zero ↦
        let r = env.enqueue (resume_payload env rc) in
        let (task, reply) = queued-task rc db r p (rw zero at m) in
        let none_left =
          none_pending-count env.sql legal rc.checkpoint_id db
            (counts ∙ ap (λ (k : ℕ). count_is k) (is_zero n zero)) in
        rw (counted, zero) (task, rw (queued-keeps rc db r) none_left, reply)
    | inr some_left ↦ absurd (rw some_left at m)
  ]
    where
      count_is : ℕ → Result Fault ℕ
      count_is k = ok k

      is_zero : (n : ℕ) → (n == 0) ≡ true → n ≡ 0
      is_zero n h = ground arith

  resolved-Queued :
      (rc : RemoteCalling) (db : Tables) (r : Result Fault Tables) (p : AgentResumeTaskPayload)
      → In (agent_resume p) (resolved env rc db r).tasks
      → Closes rc p (resolved env rc db r) × ((db' : Tables) × (r ≡ ok db'))
  unfolding resolved
  resolved-Queued rc db (err conflict) p m = absurd m
  resolved-Queued rc db (err _) p m = absurd m
  resolved-Queued rc db (ok db') p m = (
    counted-Queued rc (siblings env rc db')
        (count_pending_by_checkpoint env.sql rc.checkpoint_id (siblings env rc db')) p refl m,
    (db', refl),
  )

  abbrev Resumes :
      AgentResumeParams → AgentResumeTaskPayload → Tables → Answer → RemoteCalling → Type 0
  Resumes params p db a rc =
      (str_eq rc.status status_pending ≡ true)
      × (is_overdue (env.clock 0) rc ≡ false)
      × Closes rc p a
      × ((db' : Tables) × (resolve env params rc db ≡ ok db'))

  pub fetched-Queued :
      (params : AgentResumeParams) (db : Tables) (r : Result Fault RemoteCalling)
      (p : AgentResumeTaskPayload)
      → In (agent_resume p) (fetched env params db r).tasks
      → (rc : RemoteCalling) × (r ≡ ok rc) × Resumes params p db (fetched env params db r) rc
  unfolding fetched timed_out
  fetched-Queued params db (err not_found) p m = absurd m
  fetched-Queued params db (err _) p m = absurd m
  fetched-Queued params db (ok rc) p m = elim (Bool-cases (str_eq rc.status status_pending)) [
    | inr ended ↦ absurd (rw ended at m)
    | inl waits ↦ elim (Bool-cases (is_overdue (env.clock 0) rc)) [
      | inl late ↦ elim (Result-cases (mark_expired env.sql rc.id db)) [
        | inl (db', done) ↦ absurd (rw (waits, late, done) at m)
        | inr (f, failed) ↦ absurd (rw (waits, late, failed) at m)
      ]
      | inr in_time ↦
          let (closes, ended) =
            resolved-Queued rc db (resolve env params rc db) p (rw (waits, in_time) at m) in
          (rc, refl, (waits, in_time, rw (fetched, waits, in_time) closes, ended))
    ]
  ]

  -- When the handler queues the resume of an agent, the stored call with the id of the request was
  -- pending and not overdue, no call of its checkpoint is pending in the tables that the handler leaves,
  -- the task carries the stored conversation, checkpoint, agent and message, whatever agent the
  -- request named, and the reply says `queued`.
  pub handle_agent_resume-Queued :
      (params : AgentResumeParams) (db : Tables) (p : AgentResumeTaskPayload)
      → In (agent_resume p) (handle_agent_resume env (some params) db).tasks
      → Queued env params.id p db (handle_agent_resume env (some params) db)
  handle_agent_resume-Queued params db p m =
      let same = accepted env legal params db (agent_resume p) m in
      let (rc, got, (waits, in_time, (task, none_left, reply), _)) =
        fetched-Queued params db (get_by_id env.sql params.id db) p (rw same at m) in
      let (stored, named) = get_by_id-In env legal params.id db rc got in
      rw same (record {
        call = rc;
        stored = stored;
        named = named;
        pending = waits;
        in_time = in_time;
        task = task;
        none_pending = none_left;
        reply = reply;
      })
