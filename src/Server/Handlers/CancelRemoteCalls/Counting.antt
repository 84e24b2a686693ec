-- ===== src/Server/Handlers/CancelRemoteCalls/Counting.antt =====
-- internal/handler/cancel_remote_calls.go: the tables and the tasks of the last steps.
use xyncra_server.Common.{
  ℕ, ◌≡◌, refl, ap, inl, inr, String, false, List, [], ◌∷◌, ◌++◌, In, str_eq, Bool-cases,
}
use xyncra_server.Fault.{Fault, Result, ok, err, Result-cases}
use xyncra_server.Sql.{IsSql}
use xyncra_server.Server.Model.{Tables}
use xyncra_server.Server.Handlers.Tasks.{Task, AgentResumeTaskPayload, agent_resume}
use xyncra_server.Server.Handlers.Broadcast.{broadcast_conversation_update}
use xyncra_server.Server.Handlers.Broadcast.Told.{broadcast-Told}
use xyncra_server.Server.Handlers.CancelRemoteCalls.{CancelEnv, announced, queued, counted}

In-last : (t : Task) (ts : List Task) → In t (ts ++ t ∷ [])
In-last t [] = inl refl
In-last t (x ∷ ts) = inr (In-last t ts)

module _ (env : CancelEnv) (legal : IsSql env.sql)
    (all_legal : (n : ℕ) → IsSql (env.broadcast.sqls n)) where
  pub announced-keeps :
      (conversation_id : String) (members : List String) (db : Tables)
      → (announced env conversation_id members db).0.remote_callings ≡ db.remote_callings
  unfolding announced
  announced-keeps conversation_id members db =
      elim (Result-cases
        (broadcast_conversation_update env.broadcast conversation_id members "update" db)) [
          | inl ((db', tasks), done) ↦
              let told =
                broadcast-Told env.broadcast all_legal conversation_id members "update" db db' tasks
                  done in
              rw (announced, done) (ap (λ (d : Tables). d.remote_callings) told.appended)
          | inr (f, failed) ↦ rw (announced, failed) refl
        ]

  queued_lem :
      (p : AgentResumeTaskPayload) (count n : ℕ) (db : Tables) (tasks : List Task)
      (r : Result Fault Unit)
      → (queued env p count db tasks r).result ≡ ok n
      → (n ≡ count) × In (agent_resume p) (queued env p count db tasks r).tasks
  unfolding queued
  queued_lem p count n db tasks (err f) e = cc
  queued_lem p count n db tasks (ok u) e = (cc e, In-last (agent_resume p) tasks)

  queued-tables :
      (p : AgentResumeTaskPayload) (count : ℕ) (db : Tables) (tasks : List Task)
      (r : Result Fault Unit)
      → (queued env p count db tasks r).tables ≡ db
  unfolding queued
  queued-tables p count db tasks (err f) = refl
  queued-tables p count db tasks (ok u) = refl

  pub counted_lem :
      (p : AgentResumeTaskPayload) (count n : ℕ) (db : Tables) (tasks : List Task)
      (r : Result Fault ℕ)
      → ((k : ℕ) → r ≡ ok k → k ≡ 0)
      → (counted env p count db tasks r).result ≡ ok n
      → (n ≡ count)
        × ((counted env p count db tasks r).tables ≡ db)
        × (str_eq p.conversation_id "" ≡ false
            → In (agent_resume p) (counted env p count db tasks r).tasks)
  unfolding counted
  counted_lem p count n db tasks (err f) none_left e = cc
  counted_lem p count n db tasks (ok k) none_left e =
      elim (Bool-cases (str_eq p.conversation_id "")) [
        | inl empty ↦
            rw (counted, none_left k refl, empty)
              (cc (rw (none_left k refl, empty) at e), refl, λ h. cc h)
        | inr given ↦
            let done = env.enqueue p in
            let (same, sent) =
              queued_lem p count n db tasks done (rw (none_left k refl, given) at e) in
            rw (counted, none_left k refl, given)
              (same, queued-tables p count db tasks done, λ h. sent)
      ]
