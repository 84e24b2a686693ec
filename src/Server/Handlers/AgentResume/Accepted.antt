-- ===== src/Server/Handlers/AgentResume/Accepted.antt =====
-- internal/handler/agent_resume.go: the requests that reach the store, and the call that they name.
use xyncra_server.Common.{
  ◌≡◌, refl, inl, inr, String, ◌||◌, Option, none, some, In, str_eq, ltb, eq_iff, Bool-cases,
}
use Prim.Native.String.{len}
use xyncra_server.Fault.{ok, bind-ok}
use xyncra_server.Sql.{IsSql}
use xyncra_server.Server.Model.{RemoteCalling, Tables}
use xyncra_server.Server.Stores.RemoteCallings.{found, get_by_id}
use xyncra_server.Server.Handlers.Tasks.{Task}
use xyncra_server.Server.Handlers.AgentResume.{
  AgentResumeParams, ResumeEnv, max_result_size, max_error_message_size, fetched,
  handle_agent_resume,
}

module _ (env : ResumeEnv) (legal : IsSql env.sql) where
  pub get_by_id-In :
      (id : String) (db : Tables) (rc : RemoteCalling)
      → get_by_id env.sql id db ≡ ok rc
      → In rc db.remote_callings × (rc.id ≡ id)
  unfolding get_by_id found
  get_by_id-In id db rc e =
      let (o, first, rest) =
        bind-ok (env.sql.first RemoteCalling (λ r. str_eq r.id id) db.remote_callings) found rc e in
      go o first rest
    where
      go :
          (o : Option RemoteCalling)
          → env.sql.first RemoteCalling (λ r. str_eq r.id id) db.remote_callings ≡ ok o
          → found o ≡ ok rc
          → In rc db.remote_callings × (rc.id ≡ id)
      go none first e = cc
      go (some r) first e =
          let same : rc ≡ r = cc e in
          let (m, named) =
            legal.first_answer RemoteCalling (λ r. str_eq r.id id) db.remote_callings (some r)
              first in
          rw same (m, (eq_iff r.id id).0 named)

  -- The checks of the parameters.
  pub accepted :
      (params : AgentResumeParams) (db : Tables) (t : Task)
      → In t (handle_agent_resume env (some params) db).tasks
      → handle_agent_resume env (some params) db
        ≡ fetched env params db (get_by_id env.sql params.id db)
  unfolding handle_agent_resume
  accepted params db t m = elim (Bool-cases (str_eq params.id "" || str_eq params.agent_id "")) [
    | inl b ↦ absurd (rw b at m)
    | inr b ↦ elim (Bool-cases (ltb max_result_size (len params.result))) [
      | inl c ↦ absurd (rw (b, c) at m)
      | inr c ↦ elim (Bool-cases (ltb max_error_message_size (len params.error_message))) [
        | inl d ↦ absurd (rw (b, c, d) at m)
        | inr d ↦ elim (Bool-cases env.has_remote_callings) [
          | inl e ↦ rw (b, c, d, e) refl
          | inr e ↦ absurd (rw (b, c, d, e) at m)
        ]
      ]
    ]
  ]
