-- ===== src/Server/Handlers/AgentResume/Live.antt =====
-- internal/handler/agent_resume.go: the end of the last pending call of a checkpoint resumes the agent.
use xyncra_server.Common.{
  and_right, ℕ, ◌≡◌, refl, ap, sym, ◌∙◌, inl, inr, ◌&&◌, Bool, true, false, some, List, In, str_eq,
  ◌==◌, ◌||◌, ltb, keep, length, Bool-cases, arith, eq_iff, if◌then◌else◌,
}
use Prim.Native.String.{len}
use xyncra_server.Fault.{ok}
use xyncra_server.Sql.{IsSql, IsUp}
use xyncra_server.Sql.Rows.{In-update_rows, none_counted}
use xyncra_server.Server.Model.{RemoteCalling, Tables}
use xyncra_server.Server.Stores.RemoteCallings.{
  status_pending, is_live, is_pending, is_open, is_awaited, is_overdue, with_result, with_error,
  expired, settled, get_by_id, resolve_result, resolve_error, mark_expired_by_checkpoint,
  count_pending_by_checkpoint,
}
use xyncra_server.Server.Stores.RemoteCallings.Evolves.{and-and_false}
use xyncra_server.Server.Stores.RemoteCallings.Counted.{count-none_pending}
use xyncra_server.Server.Handlers.Tasks.{agent_resume}
use xyncra_server.Server.Handlers.AgentResume.Accepted.{get_by_id-In}
use xyncra_server.Server.Handlers.AgentResume.{
  AgentResumeParams, ResumeEnv, max_result_size, max_error_message_size, resume_payload, counted,
  siblings, queued, resolved, resolve, fetched, handle_agent_resume,
}

-- What the checks of the parameters let through.
pub record IsAccepted (params : AgentResumeParams) : Type 0 where
  pub named : (str_eq params.id "" || str_eq params.agent_id "") ≡ false
  pub small_result : ltb max_result_size (len params.result) ≡ false
  pub small_message : ltb max_error_message_size (len params.error_message) ≡ false

first_false : (a b : Bool) → (a && b) ≡ false → b ≡ true → a ≡ false
first_false a b h k = ground arith

module _ (env : ResumeEnv) (legal : IsSql env.sql) (up : IsUp env.sql) (rc : RemoteCalling) where
  -- A call that is awaited after the end of `rc` was awaited before and is another call.
  abbrev Others : Tables → Tables → Type 0
  Others db db' =
      (x : RemoteCalling)
      → In x db'.remote_callings
      → is_awaited rc.checkpoint_id x ≡ true
      → In x db.remote_callings × (is_open rc.id x ≡ false)

  ended_ok :
      (f : RemoteCalling → RemoteCalling) (db : Tables)
      → ((r : RemoteCalling) → is_awaited rc.checkpoint_id (f r) ≡ false)
      → In rc db.remote_callings
      → is_open rc.id rc ≡ true
      → (rows : List RemoteCalling) × (n : ℕ) × (env.sql.update RemoteCalling
            (is_open rc.id)
            f
            db.remote_callings
          ≡ ok (rows, n))
        × ((n == 0) ≡ false)
        × Others db (record db { remote_callings = rows })
  ended_ok f db off m opened =
      let (rows, n, done) = up.update_ok RemoteCalling (is_open rc.id) f db.remote_callings in
      let (changed, counts) =
        legal.update_answer RemoteCalling (is_open rc.id) f db.remote_callings rows n done in
      (
        rows,
        n,
        done,
        some_rows n counts,
        rw changed (λ x mx waits.
            let (y, my, was) = In-update_rows (is_open rc.id) f db.remote_callings x mx in
            kept x y my was waits),
      )
    where
      kept :
          (x y : RemoteCalling)
          → In y db.remote_callings
          → x ≡ (if is_open rc.id y then f y else y)
          → is_awaited rc.checkpoint_id x ≡ true
          → In x db.remote_callings × (is_open rc.id x ≡ false)
      kept x y my was waits = elim (Bool-cases (is_open rc.id y)) [
        | inl opened ↦
            let same : x ≡ f y = rw opened at was in
            absurd (cc (waits, off y, ap (is_awaited rc.checkpoint_id) same))
        | inr closed ↦ let same : x ≡ y = rw closed at was in rw same (my, closed)
      ]

      some_rows : (n : ℕ) → n ≡ length (keep (is_open rc.id) db.remote_callings) → (n == 0) ≡ false
      some_rows n counts = elim (Bool-cases (n == 0)) [
        | inl zero ↦ absurd (
            cc (
              opened,
              none_counted (is_open rc.id) db.remote_callings (sym counts ∙ is_zero n zero) rc m,
            ))
        | inr h ↦ h
      ]
        where
          is_zero : (n : ℕ) → (n == 0) ≡ true → n ≡ 0
          is_zero n h = ground arith

  resolve_ok :
      (params : AgentResumeParams) (db : Tables)
      → In rc db.remote_callings
      → is_open rc.id rc ≡ true
      → (db' : Tables) × (resolve env params rc db ≡ ok db') × Others db db'
  unfolding resolve resolve_result resolve_error settled
  resolve_ok params db m opened = elim (Bool-cases params.success) [
    | inl good ↦
        let f = with_result (env.clock 1) params.result in
        let (rows, n, done, counts, others) =
          ended_ok f db (λ r. and-and_false (str_eq r.checkpoint_id rc.checkpoint_id) (is_live r)) m
            opened in
        (record db { remote_callings = rows }, rw (resolve, good, done, counts) refl, others)
    | inr bad ↦
        let f = with_error (env.clock 1) params.error_message in
        let (rows, n, done, counts, others) =
          ended_ok f db (λ r. and-and_false (str_eq r.checkpoint_id rc.checkpoint_id) (is_live r)) m
            opened in
        (record db { remote_callings = rows }, rw (resolve, bad, done, counts) refl, others)
  ]

  siblings-none_pending :
      (db : Tables)
      → ((x : RemoteCalling)
          → In x db.remote_callings
          → is_awaited rc.checkpoint_id x ≡ true
          → is_overdue (env.clock 2) x ≡ true)
      → (x : RemoteCalling) → In x (siblings env rc db).remote_callings
      → is_awaited rc.checkpoint_id x ≡ false
  unfolding siblings mark_expired_by_checkpoint
  siblings-none_pending db late x m =
      let p : RemoteCalling → Bool =
        λ r. is_awaited rc.checkpoint_id r && is_overdue (env.clock 2) r in
      let (rows, n, done) = up.update_ok RemoteCalling p expired db.remote_callings in
      let changed =
        (legal.update_answer RemoteCalling p expired db.remote_callings rows n done).0 in
      let (y, my, was) =
        In-update_rows p expired db.remote_callings x
          (rw (siblings, mark_expired_by_checkpoint, done, changed) at m) in
      off y my was (late y my)
    where
      off :
          (y : RemoteCalling)
          → In y db.remote_callings
          → x
            ≡ (if is_awaited rc.checkpoint_id y && is_overdue (env.clock 2) y then expired y else y)
          → (is_awaited rc.checkpoint_id y ≡ true → is_overdue (env.clock 2) y ≡ true)
          → is_awaited rc.checkpoint_id x ≡ false
      off y my was late = elim (Bool-cases (is_awaited rc.checkpoint_id y)) [
        | inl waits ↦
            let same : x ≡ expired y = rw (waits, late waits) at was in
            rw same (and-and_false (str_eq y.checkpoint_id rc.checkpoint_id) (is_live y))
        | inr other ↦ let same : x ≡ y = rw other at was in rw same other
      ]

  counted_ok :
      (db : Tables)
      → ((x : RemoteCalling) → In x db.remote_callings → is_awaited rc.checkpoint_id x ≡ false)
      → count_pending_by_checkpoint env.sql rc.checkpoint_id db ≡ ok 0
  unfolding count_pending_by_checkpoint
  counted_ok db h =
      let (n, done) = up.count_ok RemoteCalling (is_awaited rc.checkpoint_id) db.remote_callings in
      rw (count-none_pending env.sql legal rc.checkpoint_id db n h done) at done

  -- The last pending call of a checkpoint resumes its agent: where the queries and the updates succeed and
  -- the broker takes the task, a request that passes the checks and names a call that is pending and
  -- not overdue queues the resume of the call, if every other pending call of the checkpoint is
  -- overdue.
  pub handle_agent_resume_last :
      (params : AgentResumeParams) (db : Tables)
      → IsAccepted params
      → env.has_remote_callings ≡ true
      → get_by_id env.sql params.id db ≡ ok rc
      → is_pending rc ≡ true
      → is_overdue (env.clock 0) rc ≡ false
      → ((x : RemoteCalling)
          → In x db.remote_callings
          → is_awaited rc.checkpoint_id x ≡ true
          → str_eq x.id rc.id ≡ false
          → is_overdue (env.clock 2) x ≡ true)
      → env.enqueue (resume_payload env rc) ≡ ok tt
      → In (agent_resume (resume_payload env rc)) (handle_agent_resume env (some params) db).tasks
  unfolding handle_agent_resume fetched resolved counted queued resume_payload
  handle_agent_resume_last params db accepted has got waits in_time others taken =
      let (m, _) = get_by_id-In env legal params.id db rc got in
      let opened : is_open rc.id rc ≡ true = rw ((eq_iff rc.id rc.id).1 refl, waits) refl in
      let (db', done, old) = resolve_ok params db m opened in
      let none_left = siblings-none_pending db' (λ x mx waits.
        let (mx', closed) = old x mx waits in
        others x mx' waits (
          first_false (str_eq x.id rc.id) (is_pending x) closed
            (and_right (str_eq x.checkpoint_id rc.checkpoint_id) (is_pending x) waits))) in
      let zero = counted_ok (siblings env rc db') none_left in
      let status = and_right (is_live rc) (str_eq rc.status status_pending) waits in
      rw
        (
          accepted.named, accepted.small_result, accepted.small_message, has, got, fetched, status,
          in_time, resolved, done, counted, zero, queued, taken,
        )
        (inl refl)
