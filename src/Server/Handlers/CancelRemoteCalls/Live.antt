-- ===== src/Server/Handlers/CancelRemoteCalls/Live.antt =====
-- internal/handler/cancel_remote_calls.go: a cancellation that is answered.
use xyncra_server.Common.{
  ℕ, ◌≡◌, refl, sym, ◌∙◌, inl, inr, String, true, false, ◌||◌, some, List, [], ◌∷◌, In, str_eq, ltb,
  keep, length, Bool-cases,
}
use Prim.Native.String.{len}
use xyncra_server.Fault.{Fault, not_found, Result, ok, err}
use xyncra_server.Sql.{IsSql}
use xyncra_server.Server.Model.{RemoteCalling, Conversation, Tables}
use xyncra_server.Server.Stores.Messages.{get_conversation}
use xyncra_server.Server.Stores.RemoteCallings.{
  is_awaited, get_pending_by_checkpoint, cancel_by_checkpoint, count_pending_by_checkpoint,
}
use xyncra_server.Server.Stores.RemoteCallings.Counted.{
  cancel_by_checkpoint-Cancelled, count-none_pending,
}
use xyncra_server.Server.Handlers.Tasks.{agent_resume}
use xyncra_server.Server.Handlers.Members.{conversation_members, contains_user_or_agent_base}
use xyncra_server.Server.Handlers.CancelRemoteCalls.Counting.{announced-keeps, counted_lem}
use xyncra_server.Server.Handlers.CancelRemoteCalls.{
  CancelRemoteCallsParams, CancelEnv, Answer, max_reason_length, cancel_payload, announced,
  cancelled, with_conversation, existing, handle_cancel_remote_calls,
}

-- The pending calls of the checkpoint are cancelled and counted; the caller is a member of the stored
-- conversation of one of them; the resume of the agent of one of them is queued.
pub record CalledOff (env : CancelEnv) (params : CancelRemoteCallsParams) (db : Tables) (a : Answer)
    (n : ℕ) : Type 0 where
  pub count : n ≡ length (keep (is_awaited params.checkpoint_id) db.remote_callings)
  pub none_pending :
      (r : RemoteCalling)
      → In r a.tables.remote_callings
      → is_awaited params.checkpoint_id r ≡ false
  pub named : RemoteCalling
  pub named_stored : In named db.remote_callings
  pub named_pending : is_awaited params.checkpoint_id named ≡ true
  pub conversation : Conversation
  pub read : get_conversation env.sql named.conversation_id db ≡ ok conversation
  pub member : contains_user_or_agent_base (conversation_members conversation) env.user_id ≡ true
  pub call : RemoteCalling
  pub stored : In call db.remote_callings
  pub pending : is_awaited params.checkpoint_id call ≡ true
  pub resumed :
      str_eq call.conversation_id "" ≡ false
      → In
          (agent_resume
            (cancel_payload env params.checkpoint_id call.conversation_id call.agent_id))
          a.tasks

module _ (env : CancelEnv) (legal : IsSql env.sql)
    (all_legal : (n : ℕ) → IsSql (env.broadcast.sqls n)) where
  module _ (params : CancelRemoteCallsParams) (db : Tables) (n : ℕ) where
    abbrev Answered : Answer → Type 0
    Answered a = CalledOff env params db a n

    cancelled-CalledOff :
        (call : RemoteCalling) (conv : Conversation)
        (r : Result Fault (Tables × ℕ × String × String))
        → In call db.remote_callings
        → is_awaited params.checkpoint_id call ≡ true
        → get_conversation env.sql call.conversation_id db ≡ ok conv
        → contains_user_or_agent_base (conversation_members conv) env.user_id ≡ true
        → cancel_by_checkpoint env.sql env.now params.checkpoint_id params.reason env.user_id db ≡ r
        → (cancelled env params.checkpoint_id call.conversation_id
            (conversation_members conv)
            db
            r).result
          ≡ ok n
        → Answered (
            cancelled env params.checkpoint_id call.conversation_id
              (conversation_members conv)
              db
              r)
    unfolding cancelled cancel_payload
    cancelled-CalledOff call conv (err f) m waits got member done e = cc
    cancelled-CalledOff call conv (ok (db', count, rc_conversation, rc_agent)) m waits got member
          done e =
        let h =
          cancel_by_checkpoint-Cancelled env.sql legal env.now params.checkpoint_id params.reason
            env.user_id db db' count rc_conversation rc_agent done in
        let (later, tasks) = announced env call.conversation_id (conversation_members conv) db' in
        let kept =
          announced-keeps env legal all_legal call.conversation_id (conversation_members conv)
            db' in
        let none_left : (r : RemoteCalling)
            → In r later.remote_callings
            → is_awaited params.checkpoint_id r ≡ false =
          rw kept h.none_pending in
        let p = cancel_payload env params.checkpoint_id rc_conversation rc_agent in
        let r = count_pending_by_checkpoint env.sql params.checkpoint_id later in
        let (same, tables, sent) =
          counted_lem env legal all_legal p count n later tasks r
            (λ k counts.
              count-none_pending env.sql legal params.checkpoint_id later k none_left counts)
            e in
        elim h.named [
          | inl (nothing, _, _) ↦ absurd (cc (nothing call m, waits))
          | inr (x, mx, x_waits, conversation_is, agent_is) ↦ record {
            count = same ∙ h.counted;
            none_pending = rw tables none_left;
            named = call;
            named_stored = m;
            named_pending = waits;
            conversation = conv;
            read = got;
            member = member;
            call = x;
            stored = mx;
            pending = x_waits;
            resumed = rw (sym conversation_is, sym agent_is) sent;
          }
        ]

    with_conversation-CalledOff :
        (call : RemoteCalling) (r : Result Fault Conversation)
        → In call db.remote_callings
        → is_awaited params.checkpoint_id call ≡ true
        → get_conversation env.sql call.conversation_id db ≡ r
        → (with_conversation env params call.conversation_id db r).result ≡ ok n
        → Answered (with_conversation env params call.conversation_id db r)
    unfolding with_conversation
    with_conversation-CalledOff call (err not_found) m waits got e = cc
    with_conversation-CalledOff call (err _) m waits got e = cc
    with_conversation-CalledOff call (ok conv) m waits got e =
        elim (Bool-cases (contains_user_or_agent_base (conversation_members conv) env.user_id)) [
          | inl member ↦
              rw (with_conversation, member)
                (cancelled-CalledOff call conv
                  (cancel_by_checkpoint env.sql env.now params.checkpoint_id params.reason
                    env.user_id db)
                  m waits got member refl (rw member at e))
          | inr stranger ↦ cc
        ]

    existing-CalledOff :
        (r : Result Fault (List RemoteCalling))
        → get_pending_by_checkpoint env.sql params.checkpoint_id db ≡ r
        → (existing env params db r).result ≡ ok n
        → Answered (existing env params db r)
    unfolding existing get_pending_by_checkpoint
    existing-CalledOff (err f) got e = cc
    existing-CalledOff (ok []) got e = cc
    existing-CalledOff (ok (rc ∷ rcs)) got e =
        let (_, which) =
          legal.find_answer RemoteCalling (λ r. r.created_at) (is_awaited params.checkpoint_id)
            db.remote_callings (rc ∷ rcs) got in
        let (m, waits) = (which rc).0 (inl refl) in
        with_conversation-CalledOff rc (get_conversation env.sql rc.conversation_id db) m waits refl
          e

    passed :
        (handle_cancel_remote_calls env (some params) db).result ≡ ok n
        → handle_cancel_remote_calls env (some params) db
          ≡ existing env params db (get_pending_by_checkpoint env.sql params.checkpoint_id db)
    unfolding handle_cancel_remote_calls
    passed e = elim (Bool-cases (str_eq params.checkpoint_id "" || str_eq params.reason "")) [
      | inl b ↦ cc (rw b at e)
      | inr b ↦ elim (Bool-cases (ltb max_reason_length (len params.reason))) [
        | inl c ↦ cc (rw (b, c) at e)
        | inr c ↦ elim (Bool-cases env.has_remote_callings) [
          | inl d ↦ rw (handle_cancel_remote_calls, b, c, d) refl
          | inr d ↦ cc (rw (b, c, d) at e)
        ]
      ]
    ]

    -- A cancellation that is answered has cancelled what was pending: the answer is the number of the calls of
    -- the checkpoint that were pending, none of the checkpoint is pending afterwards, the caller is
    -- a member of the stored conversation of one of them, and, where the call found names a conversation, the resume of
    -- its stored agent is queued.
    pub handle_cancel_remote_calls-CalledOff :
        (handle_cancel_remote_calls env (some params) db).result ≡ ok n
        → CalledOff env params db (handle_cancel_remote_calls env (some params) db) n
    handle_cancel_remote_calls-CalledOff e =
        let same = passed e in
        rw same (
          existing-CalledOff (get_pending_by_checkpoint env.sql params.checkpoint_id db) refl
            (rw same at e))
