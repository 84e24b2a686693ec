-- ===== src/Server/Stores/RemoteCallings/Counted.antt =====
-- internal/store/remote_calling.go: `CancelByCheckpoint` and the number of calls that are pending.
use xyncra_server.Common.{
  ℕ, ◌≡◌, refl, ap, sym, ◌∙◌, String, true, false, Option, none, some, inl, inr, str_eq, In, ◌⊎◌,
  All-In, keep, length, Bool-cases, if◌then◌else◌,
}
use xyncra_server.Fault.{ok, bind-ok}
use xyncra_server.Sql.{Sql, IsSql, IsFirst}
use xyncra_server.Sql.Rows.{In-update_rows, count-none, none_counted}
use xyncra_server.Server.Model.{RemoteCalling, Tables}
use xyncra_server.Server.Stores.RemoteCallings.Evolves.{and-and_false}
use xyncra_server.Server.Stores.RemoteCallings.{
  is_live, is_awaited, cancelled, cancel_found, cancel_by_checkpoint, count_pending_by_checkpoint,
}

-- What a cancellation that succeeds has done.
pub record Cancelled (checkpoint_id : String) (db db' : Tables) (n : ℕ)
    (conversation_id agent_id : String) : Type 0 where
  pub none_pending :
      (r : RemoteCalling) → In r db'.remote_callings → is_awaited checkpoint_id r ≡ false
  pub counted : n ≡ length (keep (is_awaited checkpoint_id) db.remote_callings)
  -- The conversation and the agent are those of a call that was pending, if there was one.
  pub named :
      (((r : RemoteCalling) → In r db.remote_callings → is_awaited checkpoint_id r ≡ false)
        × (conversation_id ≡ "")
        × (agent_id ≡ ""))
      ⊎ ((r : RemoteCalling) × In r db.remote_callings
          × (is_awaited checkpoint_id r ≡ true)
          × (conversation_id ≡ r.conversation_id)
          × (agent_id ≡ r.agent_id))
  -- The other tables.
  pub conversations : db'.conversations ≡ db.conversations
  pub messages : db'.messages ≡ db.messages
  pub user_updates : db'.user_updates ≡ db.user_updates

module _ (sql : Sql) (legal : IsSql sql) (now : ℕ) (id reason by : String) where
  cancelled_row :
      (x : RemoteCalling)
      → is_awaited id (if is_awaited id x then cancelled now reason by x else x) ≡ false
  cancelled_row x = elim (Bool-cases (is_awaited id x)) [
    | inl waits ↦ rw waits (and-and_false (str_eq x.checkpoint_id id) (is_live x))
    | inr other ↦ rw (other, other) refl
  ]

  cancel_found-Cancelled :
      (db db' : Tables) (o : Option RemoteCalling) (n : ℕ) (conversation_id agent_id : String)
      → IsFirst (is_awaited id) db.remote_callings o
      → cancel_found sql now id reason by db o ≡ ok (db', n, conversation_id, agent_id)
      → Cancelled id db db' n conversation_id agent_id
  unfolding cancel_found
  cancel_found-Cancelled db db' none n conversation_id agent_id h e =
      let missing = All-In (λ r. is_awaited id r ≡ false) db.remote_callings h in
      let same : db' ≡ db = cc e in
      let zero : n ≡ 0 = cc e in
      let no_conversation : conversation_id ≡ "" = cc e in
      let no_agent : agent_id ≡ "" = cc e in
      record {
        none_pending = rw same missing;
        counted = zero ∙ sym (count-none (is_awaited id) db.remote_callings missing);
        named = inl (missing, no_conversation, no_agent);
        conversations = ap (λ (d : Tables). d.conversations) same;
        messages = ap (λ (d : Tables). d.messages) same;
        user_updates = ap (λ (d : Tables). d.user_updates) same;
      }
  cancel_found-Cancelled db db' (some rc) n conversation_id agent_id h e =
      let ((rows, k), done, rest) =
        bind-ok
          (sql.update RemoteCalling (is_awaited id) (cancelled now reason by) db.remote_callings) _
          (db', n, conversation_id, agent_id) e in
      let (changed, counted) =
        legal.update_answer RemoteCalling (is_awaited id) (cancelled now reason by)
          db.remote_callings rows k done in
      let same : db' ≡ record db { remote_callings = rows } = cc rest in
      let total : n ≡ k = cc rest in
      let conversation : conversation_id ≡ rc.conversation_id = cc rest in
      let agent : agent_id ≡ rc.agent_id = cc rest in
      record {
        none_pending =
            rw (same, changed)
              (λ r m.
                let (x, mx, was) =
                  In-update_rows (is_awaited id) (cancelled now reason by) db.remote_callings r m in
                rw was (cancelled_row x));
        counted = total ∙ counted;
        named = inr (rc, h.0, h.1, conversation, agent);
        conversations = ap (λ (d : Tables). d.conversations) same;
        messages = ap (λ (d : Tables). d.messages) same;
        user_updates = ap (λ (d : Tables). d.user_updates) same;
      }

  pub cancel_by_checkpoint-Cancelled :
      (db db' : Tables) (n : ℕ) (conversation_id agent_id : String)
      → cancel_by_checkpoint sql now id reason by db ≡ ok (db', n, conversation_id, agent_id)
      → Cancelled id db db' n conversation_id agent_id
  unfolding cancel_by_checkpoint
  cancel_by_checkpoint-Cancelled db db' n conversation_id agent_id e =
      let (o, first, rest) =
        bind-ok (sql.first RemoteCalling (is_awaited id) db.remote_callings)
          (cancel_found sql now id reason by db) (db', n, conversation_id, agent_id) e in
      cancel_found-Cancelled db db' o n conversation_id agent_id
        (legal.first_answer RemoteCalling (is_awaited id) db.remote_callings o first) rest

-- The count of a checkpoint without pending calls is 0, and the other way.
module _ (sql : Sql) (legal : IsSql sql) (id : String) (db : Tables) where
  pub count-none_pending :
      (n : ℕ)
      → ((r : RemoteCalling) → In r db.remote_callings → is_awaited id r ≡ false)
      → count_pending_by_checkpoint sql id db ≡ ok n
      → n ≡ 0
  unfolding count_pending_by_checkpoint
  count-none_pending n h e =
      legal.count_answer RemoteCalling (is_awaited id) db.remote_callings n e
      ∙ count-none (is_awaited id) db.remote_callings h

  pub none_pending-count :
      count_pending_by_checkpoint sql id db ≡ ok 0
      → (r : RemoteCalling) → In r db.remote_callings
      → is_awaited id r ≡ false
  unfolding count_pending_by_checkpoint
  none_pending-count e =
      none_counted (is_awaited id) db.remote_callings
        (sym (legal.count_answer RemoteCalling (is_awaited id) db.remote_callings 0 e))
