-- ===== src/Server/Stores/RemoteCallings.antt =====
-- internal/store/remote_calling.go: the calls that an agent waits for.
pub mod Evolves
pub mod Steps
pub mod Final
pub mod Ends
pub mod Counted
use xyncra_server.Common.{
  ℕ, String, Bool, true, false, not, ◌&&◌, Option, none, some, is_some, List, [], ◌∷◌, str_eq, ltb,
  ◌==◌, if◌then◌else◌, take,
}
use xyncra_server.Fault.{Fault, not_found, conflict, Result, ok, err, ◌>>=◌}
use xyncra_server.Sql.{Sql}
use xyncra_server.Server.Model.{RemoteCalling, Tables}

abbrev pub status_pending : String
status_pending = "pending"

abbrev pub status_resolved : String
status_resolved = "resolved"

abbrev pub status_cancelled : String
status_cancelled = "cancelled"

abbrev pub status_expired : String
status_expired = "expired"

-- GORM's soft delete: a query sees the rows without `deleted_at`, unless it is `Unscoped`.
abbrev pub is_live : RemoteCalling → Bool
is_live rc = not (is_some rc.deleted_at)

abbrev pub is_pending : RemoteCalling → Bool
is_pending rc = is_live rc && str_eq rc.status status_pending

abbrev pub is_open : String → RemoteCalling → Bool
is_open id rc = str_eq rc.id id && is_pending rc

abbrev pub is_awaited : String → RemoteCalling → Bool
is_awaited checkpoint_id rc = str_eq rc.checkpoint_id checkpoint_id && is_pending rc

-- `expires_at IS NOT NULL AND expires_at < ?`.
abbrev pub is_overdue : ℕ → RemoteCalling → Bool
is_overdue now rc = elim rc.expires_at [ none ↦ false | some t ↦ ltb t now ]

-- What the updates write.
abbrev pub with_result : ℕ → String → RemoteCalling → RemoteCalling
with_result now result rc = record rc {
  status = status_resolved;
  result = result;
  success = true;
  resolved_at = some now;
}

abbrev pub with_error : ℕ → String → RemoteCalling → RemoteCalling
with_error now error_message rc = record rc {
  status = status_resolved;
  error_message = error_message;
  success = false;
  resolved_at = some now;
}

abbrev pub cancelled : ℕ → String → String → RemoteCalling → RemoteCalling
cancelled now reason cancelled_by rc = record rc {
  status = status_cancelled;
  cancelled_at = some now;
  cancelled_by = cancelled_by;
  cancel_reason = reason;
}

abbrev pub expired : RemoteCalling → RemoteCalling
expired rc = record rc { status = status_expired }

abbrev pub deleted : ℕ → RemoteCalling → RemoteCalling
deleted now rc = record rc { deleted_at = some now }

-- The primary key; and the defaults of the status and of the time of creation.
abbrev pub clashes : RemoteCalling → RemoteCalling → Bool
clashes new old = str_eq new.id old.id

abbrev pub with_default : ℕ → RemoteCalling → RemoteCalling
with_default now rc = record rc {
  status = if str_eq rc.status "" then status_pending else rc.status;
  created_at = if rc.created_at == 0 then now else rc.created_at;
}

unfoldable pub found : Option RemoteCalling → Result Fault RemoteCalling
found none = err not_found
found (some rc) = ok rc

-- A record that is there makes a conflict.
unfoldable pub existing : Option RemoteCalling → Result Fault Tables
existing none = err not_found
existing (some rc) = err conflict

module _ (sql : Sql) where
  unfoldable pub create : ℕ → RemoteCalling → Tables → Result Fault Tables
  create now rc db = do
    rows ← sql.insert RemoteCalling clashes (with_default now rc) db.remote_callings
    ok (record db { remote_callings = rows })

  -- `Unscoped`.
  unfoldable pub get_by_id : String → Tables → Result Fault RemoteCalling
  unfolding found
  get_by_id id db = do
    rc ← sql.first RemoteCalling (λ r. str_eq r.id id) db.remote_callings
    found rc

  unfoldable pub get_pending_by_conversation : String → Tables → Result Fault (List RemoteCalling)
  get_pending_by_conversation conversation_id db =
      sql.find RemoteCalling (λ r. r.created_at)
        (λ r. str_eq r.conversation_id conversation_id && is_pending r) db.remote_callings

  unfoldable pub get_pending_by_checkpoint : String → Tables → Result Fault (List RemoteCalling)
  get_pending_by_checkpoint checkpoint_id db =
      sql.find RemoteCalling (λ r. r.created_at) (is_awaited checkpoint_id) db.remote_callings

  unfoldable pub get_resolved_by_checkpoint : String → Tables → Result Fault (List RemoteCalling)
  get_resolved_by_checkpoint checkpoint_id db =
      sql.find RemoteCalling (λ r. r.created_at)
        (λ r.
          is_live r && (str_eq r.checkpoint_id checkpoint_id && str_eq r.status status_resolved))
        db.remote_callings

  -- The end of `ResolveResult` and `ResolveError`: where no row was open, the error tells a record
  -- that is there, deleted or not, from one that is not.
  unfoldable pub settled : String → Tables → List RemoteCalling × ℕ → Result Fault Tables
  unfolding existing
  settled id db (rows, affected) =
      if affected == 0
      then (do rc ← sql.first RemoteCalling (λ r. str_eq r.id id) db.remote_callings; existing rc)
      else ok (record db { remote_callings = rows })

  unfoldable pub resolve_result : ℕ → String → String → Tables → Result Fault Tables
  unfolding settled
  resolve_result now id result db = do
    done ← sql.update RemoteCalling (is_open id) (with_result now result) db.remote_callings
    settled id db done

  unfoldable pub resolve_error : ℕ → String → String → Tables → Result Fault Tables
  unfolding settled
  resolve_error now id error_message db = do
    done ← sql.update RemoteCalling (is_open id) (with_error now error_message) db.remote_callings
    settled id db done

  -- Of a cancellation: the count, and the conversation and the agent of a call that was pending.
  unfoldable pub cancel_found :
      ℕ
      → String
      → String
      → String
      → Tables
      → Option RemoteCalling
      → Result Fault (Tables × ℕ × String × String)
  cancel_found now checkpoint_id reason cancelled_by db none = ok (db, 0, "", "")
  cancel_found now checkpoint_id reason cancelled_by db (some rc) = do
    (rows, count) ←
        sql.update RemoteCalling (is_awaited checkpoint_id) (cancelled now reason cancelled_by)
          db.remote_callings
    ok (record db { remote_callings = rows }, count, rc.conversation_id, rc.agent_id)

  unfoldable pub cancel_by_checkpoint :
      ℕ → String → String → String → Tables → Result Fault (Tables × ℕ × String × String)
  unfolding cancel_found
  cancel_by_checkpoint now checkpoint_id reason cancelled_by db = do
    rc ← sql.first RemoteCalling (is_awaited checkpoint_id) db.remote_callings
    cancel_found now checkpoint_id reason cancelled_by db rc

  unfoldable pub delete_by_conversation : ℕ → String → Tables → Result Fault Tables
  delete_by_conversation now conversation_id db = do
    (rows, _) ←
        sql.update RemoteCalling (λ r. is_live r && str_eq r.conversation_id conversation_id)
          (deleted now) db.remote_callings
    ok (record db { remote_callings = rows })

  unfoldable pub delete_by_checkpoint : ℕ → String → Tables → Result Fault Tables
  delete_by_checkpoint now checkpoint_id db = do
    (rows, _) ←
        sql.update RemoteCalling (λ r. is_live r && str_eq r.checkpoint_id checkpoint_id)
          (deleted now) db.remote_callings
    ok (record db { remote_callings = rows })

  unfoldable pub count_pending_by_checkpoint : String → Tables → Result Fault ℕ
  count_pending_by_checkpoint checkpoint_id db =
      sql.count RemoteCalling (is_awaited checkpoint_id) db.remote_callings

  unfoldable pub list_expired : ℕ → ℕ → Tables → Result Fault (List RemoteCalling)
  list_expired limit now db = do
    rows ←
        sql.find RemoteCalling (λ r. r.created_at) (λ r. is_pending r && is_overdue now r)
          db.remote_callings
    ok (take limit rows)

  unfoldable pub mark_expired_by_checkpoint : String → ℕ → Tables → Result Fault (Tables × ℕ)
  mark_expired_by_checkpoint checkpoint_id now db = do
    (rows, count) ←
        sql.update RemoteCalling (λ r. is_awaited checkpoint_id r && is_overdue now r) expired
          db.remote_callings
    ok (record db { remote_callings = rows }, count)

  -- Unlike the two resolutions, the look-up does not see a deleted record.
  unfoldable pub mark_expired : String → Tables → Result Fault Tables
  unfolding existing
  mark_expired id db = do
    (rows, affected) ← sql.update RemoteCalling (is_open id) expired db.remote_callings
    if affected == 0
        then (do
          rc ← sql.first RemoteCalling (λ r. is_live r && str_eq r.id id) db.remote_callings
          existing rc)
        else ok (record db { remote_callings = rows })
