-- ===== src/Client/Sync/Apply.antt =====
-- pkg/client/sync.go: `ApplyUpdate`, `ApplyUpdates` and the debounced pull.
use xyncra_server.Common.{
  ℕ, ◌+◌, ◌-◌, ◌%◌, ◌^◌, true, false, List, [], ◌∷◌, str_eq, ltb, leb, ◌==◌, Option, none, some,
  if◌then◌else◌,
}
use xyncra_server.Fault.{Fault, duplicate_key, waiting, Result, ok, err, ◌>>=◌}
use xyncra_server.Protocol.{PackageDataUpdate}
use xyncra_server.Client.Model.{NotificationLog, Tables}
use xyncra_server.Client.Stores.SyncStates.{
  get_local_max_seq, set_local_max_seq, set_latest_seq, save_log,
}
use xyncra_server.Client.Sync.Env.{Env, Failure, seq_gap, sync_error, Manager, SyncUpdatesResponse}
use xyncra_server.Client.Sync.Notify.{notify_handler}
use xyncra_server.Client.Sync.Dispatch.{decoded, dispatch_update}
use xyncra_server.Client.Sync.Ephemeral.{notify, handle_ephemeral_conversation_update}

module _ (env : Env) where
  open env use {sql, strconv, codec}

  unfoldable pub log_of : PackageDataUpdate → NotificationLog
  log_of u = record {
    id = env.new_id u.seq;
    seq = u.seq;
    kind = u.kind;
    payload = u.payload;
    created_at = env.now u.seq;
  }

  -- Steps 3 to 5, the body of the transaction, after the log has been saved or refused.
  unfoldable pub logged : PackageDataUpdate → Tables → Result Fault Tables → Result Fault Tables
  logged u db (ok db') = do
    db'' ← dispatch_update env (env.now u.seq) u db'
    set_local_max_seq sql strconv (env.now u.seq) u.seq db''
  logged u db (err duplicate_key) = set_local_max_seq sql strconv (env.now u.seq) u.seq db
  logged u db (err e) = err e

  unfoldable pub transaction_body : PackageDataUpdate → Tables → Result Fault Tables
  transaction_body u db = logged u db (save_log sql strconv (log_of u) db)

  -- The transaction is rolled back on an error; the handler is called after the commit.
  unfoldable pub committed :
      PackageDataUpdate → Manager → Result Fault Tables → Manager × Result Failure (Unit {0})
  committed u m (ok db) = (notify env (notify_handler env u) (record m { tables = db }), ok tt)
  committed u m (err e) = (m, err (sync_error e))

  unfoldable pub at_seq :
      PackageDataUpdate → Manager → Result Fault ℕ → Manager × Result Failure (Unit {0})
  at_seq u m (err e) = (m, err (sync_error e))
  at_seq u m (ok local_max_seq) =
      if leb u.seq local_max_seq
      then (m, ok tt)
      else if ltb ((local_max_seq + 1) % 2 ^ 32) u.seq
      then (m, err seq_gap)
      else committed u m (transaction_body u m.tables)

  unfoldable pub apply_update : PackageDataUpdate → Manager → Manager × Result Failure (Unit {0})
  apply_update u m =
      if u.seq == 0
      then (
        (if str_eq u.kind "conversation"
            then handle_ephemeral_conversation_update env u m
            else notify env (notify_handler env u) m),
        ok tt,
      )
      else at_seq u m (get_local_max_seq sql strconv m.tables)

  -- The timer is armed once; a second request joins it.
  unfoldable pub schedule_debounced_pull : Manager → Manager
  schedule_debounced_pull m = record m { pull_pending = true }

  -- The loop stops at the first error, and a gap schedules a pull.
  unfoldable pub continued :
      (Manager → Manager × Result Failure (Unit {0}))
      → Manager × Result Failure (Unit {0})
      → Manager × Result Failure (Unit {0})
  unfolding schedule_debounced_pull
  continued rest (m, ok _) = rest m
  continued rest (m, err seq_gap) = (schedule_debounced_pull m, err seq_gap)
  continued rest (m, err f) = (m, err f)

  unfoldable pub apply_updates :
      List PackageDataUpdate → Manager → Manager × Result Failure (Unit {0})
  unfolding continued
  apply_updates [] m = (m, ok tt)
  apply_updates (u ∷ us) m = continued (apply_updates us) (apply_update u m)

  -- The response of a `sync_updates` request, parsed.
  unfoldable pub request : ℕ → ℕ → Result Fault SyncUpdatesResponse
  request round after_seq = do
    answer ← env.sync_updates round after_seq env.batch_size
    decoded (codec.sync_updates answer)

  kept : Manager → Result Fault Tables → Manager
  kept m (ok db) = record m { tables = db }
  kept m (err e) = m

  -- A retry timer, unless the pull does not return.
  armed : Manager → Option Fault → Manager
  armed m none = m
  armed m (some e) = record m { retries = m.retries + 1 }

  after_page : SyncUpdatesResponse → Manager × Result Failure (Unit {0}) → Manager
  unfolding schedule_debounced_pull kept armed
  after_page resp (m, err (sync_error waiting)) = armed m env.pool_timeout
  after_page resp (m, err f) = record m { retries = m.retries + 1 }
  after_page resp (m, ok _) =
      let m' =
        kept m (set_latest_seq sql strconv (env.now resp.latest_seq) resp.latest_seq m.tables) in
      if resp.has_more then schedule_debounced_pull m' else m'

  pulled : Manager → Result Fault SyncUpdatesResponse → Manager
  unfolding after_page
  pulled m (err e) = m
  pulled m (ok resp) = after_page resp (apply_updates resp.updates m)

  from_seq : ℕ → Manager → Result Fault ℕ → Manager
  unfolding pulled request
  from_seq round m (err e) = m
  from_seq round m (ok local_max_seq) = pulled m (request round local_max_seq)

  -- What the debounce timer runs; `round` numbers its request.
  unfoldable pub debounced_pull : ℕ → Manager → Manager
  unfolding from_seq
  debounced_pull round m =
      from_seq round (record m { pull_pending = false }) (get_local_max_seq sql strconv m.tables)

  -- What a retry timer runs: it arms the debounce timer, unless that is armed.
  unfoldable pub fire_retry : Manager → Manager
  fire_retry m = record m { pull_pending = true; retries = m.retries - 1 }
