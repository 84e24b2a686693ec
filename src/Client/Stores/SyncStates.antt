-- ===== src/Client/Stores/SyncStates.antt =====
-- pkg/store/sync_state_store.go and the `SaveTx` of notification_log_store.go.
use xyncra_server.Common.{ℕ, ◌<◌, ◌^◌, String, ◌≡◌, ◌||◌, Option, none, some, str_eq, ◌==◌}
use xyncra_server.Fault.{Fault, not_found, unclassified, Result, ok, err, ◌>>=◌}
use xyncra_server.Sql.{Sql}
use xyncra_server.Client.Model.{NotificationLog, SyncState, Tables}

-- `strconv.FormatUint(…, 10)`, and `strconv.ParseUint(…, 10, 32)`, which may refuse a text.
pub record Strconv : Type 0 where
  pub format_uint : ℕ → String
  pub parse_uint : String → Option ℕ
  pub parse_uint-format_uint : (n : ℕ) → n < 2 ^ 32 → parse_uint (format_uint n) ≡ some n

abbrev pub sync_key_local_max_seq : String
sync_key_local_max_seq = "local_max_seq"

abbrev pub sync_key_latest_seq : String
sync_key_latest_seq = "latest_seq"

unfoldable pub found_value : Option SyncState → Result Fault String
found_value none = err not_found
found_value (some s) = ok s.value

module _ (sql : Sql) (strconv : Strconv) where
  unfoldable pub get : String → Tables → Result Fault String
  unfolding found_value
  get key db = do
    state ← sql.first SyncState (λ s. str_eq s.key key) db.sync_states
    found_value state

  -- `Set`, and `SetLocalMaxSeqTx` at the key of the local maximum.
  unfoldable pub set : ℕ → String → String → Tables → Result Fault Tables
  set now key value db = do
    states ←
        sql.upsert SyncState (λ new old. str_eq new.key old.key)
          (λ new old. record old { value = new.value; updated_at = new.updated_at })
          (record { key = key; value = value; updated_at = now }) db.sync_states
    ok (record db { sync_states = states })

  unfoldable pub parse : String → Result Fault ℕ
  parse value = elim (strconv.parse_uint value) [ none ↦ err unclassified | some n ↦ ok n ]

  unfoldable pub or_zero : Result Fault String → Result Fault ℕ
  unfolding parse
  or_zero (ok value) = parse value
  or_zero (err not_found) = ok 0
  or_zero (err e) = err e

  unfoldable pub get_seq : String → Tables → Result Fault ℕ
  unfolding get or_zero
  get_seq key db = or_zero (get key db)

  unfoldable pub get_local_max_seq : Tables → Result Fault ℕ
  get_local_max_seq = get_seq sync_key_local_max_seq

  unfoldable pub set_local_max_seq : ℕ → ℕ → Tables → Result Fault Tables
  set_local_max_seq now seq = set now sync_key_local_max_seq (strconv.format_uint seq)

  unfoldable pub get_latest_seq : Tables → Result Fault ℕ
  get_latest_seq = get_seq sync_key_latest_seq

  unfoldable pub set_latest_seq : ℕ → ℕ → Tables → Result Fault Tables
  set_latest_seq now seq = set now sync_key_latest_seq (strconv.format_uint seq)

  -- The log's `id` and `seq` are unique.
  unfoldable pub save_log : NotificationLog → Tables → Result Fault Tables
  save_log log db = do
    logs ←
        sql.insert NotificationLog (λ new old. str_eq new.id old.id || new.seq == old.seq) log
          db.notification_logs
    ok (record db { notification_logs = logs })
