-- ===== src/Server/Handlers/SyncUpdates.antt =====
-- internal/handler/sync_updates.go: a page of a user's updates, with the missing places filled.
pub mod Fill
pub mod Entry
pub mod Page
use xyncra_server.Common.{
  ℕ, zero, suc, ◌+◌, ◌-◌, ◌%◌, ◌^◌, String, Bool, false, Option, none, some, List, [], ◌∷◌, ◌==◌,
  ltb, leb, if◌then◌else◌, ℤ, is_nonpositive, to_ℕ,
}
use xyncra_server.Fault.{Fault, Result, ok, err}
use xyncra_server.Sql.{Sql}
use xyncra_server.Protocol.{PackageDataUpdate}
use xyncra_server.Server.Model.{UserUpdate, Tables}
use xyncra_server.Server.Stores.UserUpdates.{get_latest_seq, list_by_user_range}
use xyncra_server.Server.Handlers.HandlerError.{HandlerError, validation, internal}

pub record SyncUpdatesParams : Type 0 where
  pub after_seq : ℕ
  pub limit : ℤ

pub record SyncUpdatesResponse : Type 0 where
  pub updates : List PackageDataUpdate
  pub has_more : Bool
  pub latest_seq : ℕ

-- The default is 100, the cap 500.
unfoldable pub normal_limit : ℤ → ℕ
normal_limit limit =
    if is_nonpositive limit then 100 else if ltb 500 (to_ℕ limit) then 500 else to_ℕ limit

-- The lookup map: of two rows with one seq the later stays.
unfoldable pub lookup_last : ℕ → List UserUpdate → Option UserUpdate → Option UserUpdate
lookup_last seq [] found = found
lookup_last seq (u ∷ us) found = lookup_last seq us (if u.seq == seq then some u else found)

-- The entry at a seq: the stored update, or a synthetic gap, whose payload is nil, "" here, and whose
-- time is the clock's at its turn of the loop.
unfoldable pub entry : (ℕ → ℕ) → List UserUpdate → ℕ → PackageDataUpdate
unfolding lookup_last
entry now rows seq = elim (lookup_last seq rows none) [
  | some u ↦ record { seq = u.seq; kind = u.kind; payload = u.payload; created_at = u.created_at }
  | none ↦ record { seq = seq; kind = "gap"; payload = ""; created_at = now seq }
]

-- The loop `for seq := …; seq <= expectedEnd; seq++` over uint32; none where the fuel ends first.
unfoldable pub fill : ℕ → ℕ → ℕ → (ℕ → PackageDataUpdate) → Option (List PackageDataUpdate)
fill zero seq last at = none
fill (suc fuel) seq last at =
    let rest = fill fuel ((seq + 1) % 2 ^ 32) last at in
    if leb seq last then elim rest [ none ↦ none | some us ↦ some (at seq ∷ us) ] else some []

unfoldable pub expected_end : ℕ → ℕ → ℕ → ℕ
expected_end after_seq limit latest_seq =
    let last : ℕ = (after_seq + limit) % 2 ^ 32 in if ltb latest_seq last then latest_seq else last

module _ (sql : Sql) (now : ℕ → ℕ) where
  unfoldable pub page : ℕ → ℕ → ℕ → List UserUpdate → Option SyncUpdatesResponse
  unfolding fill entry
  page after_seq limit latest_seq rows =
      elim (fill (limit + 1) ((after_seq + 1) % 2 ^ 32) (expected_end after_seq limit latest_seq)
        (entry now rows)) [
          | none ↦ none
          | some us ↦ some (record {
            updates = us;
            has_more = ltb ((after_seq + limit) % 2 ^ 32) latest_seq;
            latest_seq = latest_seq;
          })
        ]

  unfoldable pub listed :
      ℕ → ℕ → ℕ → Result Fault (List UserUpdate) → Result HandlerError (Option SyncUpdatesResponse)
  unfolding page
  listed after_seq limit latest_seq (err e) = err (internal e)
  listed after_seq limit latest_seq (ok rows) = ok (page after_seq limit latest_seq rows)

  unfoldable pub latest_known :
      String
      → SyncUpdatesParams
      → Tables
      → Result Fault ℕ
      → Result HandlerError (Option SyncUpdatesResponse)
  unfolding listed
  latest_known user_id params db (err e) = err (internal e)
  latest_known user_id params db (ok latest_seq) =
      if leb latest_seq params.after_seq
      then ok (some (record { updates = []; has_more = false; latest_seq = latest_seq }))
      else let limit : ℕ = normal_limit params.limit in
        listed params.after_seq limit latest_seq (
          list_by_user_range sql user_id params.after_seq
            (expected_end params.after_seq limit latest_seq) db)

  -- The parameters are none where they do not parse; `ok none` stands for a call whose loop does
  -- not end.
  unfoldable pub sync_updates :
      String → Option SyncUpdatesParams → Tables → Result HandlerError (Option SyncUpdatesResponse)
  unfolding latest_known
  sync_updates user_id none db = err (validation "invalid params")
  sync_updates user_id (some params) db =
      latest_known user_id params db (get_latest_seq sql user_id db)
