-- ===== src/Client/Sync/FullSync.antt =====
-- pkg/client/sync.go: `FullSync`. The loop has no bound of its own, so it takes fuel: one unit for
-- each request. The result is none where the fuel ends first, or where a call does not return.
use xyncra_server.Common.{ℕ, zero, suc, ◌+◌, Option, none, some, if◌then◌else◌}
use xyncra_server.Fault.{Fault, waiting, Result, ok, err}
use xyncra_server.Client.Model.{Tables}
use xyncra_server.Client.Stores.SyncStates.{get_local_max_seq, set_latest_seq}
use xyncra_server.Client.Sync.Env.{
  Env, Failure, seq_gap, context_done, sync_error, Manager, SyncUpdatesResponse,
}
use xyncra_server.Client.Sync.Apply.{apply_updates, request}

-- What ends the loop, goes on to the next request, or does not return.
pub data Page : Type 0 where
  stop : Manager → Result Failure (Unit {0}) → Page
  again : Manager → ℕ → Page
  hangs : Page

module _ (env : Env) where
  open env use {sql, strconv}

  unfoldable pub next_page : Manager → Result Fault ℕ → Page
  next_page m (ok local_max_seq) = again m local_max_seq
  next_page m (err e) = stop m (err (sync_error e))

  unfoldable pub latest_stored : SyncUpdatesResponse → Manager → Result Fault Tables → Page
  latest_stored resp m (err e) = stop m (err (sync_error e))
  latest_stored resp m (ok db) =
      let m' = record m { tables = db } in
      if resp.has_more then next_page m' (get_local_max_seq sql strconv db) else stop m' (ok tt)

  unfoldable pub page_applied : SyncUpdatesResponse → Manager → Page
  page_applied resp m =
      latest_stored resp m
        (set_latest_seq sql strconv (env.now resp.latest_seq) resp.latest_seq m.tables)

  -- A statement that waits for the pool, in a context that does not end.
  abbrev pub waited : Manager → Option Fault → Page
  waited m none = hangs
  waited m (some e) = stop m (err (sync_error waiting))

  -- A gap is only logged.
  unfoldable pub applied : SyncUpdatesResponse → Manager × Result Failure (Unit {0}) → Page
  applied resp (m, ok _) = page_applied resp m
  applied resp (m, err seq_gap) = page_applied resp m
  applied resp (m, err (sync_error waiting)) = waited m env.pool_timeout
  applied resp (m, err f) = stop m (err f)

  unfoldable pub answered : Manager → Result Fault SyncUpdatesResponse → Page
  answered m (err e) = stop m (err (sync_error e))
  answered m (ok resp) = applied resp (apply_updates env resp.updates m)

  -- The body of the loop.
  unfoldable pub full_sync_page : ℕ → ℕ → Manager → Page
  full_sync_page round local_max_seq m =
      if env.is_done round
      then stop m (err context_done)
      else answered m (request env round local_max_seq)

  unfoldable pub full_sync_loop : ℕ → ℕ → ℕ → Manager → Option (Manager × Result Failure (Unit {0}))
  full_sync_loop zero round local_max_seq m = none
  full_sync_loop (suc fuel) round local_max_seq m = elim (full_sync_page round local_max_seq m) [
    | stop m' r ↦ some (m', r)
    | again m' seq ↦ full_sync_loop fuel (round + 1) seq m'
    | hangs ↦ none
  ]

  unfoldable pub started :
      ℕ → Manager → Result Fault ℕ → Option (Manager × Result Failure (Unit {0}))
  started fuel m (err e) = some (m, err (sync_error e))
  started fuel m (ok local_max_seq) = full_sync_loop fuel 0 local_max_seq m

  unfoldable pub full_sync : ℕ → Manager → Option (Manager × Result Failure (Unit {0}))
  full_sync fuel m = started fuel m (get_local_max_seq sql strconv m.tables)
