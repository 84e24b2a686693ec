-- ===== src/Client/Sync/CatchUp.antt =====
-- pkg/client/sync.go: `FullSync` against a server whose pages have no gaps.
use xyncra_server.Common.{
  ℕ, zero, suc, ◌+◌, ◌-◌, ◌^◌, ◌≤◌, ◌<◌, ◌≡◌, refl, sym, inl, inr, true, false, Option, none, some,
  arith, length, eq_iff, Bool-cases,
}
use xyncra_server.Fault.{Fault, waiting, Result, ok, err, Result-cases}
use xyncra_server.Sql.{IsSql}
use xyncra_server.Protocol.{IsContiguous}
use xyncra_server.Client.Model.{Tables}
use xyncra_server.Client.Stores.SyncStates.{
  sync_key_local_max_seq, sync_key_latest_seq, get_local_max_seq, set_latest_seq,
}
use xyncra_server.Client.Stores.Recorded.{get_seq-Recorded, set-Recorded_other}
use xyncra_server.Client.Sync.Env.{
  Env, Failure, context_done, sync_error, Manager, SyncUpdatesResponse,
}
use xyncra_server.Client.Sync.Apply.{request, apply_updates}
use xyncra_server.Client.Sync.Sequence.{IsLocalMax}
use xyncra_server.Client.Sync.Batch.{Batch, complete, stopped, apply_updates-Batch}
use xyncra_server.Client.Sync.FullSync.{
  Page, stop, again, hangs, waited, next_page, latest_stored, page_applied, applied, answered,
  full_sync_page, full_sync_loop, started, full_sync,
}

-- What the client relies on of a page after `n`: it goes on from there without a gap, says that there
-- is more only if it brought something and the last number is not reached, and otherwise reaches it.
pub record IsPageAfter (n last : ℕ) (resp : SyncUpdatesResponse) : Type 0 where
  pub contiguous : IsContiguous n resp.updates
  pub within : n + length resp.updates ≤ last
  pub progress : resp.has_more ≡ true → 0 < length resp.updates
  pub finished : resp.has_more ≡ false → n + length resp.updates ≡ last

-- Every request that succeeds brings such a page.
abbrev pub Serves : Env → ℕ → Type 0
Serves env last =
    (round n : ℕ) (resp : SyncUpdatesResponse)
    → n ≤ last
    → request env round n ≡ ok resp
    → IsPageAfter n last resp

-- What one turn of the loop comes to: it ends, with the last number reached if it ends well, or it
-- goes on from a larger number.
data Turn (env : Env) (last n : ℕ) : Page → Type 0 where
  ends :
      (m : Manager) (r : Result Failure (Unit {0}))
      → (r ≡ ok tt → IsLocalMax env m.tables last)
      → Turn env last n (stop m r)
  goes_on :
      (m : Manager) (k : ℕ)
      → n < k
      → k ≤ last
      → IsLocalMax env m.tables k
      → Turn env last n (again m k)

-- The context ends, where a statement waits for the pool.
abbrev pub HasTimeout : Env → Type 0
HasTimeout env = (e : Fault) × (env.pool_timeout ≡ some e)

-- The synchronisation ends, and if it ends without an error, the local maximum is `last`.
abbrev pub Ends : Env → ℕ → Option (Manager × Result Failure (Unit {0})) → Type 0
Ends env last o =
    (m : Manager) × (r : Result Failure (Unit {0})) × (o ≡ some (m, r))
    × (r ≡ ok tt → IsLocalMax env m.tables last)

module _ (env : Env) (legal : IsSql env.sql) (timeout : HasTimeout env) (last : ℕ) where
  open env use {sql, strconv}

  ends_badly : (n : ℕ) (m : Manager) (f : Failure) → Turn env last n (stop m (err f))
  ends_badly n m f = ends m (err f) (λ e. cc)

  waited-Turn :
      (n : ℕ) (m : Manager) (o : Option Fault)
      → o ≡ some timeout.0
      → Turn env last n (waited env m o)
  waited-Turn n m none e = cc
  waited-Turn n m (some f) e = ends_badly n m (sync_error waiting)

  next_page-Turn :
      (n k : ℕ) (m : Manager) (read : Result Fault ℕ)
      → n < k
      → k ≤ last
      → IsLocalMax env m.tables k
      → ((q : ℕ) → read ≡ ok q → q ≡ k)
      → Turn env last n (next_page env m read)
  unfolding next_page
  next_page-Turn n k m (ok q) lt le r h = rw (h q refl) (goes_on m k lt le r)
  next_page-Turn n k m (err f) lt le r h = ends_badly n m (sync_error f)

  latest_stored-Turn :
      (n k : ℕ) (resp : SyncUpdatesResponse) (m : Manager) (o : Result Fault Tables)
      → k ≤ last
      → (resp.has_more ≡ true → n < k)
      → (resp.has_more ≡ false → k ≡ last)
      → ((db : Tables) → o ≡ ok db → IsLocalMax env db k)
      → Turn env last n (latest_stored env resp m o)
  unfolding latest_stored get_local_max_seq
  latest_stored-Turn n k resp m (err f) le more fin h = ends_badly n m (sync_error f)
  latest_stored-Turn n k resp m (ok db) le more fin h = elim (Bool-cases resp.has_more) [
    | inl yet ↦ simp yet (
        next_page-Turn n k (record m { tables = db }) (get_local_max_seq sql strconv db) (more yet)
          le (h db refl)
          (λ q e. get_seq-Recorded sql legal strconv sync_key_local_max_seq db k q (h db refl) e))
    | inr done ↦
        simp done (ends (record m { tables = db }) (ok tt) (λ _. rw (sym (fin done)) (h db refl)))
  ]

  page_applied-Turn :
      (n k : ℕ) (resp : SyncUpdatesResponse) (m : Manager)
      → k ≤ last
      → (resp.has_more ≡ true → n < k)
      → (resp.has_more ≡ false → k ≡ last)
      → IsLocalMax env m.tables k
      → Turn env last n (page_applied env resp m)
  unfolding page_applied set_latest_seq
  page_applied-Turn n k resp m le more fin r = latest_stored-Turn n k resp m _ le more fin (λ db e.
      set-Recorded_other sql legal strconv (env.now resp.latest_seq) sync_key_latest_seq
        sync_key_local_max_seq (strconv.format_uint resp.latest_seq) k m.tables db
        (λ same. cc ((eq_iff sync_key_latest_seq sync_key_local_max_seq).1 same)) r e)

  applied-Turn :
      (n : ℕ) (resp : SyncUpdatesResponse) (m : Manager) (r : Result Failure (Unit {0}))
      → IsPageAfter n last resp
      → Batch env n (length resp.updates) m r
      → Turn env last n (applied env resp (m, r))
  unfolding applied
  applied-Turn n resp m (ok tt) p (complete local e) =
      page_applied-Turn n (n + length resp.updates) resp m p.within
        (λ yet. omega (arith, p.progress yet)) p.finished local
  applied-Turn n resp m (err (sync_error waiting)) p b = waited-Turn n m env.pool_timeout timeout.1
  applied-Turn n resp m (err (sync_error _)) p b = ends_badly n m (sync_error _)
  applied-Turn n resp m (err _) p (complete local e) = cc
  applied-Turn n resp m (err _) p (stopped f j lt local e) = cc
  applied-Turn n resp m (ok tt) p (stopped f j lt local e) = cc

  full_sync_page-Turn :
      (round n : ℕ) (m : Manager)
      → Serves env last
      → last < 2 ^ 32
      → n ≤ last
      → IsLocalMax env m.tables n
      → Turn env last n (full_sync_page env round n m)
  unfolding full_sync_page answered
  full_sync_page-Turn round n m serves small le r = elim (Bool-cases (env.is_done round)) [
    | inl done ↦ rw done (ends_badly n m context_done)
    | inr go ↦ rw go (elim (Result-cases (request env round n)) [
      | inl (resp, got) ↦
          let p = serves round n resp le got in
          rw got (
            applied-Turn n resp (apply_updates env resp.updates m).0
              (apply_updates env resp.updates m).1 p
              (apply_updates-Batch env legal resp.updates n m r p.contiguous
                (omega (arith, p.within))))
      | inr (f, bad) ↦ rw bad (ends_badly n m (sync_error f))
    ])
  ]

  full_sync_loop-Ends :
      (fuel round n : ℕ) (m : Manager)
      → Serves env last
      → last < 2 ^ 32
      → n ≤ last
      → last - n < fuel
      → IsLocalMax env m.tables n
      → Ends env last (full_sync_loop env fuel round n m)
  unfolding full_sync_loop
  full_sync_loop-Ends zero round n m serves small le enough r = absurd (omega arith)
  full_sync_loop-Ends (suc fuel) round n m serves small le enough r =
      go (full_sync_page env round n m) (full_sync_page-Turn round n m serves small le r)
        (λ m' k lt le' r'.
          full_sync_loop-Ends fuel (round + 1) k m' serves small le' (omega arith) r')
    where
      go :
          (p : Page)
          → Turn env last n p
          → ((m' : Manager) (k : ℕ)
              → n < k
              → k ≤ last
              → IsLocalMax env m'.tables k
              → Ends env last (full_sync_loop env fuel (round + 1) k m'))
          → Ends env last (elim p [
            | stop m' r ↦ some (m', r)
            | again m' k ↦ full_sync_loop env fuel (round + 1) k m'
            | hangs ↦ none
          ])
      go hangs t next = elim t [ ]
      go (stop m' r) (ends _ _ h) next = (m', r, refl, h)
      go (again m' k) (goes_on _ _ lt le' local) next = next m' k lt le' local

  -- A full synchronisation ends where a context that a call waits for does: from a recorded local maximum of `n`, against pages without gaps up
  -- to `last`, one request more than there are missing updates is enough. If it ends without an
  -- error, the local maximum is `last`.
  pub full_sync-Ends :
      (fuel n : ℕ) (m : Manager)
      → Serves env last
      → last < 2 ^ 32
      → n ≤ last
      → last - n < fuel
      → IsLocalMax env m.tables n
      → Ends env last (full_sync env fuel m)
  unfolding full_sync started get_local_max_seq
  full_sync-Ends fuel n m serves small le enough r =
      elim (Result-cases (get_local_max_seq sql strconv m.tables)) [
        | inl (q, found) ↦
            rw
              (
                found,
                get_seq-Recorded sql legal strconv sync_key_local_max_seq m.tables n q r found,
              )
              (full_sync_loop-Ends fuel 0 n m serves small le enough r)
        | inr (f, bad) ↦ rw bad (m, err (sync_error f), refl, λ e. cc)
      ]
