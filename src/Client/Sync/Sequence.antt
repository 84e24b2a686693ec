-- ===== src/Client/Sync/Sequence.antt =====
-- pkg/client/sync.go: the order in which `ApplyUpdate` and `ApplyUpdates` take the updates.
use xyncra_server.Common.{
  ℕ, ◌+◌, ◌%◌, ◌^◌, ◌≤◌, ◌<◌, ◌≡◌, refl, sym, ◌∙◌, ◌⊎◌, inl, inr, false, ◌++◌, arith, Bool-cases,
  leb, ltb, ◌==◌,
}
use xyncra_server.Fault.{Fault, duplicate_key, Result, ok, err, Result-cases}
use xyncra_server.Sql.{IsSql}
use xyncra_server.Protocol.{PackageDataUpdate}
use xyncra_server.Client.Model.{NotificationLog, Tables}
use xyncra_server.Client.Stores.SyncStates.{
  sync_key_local_max_seq, get_local_max_seq, set_local_max_seq, save_log,
}
use xyncra_server.Client.Stores.Recorded.{Recorded, get_seq-Recorded, set-Recorded}
use xyncra_server.Client.Sync.Env.{Env, Failure, seq_gap, sync_error, Manager}
use xyncra_server.Client.Sync.Notify.{notify_handler}
use xyncra_server.Client.Sync.Dispatch.{dispatch_update}
use xyncra_server.Client.Sync.Keeps.{SameSync, Post}
use xyncra_server.Client.Sync.Dispatched.{dispatch_update-SameSync}
use xyncra_server.Client.Sync.Apply.{
  log_of, logged, transaction_body, committed, at_seq, apply_update,
}

-- The local maximum sequence number, as the tables record it.
abbrev pub IsLocalMax : Env → Tables → ℕ → Type 0
IsLocalMax env db n = Recorded env.strconv sync_key_local_max_seq db n

-- What an update at a sequence number does, at a local maximum of `n`: an old one is skipped, the
-- next one is applied and moves the maximum, a later one is a gap; and a failure, of the read of the
-- maximum or of the next one's transaction, changes nothing.
pub data Outcome (env : Env) (u : PackageDataUpdate) (n : ℕ) (m m' : Manager)
    (r : Result Failure (Unit {0})) : Type 0 where
  skipped : u.seq ≤ n → m' ≡ m → r ≡ ok tt → Outcome env u n m m' r
  applied :
      u.seq ≡ n + 1
      → IsLocalMax env m'.tables (n + 1)
      → m'.events ≡ m.events ++ notify_handler env u
      → r ≡ ok tt
      → Outcome env u n m m' r
  gap : n + 1 < u.seq → m' ≡ m → r ≡ err seq_gap → Outcome env u n m m' r
  failed :
      (f : Fault)
      → (get_local_max_seq env.sql env.strconv m.tables ≡ err f)
        ⊎ ((u.seq ≡ n + 1) × (transaction_body env u m.tables ≡ err f))
      → m' ≡ m
      → r ≡ err (sync_error f)
      → Outcome env u n m m' r

module _ (env : Env) (legal : IsSql env.sql) where
  open env use {sql, strconv}

  Recorded-states :
      (db db' : Tables) (n : ℕ)
      → db'.sync_states ≡ db.sync_states
      → IsLocalMax env db n
      → IsLocalMax env db' n
  Recorded-states db db' n e r = record { unique = rw e r.unique; value = rw e r.value }

  set_local_max_seq-IsLocalMax :
      (now s n : ℕ) (db db' : Tables)
      → IsLocalMax env db n
      → s < 2 ^ 32
      → set_local_max_seq sql strconv now s db ≡ ok db'
      → IsLocalMax env db' s
  unfolding set_local_max_seq
  set_local_max_seq-IsLocalMax now s n db db' r small e =
      set-Recorded sql legal strconv now sync_key_local_max_seq s db db' r.unique small e

  logged-IsLocalMax :
      (u : PackageDataUpdate) (n : ℕ) (db db' : Tables) (saved : Result Fault Tables)
      → Post (λ d. d.sync_states ≡ db.sync_states) saved
      → IsLocalMax env db n
      → u.seq < 2 ^ 32
      → logged env u db saved ≡ ok db'
      → IsLocalMax env db' u.seq
  unfolding logged
  logged-IsLocalMax u n db db' (ok d) same r small e =
      elim (Result-cases (dispatch_update env (env.now u.seq) u d)) [
        | inl (d', done) ↦
            let kept : SameSync d d' =
              rw done at (dispatch_update-SameSync env (env.now u.seq) u d) in
            set_local_max_seq-IsLocalMax (env.now u.seq) u.seq n d' db'
              (Recorded-states db d' n (kept.states ∙ same) r) small (rw (done, logged) at e)
        | inr (f, bad) ↦ cc (rw (bad, logged) at e)
      ]
  logged-IsLocalMax u n db db' (err duplicate_key) same r small e =
      set_local_max_seq-IsLocalMax (env.now u.seq) u.seq n db db' r small e
  logged-IsLocalMax u n db db' (err _) same r small e = cc

  save_log-states :
      (log : NotificationLog) (db : Tables)
      → Post (λ d. d.sync_states ≡ db.sync_states) (save_log sql strconv log db)
  unfolding save_log
  save_log-states log db = ground arith

  transaction_body-IsLocalMax :
      (u : PackageDataUpdate) (n : ℕ) (db db' : Tables)
      → IsLocalMax env db n
      → u.seq < 2 ^ 32
      → transaction_body env u db ≡ ok db'
      → IsLocalMax env db' u.seq
  unfolding transaction_body
  transaction_body-IsLocalMax u n db db' r small e =
      logged-IsLocalMax u n db db' (save_log sql strconv (log_of env u) db)
        (save_log-states (log_of env u) db) r small e

  committed-Outcome :
      (u : PackageDataUpdate) (n : ℕ) (m : Manager) (o : Result Fault Tables)
      → o ≡ transaction_body env u m.tables
      → IsLocalMax env m.tables n
      → u.seq < 2 ^ 32
      → u.seq ≡ n + 1
      → Outcome env u n m (committed env u m o).0 (committed env u m o).1
  unfolding committed
  committed-Outcome u n m (ok db) e r small next =
      applied next (rw (sym next) (transaction_body-IsLocalMax u n m.tables db r small (sym e)))
        refl refl
  committed-Outcome u n m (err f) e r small next = failed f (inr (next, sym e)) refl refl

  at_seq-Outcome :
      (u : PackageDataUpdate) (n : ℕ) (m : Manager)
      → IsLocalMax env m.tables n
      → u.seq < 2 ^ 32
      → Outcome env u n m (at_seq env u m (ok n)).0 (at_seq env u m (ok n)).1
  unfolding at_seq
  at_seq-Outcome u n m r small = elim (Bool-cases (leb u.seq n)) [
    | inl old ↦ rw old (skipped (ground arith) refl refl)
    | inr new ↦ rw new (elim (Bool-cases (ltb ((n + 1) % 2 ^ 32) u.seq)) [
      | inl far ↦ rw far (gap (ground arith) refl refl)
      | inr next ↦
          rw next
            (committed-Outcome u n m (transaction_body env u m.tables) refl r small (ground arith))
    ])
  ]

  -- `ApplyUpdate` of an update with a sequence number, a positive uint32, at a recorded local maximum
  -- `n`: an update at `n` or below is skipped; the one at `n + 1` moves the maximum there and its
  -- events are appended; a later one is refused as a gap; and where the maximum cannot be read or the
  -- transaction of the update at `n + 1` fails, the call fails. But for the second, nothing changes.
  pub apply_update-Outcome :
      (u : PackageDataUpdate) (n : ℕ) (m : Manager)
      → IsLocalMax env m.tables n
      → 0 < u.seq
      → u.seq < 2 ^ 32
      → Outcome env u n m (apply_update env u m).0 (apply_update env u m).1
  unfolding apply_update get_local_max_seq at_seq
  apply_update-Outcome u n m r lo small =
      rw (pos_ne u.seq lo) (elim (Result-cases (get_local_max_seq sql strconv m.tables)) [
        | inl (q, found) ↦
            rw
              (
                found,
                get_seq-Recorded sql legal strconv sync_key_local_max_seq m.tables n q r found,
              )
              (at_seq-Outcome u n m r small)
        | inr (f, bad) ↦ rw bad (failed f (inl bad) refl refl)
      ])
    where
      pos_ne : (k : ℕ) → 0 < k → (k == 0) ≡ false
      pos_ne k h = ground arith
