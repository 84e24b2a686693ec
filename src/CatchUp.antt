-- ===== src/CatchUp.antt =====
-- The client's `FullSync` (pkg/client/sync.go) against the server's `sync_updates`
-- (internal/handler/sync_updates.go), over a table of updates that stays as it is meanwhile.
use xyncra_server.Common.{
  ℕ, ◌+◌, ◌-◌, ◌^◌, ◌≤◌, ◌<◌, ◌≡◌, refl, ap, suc, inl, inr, String, some, List, [], ◌∷◌, map, arith,
  length, In, str_eq, if◌then◌else◌, pos,
}
use xyncra_server.Fault.{ok, Result-cases}
use xyncra_server.Sql.{Sql, IsSql, IsMax}
use xyncra_server.Sql.Rows.{IsMax-le}
use xyncra_server.Protocol.{PackageDataUpdate, IsContiguous}
use xyncra_server.Server.Model.{UserUpdate, Tables}
use xyncra_server.Server.Handlers.SyncUpdates.{SyncUpdatesResponse, normal_limit, sync_updates}
use xyncra_server.Server.Handlers.SyncUpdates.Page.{
  IsPage, normal_limit_bounds, sync_updates-IsPage,
}
use xyncra_server.Client.Sync.Env
use xyncra_server.Client.Sync.Env.{Env, Manager}
use xyncra_server.Client.Sync.Apply.{request}
use xyncra_server.Client.Sync.Dispatch.{decoded}
use xyncra_server.Client.Sync.Sequence.{IsLocalMax}
use xyncra_server.Client.Sync.FullSync.{full_sync}
use xyncra_server.Client.Sync.CatchUp.{IsPageAfter, Serves, HasTimeout, Ends, full_sync-Ends}

-- An update as the client decodes it: a nil payload is marshalled as `null` and arrives as that text,
-- any other is made compact.
abbrev pub carried : (String → String) → PackageDataUpdate → PackageDataUpdate
carried compact u = record u { payload = if str_eq u.payload "" then "null" else compact u.payload }

-- The response as the client decodes it; the two structs have the same JSON fields.
abbrev pub received : (String → String) → SyncUpdatesResponse → Env.SyncUpdatesResponse
received compact r = record {
  updates = map (carried compact) r.updates;
  has_more = r.has_more;
  latest_seq = r.latest_seq;
}

carried-IsContiguous :
    (compact : String → String) (n : ℕ) (us : List PackageDataUpdate)
    → IsContiguous n us
    → IsContiguous n (map (carried compact) us)
carried-IsContiguous compact n [] h = tt
carried-IsContiguous compact n (u ∷ us) (same, rest) =
    (same, carried-IsContiguous compact (suc n) us rest)

length-carried :
    (compact : String → String) (us : List PackageDataUpdate)
    → length (map (carried compact) us) ≡ length us
length-carried compact [] = refl
length-carried compact (u ∷ us) = ap suc (length-carried compact us)

module _ (env : Env) (compact : String → String) (sql : Sql) (legal : IsSql sql) (db : Tables) where
  -- A call that the client sees succeed is one that the handler answered, whenever it read the
  -- clock, carried as JSON.
  abbrev pub IsConnected : Type 0
  IsConnected =
      (round n : ℕ) (answer : String)
      → env.sync_updates round n env.batch_size ≡ ok answer
      → (now : ℕ → ℕ) × (r : SyncUpdatesResponse) × (sync_updates sql now env.user_id
            (some (record { after_seq = n; limit = pos env.batch_size })) db
          ≡ ok (some r))
        × (env.codec.sync_updates answer ≡ some (received compact r))

  IsPage-IsPageAfter :
      (n limit last : ℕ) (r : SyncUpdatesResponse)
      → 1 ≤ limit
      → n ≤ last
      → r.latest_seq ≡ last
      → IsPage env.user_id n limit db.user_updates r
      → IsPageAfter n last (received compact r)
  IsPage-IsPageAfter n limit last r one le same p = record {
    contiguous = carried-IsContiguous compact n r.updates p.contiguous;
    within = omega (arith, p.filled, length-carried compact r.updates);
    progress = λ more. omega (arith, p.filled, p.more.0 more, length-carried compact r.updates);
    finished = λ fin. ground (arith, p.filled, p.more, length-carried compact r.updates);
  }

  module _ (connected : IsConnected) (last : ℕ)
      (top : IsMax
        (λ (u : UserUpdate). u.seq)
        (λ u. str_eq u.user_id env.user_id)
        db.user_updates
        last)
      (small : (u : UserUpdate) → In u db.user_updates → u.seq + 500 < 2 ^ 32) where
    last_small : last + 500 < 2 ^ 32
    last_small = elim top.reached [
      | inl zero ↦ omega arith
      | inr (u, m, _, same) ↦ omega (arith, small u m)
    ]

    answer-IsPageAfter :
        (n : ℕ) (now : ℕ → ℕ) (r : SyncUpdatesResponse)
        → n ≤ last
        → sync_updates sql now env.user_id
            (some (record { after_seq = n; limit = pos env.batch_size }))
            db
          ≡ ok (some r)
        → IsPageAfter n last (received compact r)
    answer-IsPageAfter n now r le e =
        let limits = normal_limit_bounds (pos env.batch_size) in
        let (r', same, p) =
          sync_updates-IsPage sql legal now env.user_id db
            (record { after_seq = n; limit = pos env.batch_size }) (some r)
            (λ u m. omega (arith, small u m)) (omega (arith, last_small, limits)) e in
        let back : r ≡ r' = cc same in
        let p' : IsPage env.user_id n (normal_limit (pos env.batch_size)) db.user_updates r =
          rw back p in
        IsPage-IsPageAfter n (normal_limit (pos env.batch_size)) last r limits.0 le
          (omega (
            arith,
            IsMax-le (λ (u : UserUpdate). u.seq) (λ u. str_eq u.user_id env.user_id) db.user_updates
                r.latest_seq last p'.latest top,
            IsMax-le (λ (u : UserUpdate). u.seq) (λ u. str_eq u.user_id env.user_id) db.user_updates
                last r.latest_seq top p'.latest,
          ))
          p'

    pub connected-Serves : Serves env last
    unfolding request
    connected-Serves round n resp le e =
        elim (Result-cases (env.sync_updates round n env.batch_size)) [
          | inl (answer, got) ↦
              let (now, r, handled, carried) = connected round n answer got in
              rw (received_only resp answer r carried (rw got at e))
                (answer-IsPageAfter n now r le handled)
          | inr (f, bad) ↦ cc (rw bad at e)
        ]
      where
        received_only :
            (resp : Env.SyncUpdatesResponse) (answer : String) (r : SyncUpdatesResponse)
            → env.codec.sync_updates answer ≡ some (received compact r)
            → decoded (env.codec.sync_updates answer) ≡ ok resp
            → resp ≡ received compact r
        received_only resp answer r c d = cc (rw c at d)

    -- The client catches up: from a recorded local maximum of `n`, a full synchronisation against the
    -- server's handler ends within `last - n + 1` requests, where `last` is the highest sequence
    -- number that the server stores for the user; and if it ends without an error, the local maximum
    -- is `last`. The server's table does not change meanwhile, its sequence numbers stay 500 below
    -- the end of uint32, a call that succeeds carries the handler's answer, and a context ends where
    -- a statement waits for the pool.
    pub full_sync-sync_updates :
        (fuel n : ℕ) (m : Manager)
        → IsSql env.sql
        → HasTimeout env
        → n ≤ last
        → last - n < fuel
        → IsLocalMax env m.tables n
        → Ends env last (full_sync env fuel m)
    full_sync-sync_updates fuel n m client_legal timeout le enough r =
        full_sync-Ends env client_legal timeout last fuel n m connected-Serves
          (omega (arith, last_small)) le enough r
