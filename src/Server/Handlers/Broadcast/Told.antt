-- ===== src/Server/Handlers/Broadcast/Told.antt =====
-- internal/handler/broadcast_conversation_update.go: what a broadcast leaves.
use xyncra_server.Common.{
  ℕ, suc, ◌+◌, ◌%◌, ◌^◌, ◌≡◌, refl, ◌∙◌, ◌⊎◌, inl, inr, String, List, [], ◌∷◌, ◌++◌, All,
  Bool-cases,
}
use xyncra_server.Fault.{Fault, Result, ok, ◌>>=◌, bind-ok}
use xyncra_server.Sql.{Sql, IsSql}
use xyncra_server.Server.Model.{UserUpdate, Tables}
use xyncra_server.Server.Stores.Transactions.{transaction}
use xyncra_server.Server.Stores.Transactions.Attempts.{transaction-ok}
use xyncra_server.Server.Stores.Fanout.{allocate}
use xyncra_server.Server.Stores.Fanout.Fanned.{Fanned, allocate-Fanned}
use xyncra_server.Server.Stores.UserUpdates.{create, get_latest_seq}
use xyncra_server.Server.Stores.UserUpdates.Created.{create-append, append_nil}
use xyncra_server.Server.Handlers.Tasks.{Task, deliver, recipients}
use xyncra_server.Server.Handlers.Broadcast.{
  BroadcastEnv, store_updates, delivery, broadcast_conversation_update,
}

-- An update for each member, at the seq after the member's latest; the rest of the tables is as it was,
-- and the delivery of the updates is queued or nothing is.
pub record Told (env : BroadcastEnv) (conversation_id : String) (members : List String)
    (action : String) (db db' : Tables) (tasks : List Task) : Type 0 where
  pub updates : List UserUpdate
  pub fanned : Fanned db.user_updates members updates
  pub about :
      All
        (λ u. (u.payload ≡ env.payload conversation_id action) × (u.kind ≡ "conversation"))
        updates
  pub appended : db' ≡ record db { user_updates = db.user_updates ++ updates }
  pub delivered : (tasks ≡ []) ⊎ (tasks ≡ deliver (recipients "conversation" updates) ∷ [])

abbrev told : Tables × List Task → Result Fault (Tables × List Task)
told a = ok a

abbrev with_updates : List UserUpdate → Tables → Result Fault (Tables × List UserUpdate)
with_updates us d = ok (d, us)

allocate-about :
    (now : ℕ) (new_id : ℕ → String) (kind : String) (sql : Sql) (i : ℕ) (payload : String)
    (ms : List String) (db : Tables) (us : List UserUpdate)
    → allocate now new_id kind sql i payload ms db ≡ ok us
    → All (λ u. (u.payload ≡ payload) × (u.kind ≡ kind)) us
unfolding allocate
allocate-about now new_id kind sql i payload [] db us e = let same : us ≡ [] = cc e in rw same tt
allocate-about now new_id kind sql i payload (m ∷ ms) db us e =
    let (latest, _, e') = bind-ok (get_latest_seq sql m db) _ us e in
    let (rest, allocated, e'') =
      bind-ok (allocate now new_id kind sql (suc i) payload ms db) _ us e' in
    go latest rest e'' (allocate-about now new_id kind sql (suc i) payload ms db rest allocated)
  where
    the_updates : List UserUpdate → Result Fault (List UserUpdate)
    the_updates us = ok us

    go :
        (latest : ℕ) (rest : List UserUpdate)
        → the_updates (
            record {
              id = new_id i;
              user_id = m;
              seq = (latest + 1) % 2 ^ 32;
              kind = kind;
              payload = payload;
              created_at = now;
            }
            ∷ rest)
          ≡ ok us
        → All (λ u. (u.payload ≡ payload) × (u.kind ≡ kind)) rest
        → All (λ u. (u.payload ≡ payload) × (u.kind ≡ kind)) us
    go latest rest same h =
        let back : us
            ≡ record {
              id = new_id i;
              user_id = m;
              seq = (latest + 1) % 2 ^ 32;
              kind = kind;
              payload = payload;
              created_at = now;
            }
              ∷ rest =
          cc same in
        rw back ((refl, refl), h)

module _ (env : BroadcastEnv) (all_legal : (n : ℕ) → IsSql (env.sqls n)) where
  stored_lem :
      (k : ℕ) (payload : String) (ms : List String) (db d : Tables) (us : List UserUpdate)
      → store_updates env (env.sqls k) payload ms db ≡ ok (d, us)
      → Fanned db.user_updates ms us
        × All (λ u. (u.payload ≡ payload) × (u.kind ≡ "conversation")) us
        × (d ≡ record db { user_updates = db.user_updates ++ us })
  unfolding store_updates
  stored_lem k payload ms db d us e =
      let (vs, allocated, e') =
        bind-ok (allocate env.now env.new_id "conversation" (env.sqls k) 0 payload ms db) _ (d, us)
          e in
      go vs allocated e'
    where
      go :
          (vs : List UserUpdate)
          → allocate env.now env.new_id "conversation" (env.sqls k) 0 payload ms db ≡ ok vs
          → (create (env.sqls k) vs db >>= with_updates vs) ≡ ok (d, us)
          → Fanned db.user_updates ms us
            × All (λ u. (u.payload ≡ payload) × (u.kind ≡ "conversation")) us
            × (d ≡ record db { user_updates = db.user_updates ++ us })
      go vs allocated e =
          let (d', created, same) = bind-ok (create (env.sqls k) vs db) _ (d, us) e in
          let same_updates : us ≡ vs = cc same in
          let same_tables : d ≡ d' = cc same in
          rw same_updates (
            allocate-Fanned env.now env.new_id "conversation" (env.sqls k) (all_legal k) ms 0
                payload db vs allocated,
            allocate-about env.now env.new_id "conversation" (env.sqls k) 0 payload ms db vs
                allocated,
            same_tables ∙ create-append (env.sqls k) (all_legal k) vs db d' created,
          )

  delivery-cases :
      (us : List UserUpdate)
      → (delivery env us ≡ []) ⊎ (delivery env us ≡ deliver (recipients "conversation" us) ∷ [])
  delivery-cases us = elim (Bool-cases (env.queues (recipients "conversation" us))) [
    | inl queues ↦ inr (rw queues refl)
    | inr fails ↦ inl (rw fails refl)
  ]

  -- A broadcast that succeeds adds one update for each of the given members, in order, with the
  -- payload of the conversation and the action and the seq after the member's latest, changes
  -- nothing else, and queues the delivery of exactly these updates or nothing.
  pub broadcast-Told :
      (conversation_id : String) (members : List String) (action : String) (db db' : Tables)
      (tasks : List Task)
      → broadcast_conversation_update env conversation_id members action db ≡ ok (db', tasks)
      → Told env conversation_id members action db db' tasks
  unfolding broadcast_conversation_update
  broadcast-Told conversation_id [] action db db' tasks e =
      let same : db' ≡ db = cc e in
      record {
        updates = [];
        fanned = tt;
        about = tt;
        appended = rw (append_nil db.user_updates) same;
        delivered = inl (cc e);
      }
  broadcast-Told conversation_id (m ∷ ms) action db db' tasks e =
      let ((d, us), done, e') = bind-ok _ _ (db', tasks) e in go d us done e'
    where
      body : ℕ → Result Fault (Tables × List UserUpdate)
      body n = store_updates env (env.sqls n) (env.payload conversation_id action) (m ∷ ms) db

      go :
          (d : Tables) (us : List UserUpdate)
          → transaction env.is_done body ≡ ok (d, us)
          → told (d, delivery env us) ≡ ok (db', tasks)
          → Told env conversation_id (m ∷ ms) action db db' tasks
      go d us done same =
          let (k, stored) = transaction-ok env.is_done body (d, us) done in
          let (fanned, about, appended) =
            stored_lem k (env.payload conversation_id action) (m ∷ ms) db d us stored in
          let same_tables : db' ≡ d = cc same in
          let same_tasks : tasks ≡ delivery env us = cc same in
          record {
            updates = us;
            fanned = fanned;
            about = about;
            appended = same_tables ∙ appended;
            delivered = rw same_tasks (delivery-cases us);
          }
