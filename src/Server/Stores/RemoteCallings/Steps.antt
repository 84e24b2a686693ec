-- ===== src/Server/Stores/RemoteCallings/Steps.antt =====
-- internal/store/remote_calling.go: the changes of the table as a step relation, and what a step does
-- to a row.
use xyncra_server.Common.{
  and_left, and_right, ℕ, ◌≡◌, refl, ap, String, Bool, true, ◌&&◌, Option, none, some, List, inl,
  inr, str_eq, ◌==◌, Bool-cases, if◌then◌else◌,
}
use xyncra_server.Fault.{Fault, Result, ok, ◌>>=◌, bind-ok}
use xyncra_server.Sql.{Sql, IsSql}
use xyncra_server.Server.Stores.RemoteCallings.Evolves.{
  Evolves, Changed, update_rows-Changed, Changed-refl, Changed-trans, new-Changed, pending-Evolves,
  deleted-Evolves,
}
use xyncra_server.Server.Model.{RemoteCalling, Tables}
use xyncra_server.Server.Stores.RemoteCallings.{
  is_live, is_pending, is_open, is_awaited, is_overdue, with_result, with_error, cancelled, expired,
  deleted, clashes, with_default, create, existing, settled, resolve_result, resolve_error,
  cancel_found, cancel_by_checkpoint, delete_by_conversation, delete_by_checkpoint,
  mark_expired_by_checkpoint, mark_expired,
}

abbrev answered : Tables → Result Fault Tables
answered db = ok db

-- The operations that change the table, where they succeed.
pub data Step (sql : Sql) (db db' : Tables) : Type 0 where
  created : (now : ℕ) (rc : RemoteCalling) → create sql now rc db ≡ ok db' → Step sql db db'
  resulted :
      (now : ℕ) (id result : String)
      → resolve_result sql now id result db ≡ ok db'
      → Step sql db db'
  failed :
      (now : ℕ) (id message : String)
      → resolve_error sql now id message db ≡ ok db'
      → Step sql db db'
  called_off :
      (now : ℕ) (checkpoint_id reason by : String) (n : ℕ) (conversation_id agent_id : String)
      → cancel_by_checkpoint sql now checkpoint_id reason by db
        ≡ ok (db', n, conversation_id, agent_id)
      → Step sql db db'
  dropped :
      (now : ℕ) (id : String) → delete_by_conversation sql now id db ≡ ok db' → Step sql db db'
  cleared : (now : ℕ) (id : String) → delete_by_checkpoint sql now id db ≡ ok db' → Step sql db db'
  overdue :
      (id : String) (now n : ℕ)
      → mark_expired_by_checkpoint sql id now db ≡ ok (db', n)
      → Step sql db db'
  timed_out : (id : String) → mark_expired sql id db ≡ ok db' → Step sql db db'

pub data Reach (sql : Sql) (db : Tables) : Tables → Type 0 where
  here : Reach sql db db
  next : {db' db'' : Tables} → Reach sql db db' → Step sql db' db'' → Reach sql db db''

module _ (sql : Sql) (legal : IsSql sql) where
  updated :
      {B : Type 0} (p : RemoteCalling → Bool) (f : RemoteCalling → RemoteCalling)
      (t t' : List RemoteCalling) (k : List RemoteCalling × ℕ → Result Fault B) (b : B)
      → ((r : RemoteCalling) → p r ≡ true → Evolves r (f r))
      → ((rows : List RemoteCalling) (n : ℕ) → k (rows, n) ≡ ok b → t' ≡ rows)
      → (sql.update RemoteCalling p f t >>= k) ≡ ok b
      → Changed t t'
  updated p f t t' k b h keeps e =
      let ((rows, n), done, rest) = bind-ok (sql.update RemoteCalling p f t) k b e in
      rw (keeps rows n rest, (legal.update_answer RemoteCalling p f t rows n done).0)
        (update_rows-Changed p f h t)

  settled-rows :
      (q : RemoteCalling → Bool) (db db' : Tables) (rows : List RemoteCalling) (n : ℕ)
      → (if n == 0
          then sql.first RemoteCalling q db.remote_callings >>= existing
          else ok (record db { remote_callings = rows }))
        ≡ ok db'
      → db'.remote_callings ≡ rows
  unfolding existing
  settled-rows q db db' rows n e = elim (Bool-cases (n == 0)) [
    | inl nothing ↦
        let (o, _, rest) =
          bind-ok (sql.first RemoteCalling q db.remote_callings) existing db' (rw nothing at e) in
        refused o rest
    | inr something ↦ cc (rw something at e)
  ]
    where
      refused : (o : Option RemoteCalling) → existing o ≡ ok db' → db'.remote_callings ≡ rows
      refused none e = cc
      refused (some rc) e = cc

  pub Step-Changed :
      (db db' : Tables) → Step sql db db' → Changed db.remote_callings db'.remote_callings
  unfolding create resolve_result resolve_error delete_by_conversation delete_by_checkpoint
      cancel_found cancel_by_checkpoint mark_expired mark_expired_by_checkpoint settled
  Step-Changed db db' (resulted now id result e) =
      updated (is_open id) (with_result now result) db.remote_callings db'.remote_callings
        (settled sql id db) db'
        (λ r h.
          pending-Evolves r (with_result now result r) (and_right (str_eq r.id id) (is_pending r) h)
            refl refl refl refl)
        (settled-rows (λ r. str_eq r.id id) db db') e
  Step-Changed db db' (failed now id message e) =
      updated (is_open id) (with_error now message) db.remote_callings db'.remote_callings
        (settled sql id db) db'
        (λ r h.
          pending-Evolves r (with_error now message r) (and_right (str_eq r.id id) (is_pending r) h)
            refl refl refl refl)
        (settled-rows (λ r. str_eq r.id id) db db') e
  Step-Changed db db' (dropped now id e) =
      updated (λ r. is_live r && str_eq r.conversation_id id) (deleted now) db.remote_callings
        db'.remote_callings _ db'
        (λ r h. deleted-Evolves now r (and_left (is_live r) (str_eq r.conversation_id id) h))
        (λ rows n e. cc) e
  Step-Changed db db' (cleared now id e) =
      updated (λ r. is_live r && str_eq r.checkpoint_id id) (deleted now) db.remote_callings
        db'.remote_callings _ db'
        (λ r h. deleted-Evolves now r (and_left (is_live r) (str_eq r.checkpoint_id id) h))
        (λ rows n e. cc) e
  Step-Changed db db' (created now rc e) =
      let (rows, done, rest) =
        bind-ok (sql.insert RemoteCalling clashes (with_default now rc) db.remote_callings) _ db'
          e in
      let grown =
        legal.insert_answer RemoteCalling clashes (with_default now rc) db.remote_callings rows
          done in
      rw (table rows rest, grown.0) (new-Changed (with_default now rc) db.remote_callings grown.1)
    where
      table :
          (rows : List RemoteCalling)
          → answered (record db { remote_callings = rows }) ≡ ok db'
          → db'.remote_callings ≡ rows
      table rows e = cc
  Step-Changed db db' (called_off now id reason by n conversation_id agent_id e) =
      let (o, _, rest) =
        bind-ok (sql.first RemoteCalling (is_awaited id) db.remote_callings)
          (cancel_found sql now id reason by db) (db', n, conversation_id, agent_id) e in
      off o rest
    where
      off :
          (o : Option RemoteCalling)
          → cancel_found sql now id reason by db o ≡ ok (db', n, conversation_id, agent_id)
          → Changed db.remote_callings db'.remote_callings
      off none e =
          let same : db' ≡ db = cc e in
          rw (ap (λ (d : Tables). d.remote_callings) same) (Changed-refl db.remote_callings)
      off (some rc) e =
          updated (is_awaited id) (cancelled now reason by) db.remote_callings db'.remote_callings _
            (db', n, conversation_id, agent_id)
            (λ r h.
              pending-Evolves r (cancelled now reason by r)
                (and_right (str_eq r.checkpoint_id id) (is_pending r) h) refl refl refl refl)
            (λ rows n e. cc) e
  Step-Changed db db' (overdue id now n e) =
      updated (λ r. is_awaited id r && is_overdue now r) expired db.remote_callings
        db'.remote_callings _ (db', n)
        (λ r h.
          pending-Evolves r (expired r)
            (and_right (str_eq r.checkpoint_id id) (is_pending r)
              (and_left (is_awaited id r) (is_overdue now r) h))
            refl refl refl refl)
        (λ rows n e. cc) e
  Step-Changed db db' (timed_out id e) =
      updated (is_open id) expired db.remote_callings db'.remote_callings _ db'
        (λ r h.
          pending-Evolves r (expired r) (and_right (str_eq r.id id) (is_pending r) h) refl refl refl
            refl)
        (settled-rows (λ r. is_live r && str_eq r.id id) db db') e

  -- Whatever the operations do to the table, in any order, a call stays in it with its id, its conversation,
  -- its checkpoint and its agent; when it is no longer pending, its status, its result or error, its
  -- times and its cancellation stay as they are, and a deleted call is not touched. Each row of the
  -- later table is such a call or has an id that the earlier table did not have.
  pub Reach-Changed :
      (db db' : Tables) → Reach sql db db' → Changed db.remote_callings db'.remote_callings
  Reach-Changed db db' here = Changed-refl db.remote_callings
  Reach-Changed db db' (next {db' = d} path step) =
      Changed-trans db.remote_callings d.remote_callings db'.remote_callings
        (Reach-Changed db d path) (Step-Changed d db' step)
