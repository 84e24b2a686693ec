-- ===== src/Server/Stores/UserUpdates.antt =====
-- internal/store/user_update.go.
pub mod Created
use xyncra_server.Common.{
  ℕ, String, ◌&&◌, Bool, List, [], ◌∷◌, ◌||◌, str_eq, ltb, leb, if◌then◌else◌, take, ℤ,
  is_nonpositive, to_ℕ,
}
use xyncra_server.Fault.{Fault, Result, ok, ◌>>=◌}
use xyncra_server.Sql.{Sql}
use xyncra_server.Server.Model.{UserUpdate, Tables}

-- The primary key is the only unique index.
abbrev pub clashes : UserUpdate → UserUpdate → Bool
clashes new old = str_eq new.id old.id

-- (afterSeq, maxSeq] of one user.
unfoldable pub in_range : String → ℕ → ℕ → UserUpdate → Bool
in_range user_id after_seq max_seq u =
    str_eq u.user_id user_id && (ltb after_seq u.seq && leb u.seq max_seq)

module _ (sql : Sql) where
  -- `CreateInBatches`: one row after the other.
  insert_all : List UserUpdate → List UserUpdate → Result Fault (List UserUpdate)
  insert_all [] rows = ok rows
  insert_all (u ∷ us) rows = do rows' ← sql.insert UserUpdate clashes u rows; insert_all us rows'

  unfoldable pub create : List UserUpdate → Tables → Result Fault Tables
  unfolding insert_all
  create updates db = do
    rows ← insert_all updates db.user_updates
    ok (record db { user_updates = rows })

  unfoldable pub list_by_user : String → ℕ → ℤ → Tables → Result Fault (List UserUpdate)
  list_by_user user_id after_seq limit db = do
    rows ←
        sql.find UserUpdate (λ u. u.seq) (λ u. str_eq u.user_id user_id && ltb after_seq u.seq)
          db.user_updates
    ok (take (if is_nonpositive limit || ltb 1000 (to_ℕ limit) then 100 else to_ℕ limit) rows)

  unfoldable pub list_by_user_range : String → ℕ → ℕ → Tables → Result Fault (List UserUpdate)
  unfolding in_range
  list_by_user_range user_id after_seq max_seq db =
      if leb max_seq after_seq
      then ok []
      else sql.find UserUpdate (λ u. u.seq) (in_range user_id after_seq max_seq) db.user_updates

  unfoldable pub get_latest_seq : String → Tables → Result Fault ℕ
  get_latest_seq user_id db =
      sql.max UserUpdate (λ u. u.seq) (λ u. str_eq u.user_id user_id) db.user_updates
