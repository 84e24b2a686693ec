-- ===== src/Server/Stores/Cursors/Advanced.antt =====
-- internal/store/conversation.go: what `UpdateLastRead` does to the conversations.
use xyncra_server.Common.{ℕ, ◌≡◌, refl, sym, String, none, some, inl, inr, find_first}
use xyncra_server.Fault.{ok, ◌>>=◌, Result-cases}
use xyncra_server.Sql.{Sql, IsSql, update_rows}
use xyncra_server.Sql.Rows.{AtMostOne, IsFirst-find_first}
use xyncra_server.Server.Model.{Conversation, Tables}
use xyncra_server.Server.Stores.Messages.{is_conversation, found, get_conversation}
use xyncra_server.Server.Stores.Cursors.{
  Column, last_read_message_id1, last_read_message_id2, none_of, column, advanced, move_cursor,
  update_last_read,
}

module _ (sql : Sql) (legal : IsSql sql) (now : ℕ) (user_id : String) where
  pub get_conversation-find_first :
      (id : String) (db : Tables) (c : Conversation)
      → AtMostOne (is_conversation id) db.conversations
      → get_conversation sql id db ≡ ok c
      → find_first (is_conversation id) db.conversations ≡ some c
  unfolding get_conversation found
  get_conversation-find_first id db c u e =
      elim (Result-cases (sql.first Conversation (is_conversation id) db.conversations)) [
        | inl (some c', first) ↦
            let same : c ≡ c' = cc (rw first at e) in
            rw same (
              sym (
                IsFirst-find_first (is_conversation id) db.conversations (some c') u (
                  legal.first_answer Conversation (is_conversation id) db.conversations (some c')
                    first)))
        | inl (none, first) ↦ cc (rw first at e)
        | inr (f, failed) ↦ cc (rw failed at e)
      ]

  pub keeps_test :
      (id : String) (col : Column) (n : ℕ) (c : Conversation)
      → is_conversation id (advanced now col n c) ≡ is_conversation id c
  keeps_test id last_read_message_id1 n c = refl
  keeps_test id last_read_message_id2 n c = refl
  keeps_test id none_of n c = refl

  -- What a successful `UpdateLastRead` leaves of the conversations.
  pub update_last_read-conversations :
      (id : String) (n : ℕ) (db db' : Tables) (c : Conversation)
      → AtMostOne (is_conversation id) db.conversations
      → find_first (is_conversation id) db.conversations ≡ some c
      → update_last_read sql now id user_id n db ≡ ok db'
      → db'.conversations
        ≡ update_rows (is_conversation id) (advanced now (column c user_id) n) db.conversations
  unfolding update_last_read move_cursor
  update_last_read-conversations id n db db' c u first e =
      elim (Result-cases (get_conversation sql id db)) [
        | inl (c', got) ↦
            let same : c' ≡ c = cc (get_conversation-find_first id db c' u got, first) in
            rw (sym same) (move (column c' user_id) (rw got at e))
        | inr (f, failed) ↦ cc (rw failed at e)
      ]
    where
      one_column :
          (col : Column)
          → (do
            (rows, _) ←
                sql.update Conversation (is_conversation id) (advanced now col n) db.conversations
            ok (record db { conversations = rows }))
            ≡ ok db'
          → db'.conversations
            ≡ update_rows (is_conversation id) (advanced now col n) db.conversations
      one_column col e =
          elim (Result-cases
            (sql.update Conversation (is_conversation id) (advanced now col n) db.conversations)) [
              | inl ((rows, affected), updated) ↦ cc (
                rw updated at e,
                (legal.update_answer Conversation (is_conversation id) (advanced now col n)
                    db.conversations rows affected updated).0,
              )
              | inr (f, failed) ↦ cc (rw failed at e)
            ]

      move :
          (col : Column)
          → move_cursor sql now id col n db ≡ ok db'
          → db'.conversations
            ≡ update_rows (is_conversation id) (advanced now col n) db.conversations
      move none_of e = cc
      move last_read_message_id1 e = one_column last_read_message_id1 e
      move last_read_message_id2 e = one_column last_read_message_id2 e
