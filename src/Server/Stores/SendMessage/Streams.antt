-- ===== src/Server/Stores/SendMessage/Streams.antt =====
-- internal/store/store.go: what `SendMessage` does to the users' streams of updates.
use xyncra_server.Common.{
  ℕ, ◌+◌, ◌^◌, ◌<◌, String, Bool, Option, ◌≡◌, List, if◌then◌else◌, has, NoDup,
}
use xyncra_server.Fault.{ok}
use xyncra_server.Sql.{Sql, IsSql}
use xyncra_server.Server.Model.{Message, Tables}
use xyncra_server.Server.Stores.SendMessage.{SendMessageResult, send_message}
use xyncra_server.Server.Stores.SendMessage.Sent.{send_message-Sent}
use xyncra_server.Server.Stores.Fanout.Fanned.{IsLatest}
use xyncra_server.Server.Stores.Fanout.Advanced.{Fanned-IsLatest}

-- After a `SendMessage` to distinct members that succeeds, the latest seq of a member is one more than it was, and
-- that of any other user is what it was. The seqs stay below the end of uint32.
pub send_message-IsLatest :
    (now : ℕ) (new_id : ℕ → String) (marshal : Message → Option String) (is_done : ℕ → Bool)
    (sqls : ℕ → Sql) (msg : Message) (ms : List String) (db db' : Tables) (r : SendMessageResult)
    → ((n : ℕ) → IsSql (sqls n))
    → send_message now new_id marshal is_done sqls msg ms db ≡ ok (db', r)
    → NoDup ms
    → (user_id : String) (latest : ℕ) → IsLatest user_id db.user_updates latest
    → latest + 1 < 2 ^ 32
    → IsLatest user_id db'.user_updates (if has user_id ms then latest + 1 else latest)
send_message-IsLatest now new_id marshal is_done sqls msg ms db db' r legal sends d user_id latest
      top small =
    let sent = send_message-Sent now new_id marshal is_done sqls msg ms db db' r legal sends in
    rw sent.user_updates
      (Fanned-IsLatest ms db.user_updates r.updates sent.fanned d user_id latest top small)
