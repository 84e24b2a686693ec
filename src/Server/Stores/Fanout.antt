-- ===== src/Server/Stores/Fanout.antt =====
-- The updates that an operation fans out to the members of a conversation: internal/store/store.go
-- and internal/handler.
pub mod Fanned
pub mod Advanced
use xyncra_server.Common.{ℕ, suc, ◌+◌, ◌%◌, ◌^◌, String, List, [], ◌∷◌}
use xyncra_server.Fault.{Fault, Result, ok, ◌>>=◌}
use xyncra_server.Sql.{Sql}
use xyncra_server.Server.Model.{UserUpdate, Tables}
use xyncra_server.Server.Stores.UserUpdates.{get_latest_seq}

module _ (now : ℕ) (new_id : ℕ → String) (kind : String) (sql : Sql) where
  -- An update for each member, at the seq after the member's latest: step 4 of `SendMessage`, and
  -- the loop of the other handlers that tell all members.
  unfoldable pub allocate : ℕ → String → List String → Tables → Result Fault (List UserUpdate)
  allocate i payload [] db = ok []
  allocate i payload (member_id ∷ member_ids) db = do
    latest_seq ← get_latest_seq sql member_id db
    updates ← allocate (suc i) payload member_ids db
    ok (
        record {
          id = new_id i;
          user_id = member_id;
          seq = (latest_seq + 1) % 2 ^ 32;
          kind = kind;
          payload = payload;
          created_at = now;
        }
        ∷ updates)
