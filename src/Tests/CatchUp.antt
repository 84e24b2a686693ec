-- ===== src/Tests/CatchUp.antt =====
-- A server that stores two updates, the first page it sends and the next, and a client that catches
-- up with it, one update a request.
use xyncra_server.Common.{
  ℕ, zero, suc, ◌+◌, ◌^◌, ◌<◌, ◌≡◌, refl, String, true, false, Option, none, some, List, [], ◌∷◌,
  Bool, arith, In, inl, inr, str_eq, if◌then◌else◌, pos, ltb,
}
use xyncra_server.Fault.{Fault, unclassified, Result, ok, err}
use xyncra_server.Sql.{IsMax}
use xyncra_server.Server.Model.{UserUpdate, Tables}
use xyncra_server.Server.Stores.UserUpdates.{get_latest_seq, list_by_user_range}
use xyncra_server.Server.Handlers.SyncUpdates.{
  SyncUpdatesParams, SyncUpdatesResponse, normal_limit, expected_end, sync_updates, entry, fill,
  page,
}
use xyncra_server.Server.Handlers.SyncUpdates.Fill.{fill-none}
use xyncra_server.Server.Handlers.SyncUpdates.Page.{IsPage, sync_updates-IsPage, page_wrapped}
use xyncra_server.Client.Sync.Env
use xyncra_server.Client.Sync.Env.{Env}
use xyncra_server.Client.Sync.FullSync.{full_sync}
use xyncra_server.Client.Sync.CatchUp.{Ends, full_sync-Ends}
use xyncra_server.CatchUp.{received, IsConnected, connected-Serves, full_sync-sync_updates}
use xyncra_server.Tests.Sorting.{sort}
use xyncra_server.Tests.Engine.{list_engine, list_engine-IsSql}
use xyncra_server.Tests.Client.{client, fresh, fresh-IsLocalMax}

abbrev stored : ℕ → String → UserUpdate
stored seq id = record {
  id = id;
  user_id = "ann";
  seq = seq;
  kind = "message";
  payload = "hello";
  created_at = 4;
}

-- The update 2 is missing.
abbrev rows : List UserUpdate
rows = stored 1 "a" ∷ stored 3 "b" ∷ []

abbrev db : Tables
db = record { conversations = []; messages = []; user_updates = rows; remote_callings = [] }

abbrev small : (u : UserUpdate) → In u rows → u.seq + 500 < 2 ^ 32
small u (inl e) = rw e (omega arith)
small u (inr (inl e)) = rw e (omega arith)
small u (inr (inr m)) = elim m [ ]

abbrev three : SyncUpdatesParams
three = record { after_seq = 1; limit = pos 10 }

abbrev answer_three : SyncUpdatesResponse
answer_three = record {
  updates =
      record { seq = 2; kind = "gap"; payload = ""; created_at = 8 }
      ∷ record { seq = 3; kind = "message"; payload = "hello"; created_at = 4 }
      ∷ [];
  has_more = false;
  latest_seq = 3;
}

sync_updates-IsPage_example :
    (r : SyncUpdatesResponse) × (some answer_three ≡ some r) × IsPage "ann" 1 10 rows r
unfolding sync_updates normal_limit get_latest_seq list_by_user_range expected_end sort
sync_updates-IsPage_example =
    sync_updates-IsPage list_engine list_engine-IsSql (λ seq. 8) "ann" db three (some answer_three)
      (λ u m. omega (arith, small u m)) (omega arith) refl

fill-none_example : fill 100 4294967290 4294967295 (entry (λ seq. 8) rows) ≡ none
fill-none_example = fill-none 100 4294967290 4294967295 (entry (λ seq. 8) rows) refl (omega arith)

page_wrapped_example :
    page list_engine (λ seq. 8) 4294967200 100 4294967290 rows
    ≡ some (record { updates = []; has_more = ltb 4 4294967290; latest_seq = 4294967290 })
page_wrapped_example =
    page_wrapped list_engine (λ seq. 8) 4294967200 100 4294967290 rows (omega arith) (omega arith)
      (omega arith) (omega arith)

-- The pages of one update, named by the text that carries them.
abbrev page_of : UserUpdate → Bool → SyncUpdatesResponse
page_of u more = record {
  updates =
      record { seq = u.seq; kind = u.kind; payload = u.payload; created_at = u.created_at } ∷ [];
  has_more = more;
  latest_seq = 3;
}

abbrev missing : UserUpdate
missing = record { id = ""; user_id = "ann"; seq = 2; kind = "gap"; payload = ""; created_at = 8 }

abbrev as_it_is : String → String
as_it_is payload = payload

abbrev pages : String → Option Env.SyncUpdatesResponse
pages s =
    if str_eq s "page 1"
    then some (received as_it_is (page_of (stored 1 "a") true))
    else if str_eq s "page 2"
    then some (received as_it_is (page_of missing true))
    else if str_eq s "page 3"
    then some (received as_it_is (page_of (stored 3 "b") false))
    else none

-- The server answers the requests that a client makes here.
abbrev answers : ℕ → Result Fault String
answers zero = ok "page 1"
answers (suc zero) = ok "page 2"
answers (suc (suc zero)) = ok "page 3"
answers (suc (suc (suc n))) = err unclassified

abbrev online : Env
online = client pages answers

online-IsConnected : IsConnected online as_it_is list_engine list_engine-IsSql db
unfolding sync_updates normal_limit get_latest_seq list_by_user_range expected_end sort
online-IsConnected round zero answer e = (λ seq. 8, page_of (stored 1 "a") true, refl, cc e)
online-IsConnected round (suc zero) answer e = (λ seq. 8, page_of missing true, refl, cc e)
online-IsConnected round (suc (suc zero)) answer e =
    (λ seq. 8, page_of (stored 3 "b") false, refl, cc e)
online-IsConnected round (suc (suc (suc n))) answer e = cc e

rows-IsMax : IsMax (λ (u : UserUpdate). u.seq) (λ u. str_eq u.user_id "ann") rows 3
rows-IsMax =
    list_engine-IsSql.max_answer UserUpdate (λ u. u.seq) (λ u. str_eq u.user_id "ann") rows 3 refl

full_sync-sync_updates_example : Ends online 3 (full_sync online 4 fresh)
full_sync-sync_updates_example =
    full_sync-sync_updates online as_it_is list_engine list_engine-IsSql db online-IsConnected 3
      rows-IsMax small 4 0 fresh list_engine-IsSql (unclassified, refl) (omega arith) (omega arith)
      (fresh-IsLocalMax pages answers)

full_sync-Ends_example : Ends online 3 (full_sync online 4 fresh)
full_sync-Ends_example =
    full_sync-Ends online list_engine-IsSql (unclassified, refl) 3 4 0 fresh
      (connected-Serves online as_it_is list_engine list_engine-IsSql db online-IsConnected 3
        rows-IsMax small)
      (omega arith) (omega arith) (omega arith) (fresh-IsLocalMax pages answers)
