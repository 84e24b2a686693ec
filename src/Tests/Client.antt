-- ===== src/Tests/Client.antt =====
-- A client over the list engine, and the theorems on its synchronisation at concrete updates.
use xyncra_server.Common.{
  ℕ, refl, String, false, Option, none, some, str_eq, arith, if◌then◌else◌, List, [], ◌∷◌,
}
use xyncra_server.Fault.{Fault, unclassified, Result, err}
use xyncra_server.Protocol.{PackageDataUpdate}
use xyncra_server.Client.Model.{Message, Tables}
use xyncra_server.Client.Stores.SyncStates.{sync_key_local_max_seq, set}
use xyncra_server.Client.Stores.Recorded.{Recorded, set-Recorded}
use xyncra_server.Client.Sync.Env.{Env, Codec, Manager, SyncUpdatesResponse}
use xyncra_server.Client.Sync.Sequence.{IsLocalMax, Outcome, apply_update-Outcome}
use xyncra_server.Client.Sync.Batch.{Batch, apply_updates-Batch}
use xyncra_server.Client.Sync.Apply.{apply_update, apply_updates}
use xyncra_server.Client.Sync.Keeps.{SameSync, Post}
use xyncra_server.Client.Sync.Dispatch.{dispatch_update}
use xyncra_server.Client.Sync.Dispatched.{dispatch_update-SameSync}
use xyncra_server.Tests.Tally.{tally, strconv}
use xyncra_server.Tests.Engine.{list_engine, list_engine-IsSql}

abbrev pub hello : Message
hello = record {
  id = "m1";
  client_message_id = "c1";
  conversation_id = "room";
  message_id = 1;
  sender_id = "bob";
  content = "hello";
  kind = "text";
  reply_to = 0;
  status = "sent";
  created_at = 5;
  deleted_at = none;
}

-- A decoder that knows one message, and the pages that a server sends.
abbrev pub codec : (String → Option SyncUpdatesResponse) → Codec
codec pages = record {
  message = λ s. if str_eq s "hello" then some hello else none;
  delete_message = λ s. none;
  mark_read = λ s. none;
  conversation_update = λ s. none;
  create_conversation = λ s. none;
  conversation = λ s. none;
  typing = λ s. none;
  streaming = λ s. none;
  agent_status = λ s. none;
  agent_timeout = λ s. none;
  get_conversation = λ s. none;
  sync_updates = pages;
  int64 = λ s. none;
  rfc3339 = λ s. none;
  is_empty = λ s. str_eq s "";
}

abbrev pub client : (String → Option SyncUpdatesResponse) → (ℕ → Result Fault String) → Env
client pages answers = record {
  sql = list_engine;
  strconv = strconv;
  codec = codec pages;
  handler = none;
  user_id = "ann";
  batch_size = 1;
  now = λ n. n;
  new_id = tally;
  get_conversation = λ n id. err unclassified;
  sync_updates = λ round n limit. answers n;
  is_cancelled = λ n. false;
  is_done = λ n. false;
  pool_timeout = some unclassified;
}

abbrev pub fresh : Manager
fresh = record {
  tables = record {
    conversations = [];
    messages = [];
    notification_logs = [];
    remote_callings = [];
    sync_states = [];
  };
  events = [];
  pull_pending = false;
  retries = 0;
}

abbrev offline : Env
offline = client (λ s. none) (λ n. err unclassified)

pub fresh-IsLocalMax :
    (pages : String → Option SyncUpdatesResponse) (answers : ℕ → Result Fault String)
    → IsLocalMax (client pages answers) fresh.tables 0
fresh-IsLocalMax pages answers = record { unique = tt; value = refl }

abbrev first_message : PackageDataUpdate
first_message = record { seq = 1; kind = "message"; payload = "hello"; created_at = 3 }

abbrev gap_after : PackageDataUpdate
gap_after = record { seq = 2; kind = "gap"; payload = ""; created_at = 3 }

apply_update-Outcome_example :
    Outcome offline first_message 0 fresh
      (apply_update offline first_message fresh).0
      (apply_update offline first_message fresh).1
apply_update-Outcome_example =
    apply_update-Outcome offline list_engine-IsSql first_message 0 fresh
      (fresh-IsLocalMax (λ s. none) (λ n. err unclassified)) (omega arith) (omega arith)

abbrev two_updates : List PackageDataUpdate
two_updates = first_message ∷ gap_after ∷ []

apply_updates-Batch_example :
    Batch offline 0 2
      (apply_updates offline two_updates fresh).0
      (apply_updates offline two_updates fresh).1
apply_updates-Batch_example =
    apply_updates-Batch offline list_engine-IsSql two_updates 0 fresh
      (fresh-IsLocalMax (λ s. none) (λ n. err unclassified)) (refl, (refl, tt)) (omega arith)

dispatch_update-SameSync_example :
    Post (SameSync fresh.tables) (dispatch_update offline 7 first_message fresh.tables)
dispatch_update-SameSync_example = dispatch_update-SameSync offline 7 first_message fresh.tables

abbrev three_recorded : Tables
three_recorded = record fresh.tables {
  sync_states = record { key = "local_max_seq"; value = "|||"; updated_at = 9 } ∷ [];
}

set-Recorded_example : Recorded strconv sync_key_local_max_seq three_recorded 3
unfolding set
set-Recorded_example =
    set-Recorded list_engine list_engine-IsSql strconv 9 sync_key_local_max_seq 3 fresh.tables
      three_recorded tt (omega arith) refl
