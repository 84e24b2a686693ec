-- ===== src/Client/Sync/Env.antt =====
-- pkg/client/sync.go: the payloads, and what the sync manager is given: the engine, the decoders of
-- encoding/json, the calls of the server, the clock, and the application's handler.
use xyncra_server.Common.{ℕ, ◌/◌, String, Bool, Option, none, some, List, if◌then◌else◌, ℤ}
use xyncra_server.Fault.{Fault, Result}
use xyncra_server.Sql.{Sql}
use xyncra_server.Protocol.{PackageDataUpdate}
use xyncra_server.Client.Model.{Conversation, Message, RemoteCalling, Tables}
use xyncra_server.Client.Stores.SyncStates.{Strconv}

pub record DeleteMessagePayload : Type 0 where
  pub message_id : String
  pub conversation_id : String

pub record MarkReadPayload : Type 0 where
  pub conversation_id : String
  pub last_read_message_id : ℕ

-- `updated_at` is the raw JSON; "" where the payload has none.
pub record ConversationUpdatePayload : Type 0 where
  pub conversation_id : String
  pub action : String
  pub updated_at : String

pub record TypingUpdatePayload : Type 0 where
  pub user_id : String
  pub conversation_id : String
  pub is_typing : Bool
  pub is_agent : Bool
  pub timestamp : ℤ

pub record StreamingUpdatePayload : Type 0 where
  pub stream_id : String
  pub user_id : String
  pub conversation_id : String
  pub text : String
  pub is_done : Bool
  pub is_agent : Bool
  pub timestamp : ℤ

pub record AgentStatusPayload : Type 0 where
  pub user_id : String
  pub conversation_id : String
  pub status : String
  pub timestamp : ℤ

pub record AgentTimeoutPayload : Type 0 where
  pub user_id : String
  pub conversation_id : String
  pub reason : String
  pub timestamp : ℤ

pub record GetConversationResponse : Type 0 where
  pub conversation : Option Conversation
  pub remote_callings : List RemoteCalling

pub record SyncUpdatesResponse : Type 0 where
  pub updates : List PackageDataUpdate
  pub has_more : Bool
  pub latest_seq : ℕ

-- `json.Unmarshal` of a payload into each of the structs; none where it returns an error.
-- `int64` and `rfc3339` read the two forms of `updated_at`; a negative number counts as 0.
pub record Codec : Type 0 where
  pub message : String → Option Message
  pub delete_message : String → Option DeleteMessagePayload
  pub mark_read : String → Option MarkReadPayload
  pub conversation_update : String → Option ConversationUpdatePayload
  pub create_conversation : String → Option (Option Conversation)
  pub conversation : String → Option Conversation
  pub typing : String → Option TypingUpdatePayload
  pub streaming : String → Option StreamingUpdatePayload
  pub agent_status : String → Option AgentStatusPayload
  pub agent_timeout : String → Option AgentTimeoutPayload
  pub get_conversation : String → Option GetConversationResponse
  pub sync_updates : String → Option SyncUpdatesResponse
  pub int64 : String → Option ℕ
  pub rfc3339 : String → Option ℕ
  pub is_empty : String → Bool

-- Which of the optional interfaces the application's handler implements.
pub record Handler : Type 0 where
  pub handles_typing : Bool
  pub handles_streaming : Bool
  pub handles_agent_status : Bool
  pub handles_agent_timeout : Bool

-- A call of the handler. In `on_conversation_id` the conversation has nothing but its ID.
pub data Event : Type 0 where
  on_message : Message → Event
  on_delete_message : String → String → Event
  on_mark_read : String → ℕ → Event
  on_conversation_id : String → Event
  on_conversation : Conversation → Event
  on_typing : TypingUpdatePayload → Event
  on_streaming : StreamingUpdatePayload → Event
  on_agent_status : AgentStatusPayload → Event
  on_agent_timeout : AgentTimeoutPayload → Event
  on_gap : ℕ → Event

-- `now` and `new_id` are the clock and uuid.New as read while the update with the given seq is
-- processed. `get_conversation` answers an attempt, `sync_updates` the request of a round.
-- `is_cancelled` tells of each back-off whether the context ends in it,
-- `pool_timeout` is the error of the context that ends the wait of a statement on the pool, none where
-- the context does not end, and
-- `is_done` tells of each round of a full synchronisation whether the context has ended before it.
pub record Env : Type 1 where
  pub sql : Sql
  pub strconv : Strconv
  pub codec : Codec
  pub handler : Option Handler
  pub user_id : String
  pub batch_size : ℕ
  pub now : ℕ → ℕ
  pub new_id : ℕ → String
  pub get_conversation : ℕ → String → Result Fault String
  pub sync_updates : ℕ → ℕ → ℕ → Result Fault String
  pub is_cancelled : ℕ → Bool
  pub is_done : ℕ → Bool
  pub pool_timeout : Option Fault

-- Why the manager gives up: a gap in the sequence, the end of the context, or a `SyncError`
-- around another error.
pub data Failure : Type 0 where
  seq_gap context_done : Failure
  sync_error : Fault → Failure

-- `pull_pending` says that the debounce timer is armed, `retries` counts the armed retry timers.
pub record Manager : Type 0 where
  pub tables : Tables
  pub events : List Event
  pub pull_pending : Bool
  pub retries : ℕ

-- `updatedAtUnix`: the number, else the time, else 0.
unfoldable pub updated_at_unix : Codec → ConversationUpdatePayload → ℕ
updated_at_unix codec p =
    if codec.is_empty p.updated_at then 0 else elim (codec.int64 p.updated_at) [
      | some n ↦ n
      | none ↦ elim (codec.rfc3339 p.updated_at) [ some t ↦ t | none ↦ 0 ]
    ]

-- `time.Time.Unix` of a time in nanoseconds.
abbrev pub unix : ℕ → ℕ
unix t = t / 1_000_000_000
