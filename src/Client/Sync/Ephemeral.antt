-- ===== src/Client/Sync/Ephemeral.antt =====
-- pkg/client/sync.go: `handleEphemeralConversationUpdate`, the pull on a notification (D-118, D-124).
use xyncra_server.Common.{
  ℕ, zero, suc, ◌+◌, String, ◌&&◌, Option, none, some, List, [], ◌∷◌, ◌++◌, str_eq, ltb,
  if◌then◌else◌,
}
use xyncra_server.Fault.{Fault, Result, ok, err}
use xyncra_server.Protocol.{PackageDataUpdate}
use xyncra_server.Client.Model.{Conversation, RemoteCalling, Tables}
use xyncra_server.Client.Stores.Conversations
use xyncra_server.Client.Sync.Env.{
  Env, Event, GetConversationResponse, ConversationUpdatePayload, Manager, on_conversation,
  updated_at_unix,
}
use xyncra_server.Client.Sync.Notify.{notify_handler}
use xyncra_server.Client.Sync.Dispatch.{best_effort, is_current, is_stale}

pub data Fetched : Type 0 where
  fetched : String → Fetched
  exhausted cancelled : Fetched

abbrev pub fetch_retries : ℕ
fetch_retries = 3

module _ (env : Env) where
  open env use {sql, codec}

  -- The loop over the attempts; the context may end in the back-off between two of them.
  unfoldable pub fetch : ℕ → ℕ → String → Fetched
  fetch zero attempt id = exhausted
  fetch (suc left) attempt id = elim (env.get_conversation attempt id) [
    | ok answer ↦ fetched answer
    | err _ ↦
        if ltb (attempt + 1) fetch_retries && env.is_cancelled attempt
        then cancelled
        else fetch left (attempt + 1) id
  ]

  abbrev pub notify : List Event → Manager → Manager
  notify events m = record m { events = m.events ++ events }

  unfoldable pub on_local : Conversation → List Event
  on_local conv = elim env.handler [ none ↦ [] | some _ ↦ on_conversation conv ∷ [] ]

  upserts : List RemoteCalling → Tables → Tables
  upserts [] db = db
  upserts (rc ∷ rcs) db =
      upserts rcs (best_effort db (Conversations.upsert_remote_calling sql rc db))

  -- The fetched conversation and its remote callings, each write on its own.
  unfoldable pub store_fetched : ℕ → Conversation → List RemoteCalling → Tables → Tables
  unfolding upserts
  store_fetched now conv rcs db =
      let db' = best_effort db (Conversations.upsert sql now conv db) in
      upserts rcs (
        if is_stale conv rcs
        then best_effort db' (Conversations.delete_remote_callings sql now conv.id db')
        else db')

  answered : PackageDataUpdate → Option GetConversationResponse → Manager → Manager
  unfolding store_fetched on_local
  answered u none m = notify (notify_handler env u) m
  answered u (some r) m = elim r.conversation [
    | none ↦ notify (notify_handler env u) m
    | some conv ↦
        notify (on_local conv)
          (record m { tables = store_fetched (env.now u.seq) conv r.remote_callings m.tables })
  ]

  pull : PackageDataUpdate → ConversationUpdatePayload → Manager → Manager
  unfolding answered fetch
  pull u peek m = elim (fetch fetch_retries 0 peek.conversation_id) [
    | fetched answer ↦ answered u (codec.get_conversation answer) m
    | _ ↦ notify (notify_handler env u) m
  ]

  -- The local row answers the notification if it is as new (D-124), else the server is asked.
  pull_if_newer :
      PackageDataUpdate → ConversationUpdatePayload → Result Fault Conversation → Manager → Manager
  unfolding pull on_local
  pull_if_newer u peek (err e) m = pull u peek m
  pull_if_newer u peek (ok local) m =
      if ltb 0 (updated_at_unix codec peek) && is_current (updated_at_unix codec peek) (ok local)
      then notify (on_local local) m
      else pull u peek m

  notified : PackageDataUpdate → Option ConversationUpdatePayload → Manager → Manager
  unfolding pull_if_newer
  notified u none m = m
  notified u (some peek) m =
      if str_eq peek.action "update"
      then pull_if_newer u peek (Conversations.get sql peek.conversation_id m.tables) m
      else notify (notify_handler env u) m

  unfoldable pub handle_ephemeral_conversation_update : PackageDataUpdate → Manager → Manager
  unfolding notified
  handle_ephemeral_conversation_update u m = notified u (codec.conversation_update u.payload) m
