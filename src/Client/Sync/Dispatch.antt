-- ===== src/Client/Sync/Dispatch.antt =====
-- pkg/client/sync.go: `dispatchUpdateTx` and the handlers that it calls, inside a transaction.
use xyncra_server.Common.{
  ℕ, String, Bool, not, ◌||◌, Option, none, some, true, false, List, [], ◌∷◌, str_eq, ltb, leb,
  if◌then◌else◌,
}
use xyncra_server.Fault.{Fault, not_found, unclassified, waiting, Result, ok, err, ◌>>=◌}
use xyncra_server.Protocol.{PackageDataUpdate}
use xyncra_server.Client.Model.{Conversation, RemoteCalling, Tables}
use xyncra_server.Client.Stores.Conversations
use xyncra_server.Client.Stores.Messages
use xyncra_server.Client.Sync.Env.{
  Env, GetConversationResponse, ConversationUpdatePayload, updated_at_unix, unix,
}

-- `json.Unmarshal`, as an error of the transaction.
abbrev pub decoded : {A : Type 0} → Option A → Result Fault A
decoded none = err unclassified
decoded (some a) = ok a

-- A missing record is no error: the transaction goes on with the tables as they were.
abbrev pub unless_missing : Tables → Result Fault Tables → Result Fault Tables
unless_missing db (ok db') = ok db'
unless_missing db (err not_found) = ok db
unless_missing db (err e) = err e

-- A statement whose failure is only logged.
abbrev pub best_effort : Tables → Result Fault Tables → Tables
best_effort db (ok db') = db'
best_effort db (err e) = db

-- A statement on the connection pool inside a transaction. The pool has one connection
-- (`SetMaxOpenConns(1)`), which the transaction holds, so the statement waits until the context ends.
-- By then the transaction, which has the same context, is rolled back: whatever the handler still does,
-- the transaction fails. Where the context never ends, the call does not return, which
-- `waiting` marks up to the loop that makes it.
unfoldable pub pooled : {A : Type 0} → Env → Result Fault A
pooled env = elim env.pool_timeout [ some e ↦ err e | none ↦ err waiting ]

-- Whether the local row is as new as the update says (D-124).
abbrev pub is_current : ℕ → Result Fault Conversation → Bool
is_current updated_at (ok local) = leb updated_at (unix local.updated_at)
is_current updated_at (err e) = false

-- Stale remote callings go when the agent no longer asks, or when a new set has come (D-137).
unfoldable pub is_stale : Conversation → List RemoteCalling → Bool
is_stale conv [] = not (str_eq conv.agent_status "asking_user")
is_stale conv (_ ∷ _) = true

-- The update types that change nothing: the gap filler, and the ephemeral ones.
unfoldable pub is_ignored : String → Bool
is_ignored kind =
    str_eq kind "gap"
    || (str_eq kind "typing"
        || (str_eq kind "streaming" || (str_eq kind "agent_status" || str_eq kind "agent_timeout")))

module _ (env : Env) (now : ℕ) where
  open env use {sql, codec}

  unfoldable pub handle_message : String → Tables → Result Fault Tables
  handle_message payload db = do
    msg ← decoded (codec.message payload)
    (db', kept) ← Messages.create_or_update sql now msg db
    unless_missing db' (
        Conversations.update_last_message sql now kept.conversation_id kept.created_at
          kept.message_id db')

  unfoldable pub handle_delete_message : String → Tables → Result Fault Tables
  handle_delete_message payload db = do
    dp ← decoded (codec.delete_message payload)
    unless_missing db (Messages.soft_delete sql now dp.message_id db)

  unfoldable pub handle_mark_read : String → Tables → Result Fault Tables
  handle_mark_read payload db = do
    mp ← decoded (codec.mark_read payload)
    unless_missing db (
        Conversations.update_last_read sql now mp.conversation_id env.user_id
          mp.last_read_message_id db)

  unfoldable pub clear_stale : GetConversationResponse → Conversation → Tables → Tables
  unfolding is_stale
  clear_stale r conv db =
      if is_stale conv r.remote_callings
      then best_effort db (Conversations.delete_remote_callings sql now conv.id db)
      else db

  -- `RemoteCallings.Upsert` runs on the pool here: with a first call, the transaction is lost.
  unfoldable pub pooled_upserts : List RemoteCalling → Tables → Result Fault Tables
  unfolding pooled
  pooled_upserts [] db = ok db
  pooled_upserts (_ ∷ rcs) db = pooled env

  unfoldable pub fetch_and_upsert : String → Tables → Result Fault Tables
  unfolding clear_stale pooled_upserts
  fetch_and_upsert conv_id db = do
    answer ← env.get_conversation 0 conv_id
    result ← decoded (codec.get_conversation answer)
    conv ← decoded result.conversation
    db' ← Conversations.upsert sql now conv db
    pooled_upserts result.remote_callings (clear_stale result conv db')

  unfoldable pub or_fetch : String → Tables → Result Fault Tables → Result Fault Tables
  or_fetch conv_id db (ok db') = ok db'
  or_fetch conv_id db (err not_found) = fetch_and_upsert conv_id db
  or_fetch conv_id db (err e) = err e

  unfoldable pub handle_conversation_restore : String → Tables → Result Fault Tables
  unfolding or_fetch
  handle_conversation_restore conv_id db =
      or_fetch conv_id db (Conversations.restore sql now conv_id db)

  unfoldable pub handle_conversation_create : String → Tables → Result Fault Tables
  handle_conversation_create payload db = do
    wrapped ← decoded (codec.create_conversation payload)
    conv ← decoded wrapped
    Conversations.upsert sql now conv db

  unfoldable pub handle_conversation_upsert : String → Tables → Result Fault Tables
  handle_conversation_upsert payload db = do
    conv ← decoded (codec.conversation payload)
    Conversations.upsert sql now conv db

  -- `Conversations.Get` runs on the pool here, so the local row is never read and the transaction is lost.
  unfoldable pub handle_conversation_update : String → ℕ → Tables → Result Fault Tables
  unfolding pooled
  handle_conversation_update conv_id updated_at db =
      if ltb 0 updated_at then pooled env else fetch_and_upsert conv_id db

  unfoldable pub dispatch_action : ConversationUpdatePayload → String → Tables → Result Fault Tables
  dispatch_action peek payload db =
      if str_eq peek.action "delete"
      then unless_missing db (Conversations.soft_delete sql now peek.conversation_id db)
      else if str_eq peek.action "restore"
      then handle_conversation_restore peek.conversation_id db
      else if str_eq peek.action "create"
      then handle_conversation_create payload db
      else if str_eq peek.action "update"
      then handle_conversation_update peek.conversation_id (updated_at_unix codec peek) db
      else if str_eq peek.action ""
      then handle_conversation_upsert payload db
      else err unclassified

  unfoldable pub handle_conversation : String → Tables → Result Fault Tables
  handle_conversation payload db = do
    peek ← decoded (codec.conversation_update payload)
    dispatch_action peek payload db

  unfoldable pub dispatch_update : PackageDataUpdate → Tables → Result Fault Tables
  unfolding is_ignored
  dispatch_update u db =
      if str_eq u.kind "message"
      then handle_message u.payload db
      else if str_eq u.kind "delete_message"
      then handle_delete_message u.payload db
      else if str_eq u.kind "mark_read"
      then handle_mark_read u.payload db
      else if str_eq u.kind "conversation"
      then handle_conversation u.payload db
      else if is_ignored u.kind
      then ok db
      else err unclassified
