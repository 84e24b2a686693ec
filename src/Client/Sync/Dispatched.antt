-- ===== src/Client/Sync/Dispatched.antt =====
-- pkg/client/sync.go: a dispatched update leaves the sync state and the notification log alone.
use xyncra_server.Common.{
  ℕ, String, Bool, true, false, List, [], ◌∷◌, arith, if◌then◌else◌, str_eq, Option-cases,
  Bool-cases, inl, inr, ltb,
}
use xyncra_server.Fault.{Fault, Result, ok, err, not_found, unclassified}
use xyncra_server.Protocol.{PackageDataUpdate}
use xyncra_server.Client.Model.{Conversation, RemoteCalling, Tables}
use xyncra_server.Client.Stores.Conversations
use xyncra_server.Client.Sync.Env.{Env, GetConversationResponse, ConversationUpdatePayload}
use xyncra_server.Client.Sync.Dispatch.{
  decoded, pooled, handle_message, handle_delete_message, handle_mark_read, clear_stale,
  pooled_upserts, fetch_and_upsert, or_fetch, handle_conversation_restore,
  handle_conversation_create, handle_conversation_upsert, handle_conversation_update, is_ignored,
  dispatch_action, handle_conversation, dispatch_update,
}
use xyncra_server.Client.Sync.Keeps.{
  SameSync, Post, Post-bind, Post-chain, Post-chain_with, SameSync-refl, unless_missing-SameSync,
  best_effort-SameSync, create_or_update-SameSync, update_last_message-SameSync,
  soft_delete-SameSync, restore-SameSync, upsert-SameSync, soft_delete_message-SameSync,
  update_last_read-SameSync, delete_remote_callings-SameSync,
}

module _ (env : Env) (now : ℕ) where
  open env use {sql, codec}

  handle_message-SameSync :
      (payload : String) (db : Tables) → Post (SameSync db) (handle_message env now payload db)
  unfolding handle_message
  handle_message-SameSync payload db =
      Post-bind (SameSync db) (decoded (codec.message payload)) _ λ msg.
        Post-chain_with db _ _ (create_or_update-SameSync sql now msg db) λ p.
          unless_missing-SameSync p.0 _ (
            update_last_message-SameSync sql now p.1.conversation_id p.1.created_at p.1.message_id
              p.0)

  handle_delete_message-SameSync :
      (payload : String) (db : Tables)
      → Post (SameSync db) (handle_delete_message env now payload db)
  unfolding handle_delete_message
  handle_delete_message-SameSync payload db =
      Post-bind (SameSync db) (decoded (codec.delete_message payload)) _
        λ dp. unless_missing-SameSync db _ (soft_delete_message-SameSync sql now dp.message_id db)

  handle_mark_read-SameSync :
      (payload : String) (db : Tables) → Post (SameSync db) (handle_mark_read env now payload db)
  unfolding handle_mark_read
  handle_mark_read-SameSync payload db =
      Post-bind (SameSync db) (decoded (codec.mark_read payload)) _ λ mp.
        unless_missing-SameSync db _ (
          update_last_read-SameSync sql now mp.conversation_id env.user_id mp.last_read_message_id
            db)

  pooled-Post : (P : Tables → Type 0) → Post P (pooled env)
  unfolding pooled
  pooled-Post P = elim (Option-cases env.pool_timeout) [
    | inl forever ↦ rw forever tt
    | inr (e, ends) ↦ rw ends tt
  ]

  pooled_upserts-SameSync :
      (rcs : List RemoteCalling) (db db' : Tables)
      → SameSync db db'
      → Post (SameSync db) (pooled_upserts env now rcs db')
  unfolding pooled_upserts pooled
  pooled_upserts-SameSync [] db db' h = h
  pooled_upserts-SameSync (rc ∷ rcs) db db' h = pooled-Post (SameSync db)

  clear_stale-SameSync :
      (r : GetConversationResponse) (conv : Conversation) (db : Tables)
      → SameSync db (clear_stale env now r conv db)
  unfolding clear_stale
  clear_stale-SameSync r conv db = ground (
    arith,
    best_effort-SameSync db (Conversations.delete_remote_callings sql now conv.id db)
        (delete_remote_callings-SameSync sql now conv.id db),
    SameSync-refl db,
  )

  fetch_and_upsert-SameSync :
      (id : String) (db : Tables) → Post (SameSync db) (fetch_and_upsert env now id db)
  unfolding fetch_and_upsert
  fetch_and_upsert-SameSync id db = Post-bind (SameSync db) (env.get_conversation 0 id) _ λ answer.
      Post-bind (SameSync db) (decoded (codec.get_conversation answer)) _ λ result.
        Post-bind (SameSync db) (decoded result.conversation) _ λ conv.
          Post-chain db _ _ (upsert-SameSync sql now conv db) λ db'.
            pooled_upserts-SameSync result.remote_callings db' (clear_stale env now result conv db')
              (clear_stale-SameSync result conv db')

  or_fetch-SameSync :
      (id : String) (db : Tables) (r : Result Fault Tables)
      → Post (SameSync db) r
      → Post (SameSync db) (or_fetch env now id db r)
  unfolding or_fetch
  or_fetch-SameSync id db (ok db') h = h
  or_fetch-SameSync id db (err not_found) h = fetch_and_upsert-SameSync id db
  or_fetch-SameSync id db (err _) h = tt

  update-SameSync :
      (id : String) (at : ℕ) (db : Tables)
      → Post (SameSync db) (handle_conversation_update env now id at db)
  unfolding handle_conversation_update pooled
  update-SameSync id at db = elim (Bool-cases (ltb 0 at)) [
    | inl dated ↦ rw (handle_conversation_update, dated) (pooled-Post (SameSync db))
    | inr undated ↦ rw (handle_conversation_update, undated) (fetch_and_upsert-SameSync id db)
  ]

  create-SameSync :
      (payload : String) (db : Tables)
      → Post (SameSync db) (handle_conversation_create env now payload db)
  unfolding handle_conversation_create
  create-SameSync payload db =
      Post-bind (SameSync db) (decoded (codec.create_conversation payload)) _ λ wrapped.
        Post-bind (SameSync db) (decoded wrapped) _ λ conv. upsert-SameSync sql now conv db

  legacy-SameSync :
      (payload : String) (db : Tables)
      → Post (SameSync db) (handle_conversation_upsert env now payload db)
  unfolding handle_conversation_upsert
  legacy-SameSync payload db =
      Post-bind (SameSync db) (decoded (codec.conversation payload)) _
        λ conv. upsert-SameSync sql now conv db

  record Keeps (db : Tables) (r : Result Fault Tables) : Type 0 where
    at : Post (SameSync db) r

  Keeps-if :
      (b : Bool) (db : Tables) (r s : Result Fault Tables)
      → Keeps db r
      → Keeps db s
      → Keeps db (if b then r else s)
  Keeps-if true db r s h k = h
  Keeps-if false db r s h k = k

  dispatch_action-Keeps :
      (peek : ConversationUpdatePayload) (payload : String) (db : Tables)
      → Keeps db (dispatch_action env now peek payload db)
  unfolding dispatch_action handle_conversation_restore
  dispatch_action-Keeps peek payload db =
      Keeps-if (str_eq peek.action "delete") db _ _
        (record {
          at = unless_missing-SameSync db _ (soft_delete-SameSync sql now peek.conversation_id db);
        })
        (Keeps-if (str_eq peek.action "restore") db _ _
          (record {
            at =
                or_fetch-SameSync peek.conversation_id db _
                  (restore-SameSync sql now peek.conversation_id db);
          })
          (Keeps-if (str_eq peek.action "create") db _ _
            (record { at = create-SameSync payload db })
            (Keeps-if (str_eq peek.action "update") db _ _
              (record { at = update-SameSync peek.conversation_id _ db })
              (Keeps-if (str_eq peek.action "") db _ (err unclassified)
                (record { at = legacy-SameSync payload db }) (record { at = tt })))))

  handle_conversation-SameSync :
      (payload : String) (db : Tables) → Post (SameSync db) (handle_conversation env now payload db)
  unfolding handle_conversation
  handle_conversation-SameSync payload db =
      Post-bind (SameSync db) (decoded (codec.conversation_update payload)) _
        λ peek. (dispatch_action-Keeps peek payload db).at

  dispatch_update-Keeps :
      (u : PackageDataUpdate) (db : Tables) → Keeps db (dispatch_update env now u db)
  unfolding dispatch_update
  dispatch_update-Keeps u db =
      Keeps-if (str_eq u.kind "message") db _ _
        (record { at = handle_message-SameSync u.payload db })
        (Keeps-if (str_eq u.kind "delete_message") db _ _
          (record { at = handle_delete_message-SameSync u.payload db })
          (Keeps-if (str_eq u.kind "mark_read") db _ _
            (record { at = handle_mark_read-SameSync u.payload db })
            (Keeps-if (str_eq u.kind "conversation") db _ _
              (record { at = handle_conversation-SameSync u.payload db })
              (Keeps-if (is_ignored u.kind) db _ (err unclassified)
                (record { at = SameSync-refl db }) (record { at = tt })))))

  -- Whatever is dispatched, where it succeeds, the sync state and the notification log stay as they
  -- are.
  pub dispatch_update-SameSync :
      (u : PackageDataUpdate) (db : Tables) → Post (SameSync db) (dispatch_update env now u db)
  dispatch_update-SameSync u db = (dispatch_update-Keeps u db).at
