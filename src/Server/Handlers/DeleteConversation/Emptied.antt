-- ===== src/Server/Handlers/DeleteConversation/Emptied.antt =====
-- internal/handler/delete_conversation.go: a deletion that is answered.
use xyncra_server.Common.{
  ℕ, ◌≡◌, refl, ap, ◌∙◌, inl, inr, String, true, false, some, List, str_eq, In, keep, length, has,
  Bool-cases,
}
use xyncra_server.Fault.{Fault, not_found, Result, ok, err}
use xyncra_server.Sql.{IsSql, update_rows}
use xyncra_server.Sql.Rows.{In-update_rows}
use xyncra_server.Server.Model.{Message, Conversation, Tables}
use xyncra_server.Server.Stores.Transactions.{transaction}
use xyncra_server.Server.Stores.Transactions.Attempts.{transaction-ok}
use xyncra_server.Server.Stores.Messages.{get_conversation}
use xyncra_server.Server.Handlers.Members.{conversation_members}
use xyncra_server.Server.Handlers.Cascade.{is_live_in, deleted_message, delete_body}
use xyncra_server.Server.Handlers.Cascade.Told.{tell_members-messages}
use xyncra_server.Server.Handlers.Cascade.RoundTrip.{delete_body-rows}
use xyncra_server.Server.Handlers.DeleteConversation.{
  DeleteEnv, DeleteConversationResponse, Answer, deleted, with_conversation,
  handle_delete_conversation,
}

-- The caller is a member of the conversation that is read, its messages are deleted, and the answer counts them.
pub record Emptied (env : DeleteEnv) (user_id conv_id : String) (db : Tables) (a : Answer) (n : ℕ)
    : Type 0 where
  pub conversation : Conversation
  pub read : get_conversation env.sql conv_id db ≡ ok conversation
  pub member : has user_id (conversation_members conversation) ≡ true
  pub messages :
      a.0.messages ≡ update_rows (is_live_in conv_id) (deleted_message env.now) db.messages
  pub empty : (m : Message) → In m a.0.messages → is_live_in conv_id m ≡ false
  pub counted : n ≡ length (keep (is_live_in conv_id) db.messages)

none_live :
    (now : ℕ) (conv_id : String) (t : List Message) (m : Message)
    → In m (update_rows (is_live_in conv_id) (deleted_message now) t)
    → is_live_in conv_id m ≡ false
none_live now conv_id t m there =
    let (x, _, was) = In-update_rows (is_live_in conv_id) (deleted_message now) t m there in
    elim (Bool-cases (is_live_in conv_id x)) [
      | inl live ↦ let same : m ≡ deleted_message now x = rw live at was in rw same refl
      | inr other ↦ let same : m ≡ x = rw other at was in rw same other
    ]

module _ (env : DeleteEnv) (legal : IsSql env.sql) (all_legal : (n : ℕ) → IsSql (env.sqls n))
    (user_id conv_id : String) (db : Tables) (resp : DeleteConversationResponse) where
  deleted-Emptied :
      (conv : Conversation) (r : Result Fault (Tables × ℕ))
      → get_conversation env.sql conv_id db ≡ ok conv
      → has user_id (conversation_members conv) ≡ true
      → transaction env.is_done (λ n. delete_body (env.sqls n) env.now conv_id db) ≡ r
      → (deleted env user_id conv_id (conversation_members conv) db r).2 ≡ ok resp
      → Emptied env user_id conv_id db
          (deleted env user_id conv_id (conversation_members conv) db r)
          resp.deleted_message_count
  unfolding deleted
  deleted-Emptied conv (err not_found) got member done e = cc
  deleted-Emptied conv (err _) got member done e = cc
  deleted-Emptied conv (ok (db', count)) got member done e =
      let (k, body) =
        transaction-ok env.is_done (λ n. delete_body (env.sqls n) env.now conv_id db) (db', count)
          done in
      let (rows, counts) =
        delete_body-rows (env.sqls k) (all_legal k) env.now conv_id db db' count body in
      let same : resp ≡ record { status = "ok"; deleted_message_count = count } = cc e in
      let kept =
        tell_members-messages "conversation" env.now env.new_id env.sql legal env.queues
          (env.payload conv_id) (conversation_members conv) db'
        ∙ rows in
      record {
        conversation = conv;
        read = got;
        member = member;
        messages = kept;
        empty = rw kept (none_live env.now conv_id db.messages);
        counted = ap (λ (x : DeleteConversationResponse). x.deleted_message_count) same ∙ counts;
      }

  with_conversation-Emptied :
      (r : Result Fault Conversation)
      → get_conversation env.sql conv_id db ≡ r
      → (with_conversation env user_id conv_id db r).2 ≡ ok resp
      → Emptied env user_id conv_id db
          (with_conversation env user_id conv_id db r)
          resp.deleted_message_count
  unfolding with_conversation
  with_conversation-Emptied (err not_found) got e = cc
  with_conversation-Emptied (err _) got e = cc
  with_conversation-Emptied (ok conv) got e =
      elim (Bool-cases (has user_id (conversation_members conv))) [
        | inl member ↦
            rw (with_conversation, member)
              (deleted-Emptied conv
                (transaction env.is_done (λ n. delete_body (env.sqls n) env.now conv_id db)) got
                member refl (rw member at e))
        | inr stranger ↦ cc
      ]

  -- An answer of delete_conversation: the caller is a member of the conversation, the messages of the
  -- conversation that were not deleted are deleted at one time and counted in the answer, none of the
  -- conversation is left, and the other messages stay as they are.
  pub handle_delete_conversation-Emptied :
      (handle_delete_conversation env user_id (some conv_id) db).2 ≡ ok resp
      → Emptied env user_id conv_id db
          (handle_delete_conversation env user_id (some conv_id) db)
          resp.deleted_message_count
  unfolding handle_delete_conversation
  handle_delete_conversation-Emptied e = elim (Bool-cases (str_eq conv_id "")) [
    | inl b ↦ cc
    | inr b ↦
        rw (handle_delete_conversation, b)
          (with_conversation-Emptied (get_conversation env.sql conv_id db) refl (rw b at e))
  ]
