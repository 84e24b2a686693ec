-- ===== src/Server/Stores/SendMessage/Sent.antt =====
-- internal/store/store.go: what `SendMessage` has done when it succeeds.
use xyncra_server.Common.{
  ℕ, ◌+◌, ◌%◌, ◌^◌, ◌≡◌, String, Bool, true, false, Option, none, some, List, [], ◌∷◌, ◌++◌, inl,
  inr, ltb, All, In, Bool-cases, length,
}
use xyncra_server.Fault.{ok, Result-cases}
use xyncra_server.Sql.{Sql, IsSql, update_rows}
use xyncra_server.Server.Model.{UserUpdate, Message, Conversation, Tables}
use xyncra_server.Server.Stores.Fanout.{allocate}
use xyncra_server.Server.Stores.Fanout.Fanned.{Fanned, allocate-Fanned}
use xyncra_server.Server.Stores.Transactions.Attempts.{transaction-ok}
use xyncra_server.Server.Stores.SendMessage.Persisted.{Persisted, persist-Persisted}
use xyncra_server.Server.Stores.Messages.{is_conversation, clashes, found, get_conversation}
use xyncra_server.Server.Stores.SendMessage.{
  SendMessageResult, with_defaults, last_message, encoded, send_message_body, send_message,
}

-- The message has the ID after the conversation's last and is new under both unique indexes; the
-- tables gain it and the members' updates, and the conversation's last message is moved to it.
pub record Sent (now : ℕ) (msg : Message) (member_ids : List String) (db db' : Tables)
    (r : SendMessageResult) : Type 0 where
  pub conversation : Conversation
  pub live : In conversation db.conversations
  pub named : is_conversation msg.conversation_id conversation ≡ true
  pub message :
      r.message
      ≡ with_defaults now
          (record msg { message_id = (conversation.last_processed_message_id + 1) % 2 ^ 32 })
  pub fresh : All (λ m. clashes r.message m ≡ false) db.messages
  pub messages : db'.messages ≡ db.messages ++ r.message ∷ []
  pub fanned : Fanned db.user_updates member_ids r.updates
  pub user_updates : db'.user_updates ≡ db.user_updates ++ r.updates
  pub conversations :
      db'.conversations
      ≡ update_rows
          (is_conversation msg.conversation_id)
          (last_message now r.message)
          db.conversations

module _ (now : ℕ) (new_id : ℕ → String) (marshal : Message → Option String) where
  module _ (sql : Sql) (legal : IsSql sql) where
    get_conversation-found :
        (id : String) (db : Tables) (c : Conversation)
        → get_conversation sql id db ≡ ok c
        → In c db.conversations × (is_conversation id c ≡ true)
    unfolding get_conversation found
    get_conversation-found id db c e =
        elim (Result-cases (sql.first Conversation (is_conversation id) db.conversations)) [
          | inl (some c', first) ↦
              let same : c ≡ c' = cc (rw first at e) in
              rw same (
                legal.first_answer Conversation (is_conversation id) db.conversations (some c')
                  first)
          | inl (none, first) ↦ cc (rw first at e)
          | inr (f, failed) ↦ cc (rw failed at e)
        ]

    send_message_body-Sent :
        (msg : Message) (ms : List String) (db db' : Tables) (r : SendMessageResult)
        → send_message_body now new_id marshal sql msg ms db ≡ ok (db', r)
        → Sent now msg ms db db' r
    unfolding send_message_body
    send_message_body-Sent msg ms db db' r e =
        elim (Result-cases (get_conversation sql msg.conversation_id db)) [
          | inl (c, got) ↦
              let m : Message = record msg {
                message_id = (c.last_processed_message_id + 1) % 2 ^ 32;
              } in
              elim (Result-cases (encoded (marshal m))) [
                | inl (payload, marshalled) ↦
                    elim (Result-cases (allocate now new_id "message" sql 0 payload ms db)) [
                      | inl (us, allocated) ↦ finish c us payload got allocated (
                          persist-Persisted now new_id marshal sql legal (with_defaults now m) us db
                            db' r (rw (got, marshalled, allocated) at e))
                      | inr (f, failed) ↦ cc (rw (got, marshalled, failed) at e)
                    ]
                | inr (f, failed) ↦ cc (rw (got, failed) at e)
              ]
          | inr (f, failed) ↦ cc (rw failed at e)
        ]
      where
        finish :
            (c : Conversation) (us : List UserUpdate) (payload : String)
            → get_conversation sql msg.conversation_id db ≡ ok c
            → allocate now new_id "message" sql 0 payload ms db ≡ ok us
            → Persisted now new_id marshal sql legal
                (with_defaults now
                  (record msg { message_id = (c.last_processed_message_id + 1) % 2 ^ 32 }))
                us
                db
                db'
                r
            → Sent now msg ms db db' r
        finish c us payload got allocated p =
            let at_c = get_conversation-found msg.conversation_id db c got in
            record {
              conversation = c;
              live = at_c.0;
              named = at_c.1;
              message = p.message;
              fresh = rw p.message p.fresh;
              messages = rw p.message p.messages;
              fanned =
                  rw p.updates
                    (allocate-Fanned now new_id "message" sql legal ms 0 payload db us allocated);
              user_updates = rw p.updates p.user_updates;
              conversations = rw p.message p.conversations;
            }

  -- A `SendMessage` that succeeds, in whichever of its attempts, numbered the message after the
  -- conversation's last and found no message with its ID or its client's ID for the sender; it stored
  -- the message, one update for each member at the seq after that member's latest, and the message as
  -- the conversation's last.
  pub send_message-Sent :
      (is_done : ℕ → Bool) (sqls : ℕ → Sql) (msg : Message) (ms : List String) (db db' : Tables)
      (r : SendMessageResult)
      → ((n : ℕ) → IsSql (sqls n))
      → send_message now new_id marshal is_done sqls msg ms db ≡ ok (db', r)
      → Sent now msg ms db db' r
  unfolding send_message
  send_message-Sent is_done sqls msg ms db db' r legal e = elim (Bool-cases (ltb 500 (length ms))) [
    | inl many ↦ cc (rw many at e)
    | inr few ↦
        let (n, committed) =
          transaction-ok is_done (λ n. send_message_body now new_id marshal (sqls n) msg ms db)
            (db', r) (rw few at e) in
        send_message_body-Sent (sqls n) (legal n) msg ms db db' r committed
  ]
