-- ===== src/Server/Handlers/SendMessage/Reply.antt =====
-- internal/handler/send_message.go: what a reply says has been done.
use xyncra_server.Common.{
  ◌≡◌, refl, ap, sym, ◌∙◌, String, true, false, none, some, List, [], ◌++◌, inl, inr, arith, str_eq,
  eq_iff, All-In, In, Bool-cases, has, ℕ,
}
use xyncra_server.Fault.{Fault, duplicate_key, not_found, Result, ok, err, Result-cases}
use xyncra_server.Sql.{IsSql}
use xyncra_server.Server.Model.{Message, Conversation, Tables}
use xyncra_server.Server.Stores.Messages.{
  found, is_client_message, clashes, get_conversation, get_by_client_message_id,
}
use xyncra_server.Server.Stores.SendMessage.{SendMessageResult, send_message}
use xyncra_server.Server.Stores.SendMessage.Sent.{Sent, send_message-Sent}
use xyncra_server.Server.Handlers.Tasks.{Task, deliver, recipients}
use xyncra_server.Server.Handlers.SendMessage.{
  SendMessageParams, SendMessageResponse, SendEnv, new_message, queued, agent_tasks, replied,
  with_conversation, handle_send_message,
}
use xyncra_server.Server.Handlers.Members.{conversation_members}

-- A reply: the message that was stored before under the sender's client ID, and nothing done; or the
-- message now sent to the members of the stored conversation that the call names, one of whom is the sender, and the tasks for it.
pub data Reply (env : SendEnv) (sender_id : String) (params : SendMessageParams) (db db' : Tables)
    (tasks : List Task) (resp : SendMessageResponse) : Type 0 where
  repeated :
      db' ≡ db
      → tasks ≡ []
      → resp.duplicate ≡ true
      → In resp.message db.messages
      → is_client_message params.client_message_id sender_id resp.message ≡ true
      → Reply env sender_id params db db' tasks resp
  sent :
      (conv : Conversation) (r : SendMessageResult)
      → get_conversation env.sql params.conversation_id db ≡ ok conv
      → has sender_id (conversation_members conv) ≡ true
      → Sent env.now (new_message env sender_id params conv) (conversation_members conv) db db' r
      → tasks
        ≡ queued env sender_id (deliver (recipients "message" r.updates))
          ++ agent_tasks env sender_id conv r.message
      → resp ≡ record { message = r.message; duplicate = false }
      → Reply env sender_id params db db' tasks resp

module _ (env : SendEnv) (legal : IsSql env.sql) (all_legal : (n : ℕ) → IsSql (env.sqls n))
    (sender_id : String) (params : SendMessageParams) (db db' : Tables) (tasks : List Task)
    (resp : SendMessageResponse) where
  lookup_lem :
      (m : Message)
      → get_by_client_message_id env.sql params.client_message_id sender_id db ≡ ok m
      → In m db.messages × (is_client_message params.client_message_id sender_id m ≡ true)
  unfolding get_by_client_message_id found
  lookup_lem m e =
      elim (Result-cases (
        env.sql.first Message (is_client_message params.client_message_id sender_id) db.messages)) [
          | inl (some m', first) ↦
              let same : m ≡ m' = cc (rw first at e) in
              rw same (
                legal.first_answer Message (is_client_message params.client_message_id sender_id)
                  db.messages (some m') first)
          | inl (none, first) ↦ cc (rw first at e)
          | inr (f, failed) ↦ cc (rw failed at e)
        ]

  replied-Reply :
      (conv : Conversation) (o : Result Fault (Tables × SendMessageResult))
      → get_conversation env.sql params.conversation_id db ≡ ok conv
      → has sender_id (conversation_members conv) ≡ true
      → send_message env.now env.new_id env.marshal env.is_done env.sqls
          (new_message env sender_id params conv)
          (conversation_members conv)
          db
        ≡ o
      → replied env sender_id conv params db o ≡ ok (db', tasks, resp)
      → Reply env sender_id params db db' tasks resp
  unfolding replied
  replied-Reply conv (ok (d, r)) got member done e =
      let d_is : db' ≡ d = cc e in
      rw d_is (
        sent conv r got member
          (send_message-Sent env.now env.new_id env.marshal env.is_done env.sqls
            (new_message env sender_id params conv) (conversation_members conv) db d r all_legal
            done)
          (cc e) (cc e))
  replied-Reply conv (err duplicate_key) read member done e =
      elim (Result-cases (get_by_client_message_id env.sql params.client_message_id sender_id db)) [
        | inl (m, got) ↦
            let at_m = lookup_lem m got in
            let same : resp ≡ record { message = m; duplicate = true } =
              cc (rw (got, replied) at e) in
            repeated (cc (rw (got, replied) at e)) (cc (rw (got, replied) at e)) (cc same)
              (rw same at_m.0) (rw same at_m.1)
        | inr (f, failed) ↦ cc (rw (failed, replied) at e)
      ]
  replied-Reply conv (err _) got member done e = cc

  with_conversation-Reply :
      (o : Result Fault Conversation)
      → get_conversation env.sql params.conversation_id db ≡ o
      → with_conversation env sender_id params db o ≡ ok (db', tasks, resp)
      → Reply env sender_id params db db' tasks resp
  unfolding with_conversation
  with_conversation-Reply (ok conv) got e =
      elim (Bool-cases (has sender_id (conversation_members conv))) [
        | inl member ↦ replied-Reply conv _ got member refl (rw member at e)
        | inr stranger ↦ cc (rw stranger at e)
      ]
  with_conversation-Reply (err not_found) got e = cc
  with_conversation-Reply (err _) got e = cc

  pub handle_send_message-Reply :
      handle_send_message env sender_id (some params) db ≡ ok (db', tasks, resp)
      → Reply env sender_id params db db' tasks resp
  unfolding handle_send_message
  handle_send_message-Reply e = elim (Bool-cases (str_eq params.conversation_id "")) [
    | inl empty ↦ cc (rw empty at e)
    | inr given ↦ elim (Bool-cases (str_eq params.client_message_id "")) [
      | inl empty ↦ cc (rw (given, empty) at e)
      | inr given' ↦
          with_conversation-Reply (get_conversation env.sql params.conversation_id db) refl
            (rw (given, given') at e)
    ]
  ]

  -- A repeated call does nothing: where a message with the client ID of the call and its sender is
  -- stored, deleted or not, a reply leaves the tables as they are, queues nothing, and says that the
  -- message is a duplicate.
  pub handle_send_message_repeated :
      (m : Message)
      → In m db.messages
      → m.client_message_id ≡ params.client_message_id
      → m.sender_id ≡ sender_id
      → handle_send_message env sender_id (some params) db ≡ ok (db', tasks, resp)
      → (db' ≡ db) × (tasks ≡ []) × (resp.duplicate ≡ true)
  unfolding new_message
  handle_send_message_repeated m stored same_client same_sender e = go (handle_send_message-Reply e)
    where
      go :
          Reply env sender_id params db db' tasks resp
          → (db' ≡ db) × (tasks ≡ []) × (resp.duplicate ≡ true)
      go (repeated kept nothing dup _ _) = (kept, nothing, dup)
      go (sent conv r _ _ s _ _) =
          let other = All-In (λ x. clashes r.message x ≡ false) db.messages s.fresh m stored in
          absurd (
            impossible r.message (ap (λ (x : Message). x.client_message_id) s.message)
              (ap (λ (x : Message). x.sender_id) s.message) other)
        where
          impossible :
              (x : Message)
              → x.client_message_id ≡ params.client_message_id
              → x.sender_id ≡ sender_id
              → clashes x m ≡ false
              → ⊥
          impossible x c d other = ground (
            arith,
            eq_iff x.client_message_id m.client_message_id,
            eq_iff x.sender_id m.sender_id,
            c ∙ sym same_client,
            d ∙ sym same_sender,
            other,
          )
