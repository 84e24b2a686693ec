-- ===== src/Server/Handlers/Cascade/RoundTrip.antt =====
-- internal/handler/delete_conversation.go and restore_conversation.go: a restoration undoes a deletion.
use xyncra_server.Common.{
  ℕ, ◌≡◌, ◌∙◌, inl, inr, String, false, some, List, ◌==◌, if◌then◌else◌, In, keep, length,
  Bool-cases,
}
use xyncra_server.Fault.{Fault, ok, bind-ok}
use xyncra_server.Sql.{Sql, IsSql, update_rows}
use xyncra_server.Server.Model.{Message, Conversation, Tables}
use xyncra_server.Server.Stores.Messages.{is_conversation}
use xyncra_server.Server.Handlers.Cascade.{
  is_live_in, is_cascaded, deleted_message, restored_message, delete_messages, delete_body,
}

-- No message of the conversation was deleted at the time before.
abbrev pub NoneAt : ℕ → String → List Message → Type 0
NoneAt now conv_id t = (m : Message) → In m t → is_cascaded now conv_id m ≡ false

module _ (now : ℕ) (conv_id : String) where
  abbrev back : Message → Message
  back m = if is_cascaded now conv_id m then restored_message m else m

module _ (sql : Sql) (legal : IsSql sql) (now : ℕ) (conv_id : String) (db db' : Tables)
    (n : ℕ) where
  delete_messages-rows :
      (count affected : ℕ) (convs : List Conversation)
      → delete_messages sql now conv_id count db (convs, affected) ≡ ok (db', n)
      → (db'.messages ≡ update_rows (is_live_in conv_id) (deleted_message now) db.messages)
        × (n ≡ count)
  unfolding delete_messages
  delete_messages-rows count affected convs e = elim (Bool-cases (affected == 0)) [
    | inl none_found ↦ cc (rw none_found at e)
    | inr some_found ↦
        let ((rows, k), done, rest) =
          bind-ok (sql.update Message (is_live_in conv_id) (deleted_message now) db.messages) _
            (db', n) (rw some_found at e) in
        let changed =
          (legal.update_answer Message (is_live_in conv_id) (deleted_message now) db.messages rows k
            done).0 in
        let same : db'.messages ≡ rows = cc rest in (same ∙ changed, cc rest)
  ]

  pub delete_body-rows :
      delete_body sql now conv_id db ≡ ok (db', n)
      → (db'.messages ≡ update_rows (is_live_in conv_id) (deleted_message now) db.messages)
        × (n ≡ length (keep (is_live_in conv_id) db.messages))
  unfolding delete_body
  delete_body-rows e =
      let (count, counted, e') =
        bind-ok (sql.count Message (is_live_in conv_id) db.messages) _ (db', n) e in
      let ((convs, affected), _, e'') =
        bind-ok
          (sql.update Conversation (is_conversation conv_id)
            (λ c. record c { deleted_at = some now }) db.conversations)
          _ (db', n) e' in
      let (rows, same) = delete_messages-rows count affected convs e'' in
      (rows, same ∙ legal.count_answer Message (is_live_in conv_id) db.messages count counted)

-- The rows of the conversations after a deletion, one of which was live.
stamp : ℕ → Conversation → Conversation
stamp now c = record c { deleted_at = some now }
