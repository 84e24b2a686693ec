-- ===== src/Client/Sync/Keeps.antt =====
-- pkg/store: what the writes of the synchronisation leave alone, the sync state and the
-- notification log.
use xyncra_server.Common.{ℕ, ◌≡◌, refl, ◌∙◌, String, arith}
use xyncra_server.Fault.{Fault, Result, ok, err, not_found, ◌>>=◌}
use xyncra_server.Sql.{Sql}
use xyncra_server.Client.Model.{Conversation, Message, Tables}
use xyncra_server.Client.Stores.Conversations
use xyncra_server.Client.Stores.Messages
use xyncra_server.Client.Sync.Dispatch.{unless_missing, best_effort}

pub record SameSync (db db' : Tables) : Type 0 where
  pub states : db'.sync_states ≡ db.sync_states
  pub logs : db'.notification_logs ≡ db.notification_logs

-- Of a result: where it is one, it satisfies `P`.
abbrev pub Post : {A : Type 0} → (A → Type 0) → Result Fault A → Type 0
Post P (ok a) = P a
Post P (err e) = Unit

pub Post-bind :
    {A B : Type 0} (P : B → Type 0) (m : Result Fault A) (f : A → Result Fault B)
    → ((a : A) → Post P (f a))
    → Post P (m >>= f)
Post-bind P (ok a) f h = h a
Post-bind P (err e) f h = tt

pub SameSync-refl : (db : Tables) → SameSync db db
SameSync-refl db = record { states = refl; logs = refl }

module _ (sql : Sql) (now : ℕ) where
  pub create_or_update-SameSync :
      (msg : Message) (db : Tables)
      → Post (λ (p : Tables × Message). SameSync db p.0) (Messages.create_or_update sql now msg db)
  unfolding Messages.create_or_update
  create_or_update-SameSync msg db = ground arith

  pub update_last_message-SameSync :
      (id : String) (at n : ℕ) (db : Tables)
      → Post (SameSync db) (Conversations.update_last_message sql now id at n db)
  unfolding Conversations.update_last_message
  update_last_message-SameSync id at n db = ground arith

  pub soft_delete-SameSync :
      (id : String) (db : Tables) → Post (SameSync db) (Conversations.soft_delete sql now id db)
  unfolding Conversations.soft_delete
  soft_delete-SameSync id db = ground arith

  pub restore-SameSync :
      (id : String) (db : Tables) → Post (SameSync db) (Conversations.restore sql now id db)
  unfolding Conversations.restore
  restore-SameSync id db = ground arith

  pub upsert-SameSync :
      (conv : Conversation) (db : Tables)
      → Post (SameSync db) (Conversations.upsert sql now conv db)
  unfolding Conversations.upsert
  upsert-SameSync conv db = ground arith

  pub soft_delete_message-SameSync :
      (id : String) (db : Tables) → Post (SameSync db) (Messages.soft_delete sql now id db)
  unfolding Messages.soft_delete
  soft_delete_message-SameSync id db = ground arith

  pub update_last_read-SameSync :
      (conv_id user_id : String) (n : ℕ) (db : Tables)
      → Post (SameSync db) (Conversations.update_last_read sql now conv_id user_id n db)
  unfolding Conversations.update_last_read
  update_last_read-SameSync conv_id user_id n db = ground arith

  pub delete_remote_callings-SameSync :
      (id : String) (db : Tables)
      → Post (SameSync db) (Conversations.delete_remote_callings sql now id db)
  unfolding Conversations.delete_remote_callings
  delete_remote_callings-SameSync id db = ground arith

SameSync-trans : (a b c : Tables) → SameSync a b → SameSync b c → SameSync a c
SameSync-trans a b c h k = record { states = k.states ∙ h.states; logs = k.logs ∙ h.logs }

Post-weaken :
    {A : Type 0} (P Q : A → Type 0) (r : Result Fault A)
    → ((a : A) → P a → Q a)
    → Post P r
    → Post Q r
Post-weaken P Q (ok a) h p = h a p
Post-weaken P Q (err e) h p = tt

-- Two parts, one after the other.
pub Post-chain :
    (db : Tables) (m : Result Fault Tables) (f : Tables → Result Fault Tables)
    → Post (SameSync db) m
    → ((db' : Tables) → Post (SameSync db') (f db'))
    → Post (SameSync db) (m >>= f)
Post-chain db (ok db') f p k =
    Post-weaken (SameSync db') (SameSync db) (f db') (λ c q. SameSync-trans db db' c p q) (k db')
Post-chain db (err e) f p k = tt

pub Post-chain_with :
    {A : Type 0} (db : Tables) (m : Result Fault (Tables × A))
    (f : Tables × A → Result Fault Tables)
    → Post (λ (p : Tables × A). SameSync db p.0) m
    → ((p : Tables × A) → Post (SameSync p.0) (f p))
    → Post (SameSync db) (m >>= f)
Post-chain_with db (ok p) f h k =
    Post-weaken (SameSync p.0) (SameSync db) (f p) (λ c q. SameSync-trans db p.0 c h q) (k p)
Post-chain_with db (err e) f h k = tt

pub unless_missing-SameSync :
    (db : Tables) (r : Result Fault Tables)
    → Post (SameSync db) r
    → Post (SameSync db) (unless_missing db r)
unless_missing-SameSync db (ok db') h = h
unless_missing-SameSync db (err not_found) h = SameSync-refl db
unless_missing-SameSync db (err _) h = tt

pub best_effort-SameSync :
    (db : Tables) (r : Result Fault Tables) → Post (SameSync db) r → SameSync db (best_effort db r)
best_effort-SameSync db (ok db') h = h
best_effort-SameSync db (err e) h = SameSync-refl db
