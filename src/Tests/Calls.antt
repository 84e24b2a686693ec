-- ===== src/Tests/Calls.antt =====
-- An agent that waits for two calls, one of them overdue.
use xyncra_server.Common.{
  ℕ, ◌≡◌, refl, String, true, false, Option, none, some, List, [], ◌∷◌, ◌==◌, if◌then◌else◌, inl,
  inr,
}
use xyncra_server.Fault.{conflict, ok, err}
use xyncra_server.Server.Model.{UserUpdate, RemoteCalling, Tables}
use xyncra_server.Server.Stores.Transactions.{transaction}
use xyncra_server.Server.Stores.Fanout.{allocate}
use xyncra_server.Server.Stores.UserUpdates.{create, get_latest_seq}
use xyncra_server.Server.Stores.RemoteCallings.{
  settled, with_result, resolve_result, resolve_error, delete_by_checkpoint, deleted, cancelled,
  cancel_found, cancel_by_checkpoint,
}
use xyncra_server.Server.Stores.RemoteCallings.Evolves.{Changed}
use xyncra_server.Server.Stores.RemoteCallings.Steps.{here, next, resulted, cleared, Reach-Changed}
use xyncra_server.Server.Stores.RemoteCallings.Final.{IsSettled}
use xyncra_server.Server.Stores.RemoteCallings.Ends.{
  Ends, with_a_result, resolve_once, resolve_conflict,
}
use xyncra_server.Server.Handlers.Tasks.{Task, deliver, recipients}
use xyncra_server.Server.Handlers.Broadcast.{BroadcastEnv, broadcast_conversation_update}
use xyncra_server.Server.Handlers.Broadcast.Told.{Told, broadcast-Told}
use xyncra_server.Tests.Engine.{list_engine, list_engine-IsSql}
use xyncra_server.Tests.Send.{room_of_two}

abbrev pub call : String → Option ℕ → RemoteCalling
call id expires_at = record {
  id = id;
  conversation_id = "room";
  checkpoint_id = "k";
  agent_id = "bob";
  message_id = 4;
  method = "look_up";
  params = "";
  interrupt_id = "";
  device_id = "";
  status = "pending";
  result = "";
  error_message = "";
  success = false;
  created_at = 3;
  resolved_at = none;
  expires_at = expires_at;
  cancelled_at = none;
  cancelled_by = "";
  cancel_reason = "";
  deleted_at = none;
}

abbrev pub with_calls : List RemoteCalling → Tables
with_calls calls = record {
  conversations = room_of_two ∷ [];
  messages = [];
  user_updates = [];
  remote_callings = calls;
}

abbrev pub waiting : Tables
waiting = with_calls (call "c1" none ∷ call "c2" (some 5) ∷ [])

abbrev answered_call : RemoteCalling
answered_call = with_result 9 "sunny" (call "c1" none)

abbrev answered : Tables
answered = with_calls (answered_call ∷ call "c2" (some 5) ∷ [])

abbrev cleaned : Tables
cleaned = with_calls (deleted 10 answered_call ∷ deleted 10 (call "c2" (some 5)) ∷ [])

answers : resolve_result list_engine 9 "c1" "sunny" waiting ≡ ok answered
unfolding resolve_result settled
answers = refl

cleans : delete_by_checkpoint list_engine 10 "k" answered ≡ ok cleaned
unfolding delete_by_checkpoint
cleans = refl

Reach-Changed_example : Changed waiting.remote_callings cleaned.remote_callings
Reach-Changed_example =
    Reach-Changed list_engine list_engine-IsSql waiting cleaned
      (next (next here (resulted 9 "c1" "sunny" answers)) (cleared 10 "k" cleans))

resolve_once_example : ¬ Ends list_engine "c1" cleaned waiting
resolve_once_example =
    resolve_once list_engine list_engine-IsSql "c1" waiting answered cleaned waiting
      (with_a_result 9 "sunny" answers) (next here (cleared 10 "k" cleans))

-- The calls of the checkpoint are cancelled, and then deleted.
abbrev cancelled_call : RemoteCalling
cancelled_call = cancelled 9 "late" "ann" (call "c1" none)

abbrev called_off : Tables
called_off = with_calls (cancelled_call ∷ cancelled 9 "late" "ann" (call "c2" (some 5)) ∷ [])

abbrev gone : Tables
gone =
    with_calls
      (deleted 10 cancelled_call ∷ deleted 10 (cancelled 9 "late" "ann" (call "c2" (some 5))) ∷ [])

cancels :
    cancel_by_checkpoint list_engine 9 "k" "late" "ann" waiting ≡ ok (called_off, 2, "room", "bob")
unfolding cancel_by_checkpoint cancel_found
cancels = refl

goes : delete_by_checkpoint list_engine 10 "k" called_off ≡ ok gone
unfolding delete_by_checkpoint
goes = refl

c1-IsSettled : IsSettled "c1" called_off.remote_callings
c1-IsSettled = record {
  there = (cancelled_call, inl refl, refl);
  closed = λ a m. elim m [
    | inl same ↦ rw same refl
    | inr (inl same) ↦ rw same refl
    | inr (inr none_left) ↦ absurd none_left
  ];
}

resolve_conflict_example :
    (resolve_result list_engine 11 "c1" "rainy" gone ≡ err conflict)
    × (resolve_error list_engine 12 "c1" "late" gone ≡ err conflict)
resolve_conflict_example =
    resolve_conflict list_engine list_engine-IsSql "c1" called_off gone 11 12 "rainy" "late"
      gone.remote_callings gone.remote_callings 0 0 (some (deleted 10 cancelled_call)) c1-IsSettled
      (next here (cleared 10 "k" goes)) refl refl refl

abbrev pub broadcast_env : BroadcastEnv
broadcast_env = record {
  sqls = λ n. list_engine;
  is_done = λ n. false;
  now = 9;
  new_id = λ n. if n == 0 then "u1" else "u2";
  payload = λ id action. id;
  queues = λ to. true;
}

abbrev told_update : String → String → UserUpdate
told_update id user_id = record {
  id = id;
  user_id = user_id;
  seq = 1;
  kind = "conversation";
  payload = "room";
  created_at = 9;
}

abbrev told_updates : List UserUpdate
told_updates = told_update "u1" "ann" ∷ told_update "u2" "bob" ∷ []

abbrev told_tasks : List Task
told_tasks = deliver (recipients "conversation" told_updates) ∷ []

broadcast-Told_example :
    Told broadcast_env "room"
      ("ann" ∷ "bob" ∷ [])
      "update"
      waiting
      (record waiting { user_updates = told_updates })
      told_tasks
unfolding broadcast_conversation_update transaction create get_latest_seq allocate
broadcast-Told_example =
    broadcast-Told broadcast_env (λ n. list_engine-IsSql) "room" ("ann" ∷ "bob" ∷ []) "update"
      waiting (record waiting { user_updates = told_updates }) told_tasks refl
