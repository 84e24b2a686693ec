-- ===== src/Client/Sync/Notify.antt =====
-- pkg/client/sync.go: `notifyHandler`. The handler's errors are dropped, so a call is an event.
use xyncra_server.Common.{Bool, Option, none, some, List, [], ◌∷◌, str_eq, if◌then◌else◌}
use xyncra_server.Protocol.{PackageDataUpdate}
use xyncra_server.Client.Sync.Env.{
  Codec, Handler, Env, Event, on_message, on_delete_message, on_mark_read, on_conversation_id,
  on_typing, on_streaming, on_agent_status, on_agent_timeout, on_gap,
}

abbrev pub one {ℓ} : {A : Type ℓ} → (A → Event) → Option A → List Event
one call none = []
one call (some p) = call p ∷ []

abbrev pub when : Bool → List Event → List Event
when b events = if b then events else []

-- The switch on the update's type.
unfoldable pub calls : Codec → Handler → PackageDataUpdate → List Event
calls codec h u =
    if str_eq u.kind "message"
    then one on_message (codec.message u.payload)
    else if str_eq u.kind "delete_message"
    then one (λ dp. on_delete_message dp.message_id dp.conversation_id)
        (codec.delete_message u.payload)
    else if str_eq u.kind "mark_read"
    then one (λ mp. on_mark_read mp.conversation_id mp.last_read_message_id)
        (codec.mark_read u.payload)
    else if str_eq u.kind "conversation"
    then one (λ peek. on_conversation_id peek.conversation_id) (codec.conversation_update u.payload)
    else if str_eq u.kind "typing"
    then when h.handles_typing (one on_typing (codec.typing u.payload))
    else if str_eq u.kind "streaming"
    then when h.handles_streaming (one on_streaming (codec.streaming u.payload))
    else if str_eq u.kind "agent_status"
    then when h.handles_agent_status (one on_agent_status (codec.agent_status u.payload))
    else if str_eq u.kind "agent_timeout"
    then when h.handles_agent_timeout (one on_agent_timeout (codec.agent_timeout u.payload))
    else if str_eq u.kind "gap"
    then on_gap u.seq ∷ []
    else []

unfoldable pub notify_handler : Env → PackageDataUpdate → List Event
unfolding calls
notify_handler env u = elim env.handler [ none ↦ [] | some h ↦ calls env.codec h u ]
