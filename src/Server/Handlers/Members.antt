-- ===== src/Server/Handlers/Members.antt =====
-- internal/handler/send_message.go: the members of a conversation.
use xyncra_server.Common.{String, ◌||◌, Bool, false, List, [], ◌∷◌, str_eq, if◌then◌else◌}
use Prim.Native.String.{◌++◌}
use text.Mathlib.Text.{starts_with}
use xyncra_server.Server.Model.{Conversation}

unfoldable pub conversation_members : Conversation → List String
conversation_members conv =
    conv.user_id1 ∷ (if str_eq conv.user_id2 "" then [] else conv.user_id2 ∷ [])

-- The user, or an agent of the user: `user/…`.
unfoldable pub contains_user_or_agent_base : List String → String → Bool
contains_user_or_agent_base [] user_id = false
contains_user_or_agent_base (m ∷ members) user_id =
    str_eq m user_id
    || (starts_with m (user_id ++ "/") || contains_user_or_agent_base members user_id)
