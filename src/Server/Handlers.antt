-- ===== src/Server/Handlers.antt =====
-- internal/handler: the handlers of the requests.
pub mod HandlerError
pub mod Tasks
pub mod Members
pub mod Broadcast
pub mod SyncUpdates
pub mod SendMessage
pub mod MarkAsRead
pub mod AgentResume
pub mod CancelRemoteCalls
pub mod Cascade
pub mod DeleteConversation
pub mod DeleteMessage
pub mod RestoreConversation
