-- ===== src/Lib.antt =====
-- The synchronisation of Xyncra: a server keeps a numbered stream of updates for each user, and a
-- client applies it, in order and once each, to its own database.
--
-- The parts.
--   Protocol: the update that travels (pkg/protocol).
--   Fault: the stores' errors and Go's value-or-error results (pkg/store/errors.go,
--   internal/store/errors.go).
--   Sql: the statements that the stores run through GORM, a record of calls, with what is documented
--   of a call that succeeds in `IsSql`. Any call may fail, for any reason.
--   Client.Model and Client.Stores: the rows and the store operations of pkg/store.
--   Client.Sync: pkg/client/sync.go. Env holds the payloads and what the manager is given, Notify is
--   `notifyHandler`, Dispatch is `dispatchUpdateTx` with its handlers, Ephemeral is
--   `handleEphemeralConversationUpdate`, Apply is `ApplyUpdate`, `ApplyUpdates` and the debounced
--   pull, FullSync is `FullSync`. The other files of the folder prove.
--   Server.Model, Server.Stores: the rows and stores of internal/store; Transactions
--   is `Transaction` of store.go, SendMessage the one that numbers a message and its updates, Fanout
--   the allocation of the members' updates, RemoteCallings is remote_calling.go, with its operations
--   as a step relation in RemoteCallings.Steps.
--   Client.IdempotencyCache: pkg/client/idempotency_cache.go, an LRU cache of handled requests.
--   Client.ResponseRetryQueue: pkg/client/response_retry_queue.go, the responses to send again.
--   Server.Handlers: the request handlers of internal/handler; SyncUpdates is sync_updates.go,
--   SendMessage is send_message.go, MarkAsRead is mark_as_read.go, AgentResume is agent_resume.go,
--   CancelRemoteCalls is cancel_remote_calls.go, DeleteConversation and RestoreConversation are
--   delete_conversation.go and restore_conversation.go, with the two transactions in Cascade, Broadcast
--   is broadcast_conversation_update.go, DeleteMessage is delete_message.go, Tasks and Members are what
--   they share.
--   Server.FunctionRegistry: internal/server/function_registry.go, the functions of the devices.
--   Server.ConnectionStore: internal/server/memory_connection_store.go, the connections with their
--   index by user; Histories has its operations as a step relation.
--   Agent.Semaphore: internal/agent/semaphore.go; Runs interleaves the steps of the goroutines.
--   CatchUp: the client's `FullSync` against the server's `sync_updates`.
--   Tests: an engine over lists, and the theorems at concrete inputs.
--
-- How the code is translated. A Go function with an error is a function into `Result`. A database is
-- a record of tables and a table a list of rows; a transaction is a function from tables to a result,
-- and its tables are kept only where it succeeds. The goroutines that `applyMu` serialises are
-- sequences of calls on a `Manager`; a timer is a field and a step of its own. The clock and uuid.New
-- are functions of the update, encoding/json is a record of partial decoders, and a call of the server
-- is a function of the request that may fail. uint32 is ℕ with the wrap-around written out where the
-- source adds.
--
-- Fuel. `fill` takes one unit for each turn of the handler's loop; it is called with limit + 1, which
-- is enough where the last number is below 2 ^ 32 - 1. `transaction` makes the source's three
-- attempts. `full_sync` takes one for each request.
--
-- Waiting. The client's database has one connection, which a transaction holds; two statements of
-- pkg/client/sync.go ask the pool for another inside it. They fail with the context's error where
-- the context ends, and where it does not, the call fails with `waiting`, which stands for no return:
-- `full_sync` is none then, and the tables stay as they were.
--
-- Not modelled: the network, the WebSocket server, Redis, the agents apart from their semaphore, the
-- command line, logs, metrics and traces; the stores' queries for display; encoding/json and GORM, which are parameters.
mod Common
pub mod Fault
pub mod Sql
pub mod Protocol
pub mod Client
pub mod Server
pub mod Agent
pub mod CatchUp
mod Tests
