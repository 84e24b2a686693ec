-- ===== src/Server.antt =====
-- internal/store, internal/handler and internal/server: the server's side.
pub mod Model
pub mod Stores
pub mod Handlers
pub mod FunctionRegistry
pub mod ConnectionStore
