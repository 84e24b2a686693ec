-- ===== src/Client.antt =====
-- pkg/client and pkg/store: the client's side.
pub mod Model
pub mod Stores
pub mod Sync
pub mod IdempotencyCache
pub mod ResponseRetryQueue
