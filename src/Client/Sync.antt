-- ===== src/Client/Sync.antt =====
-- pkg/client/sync.go: the sync manager.
pub mod Env
pub mod Notify
pub mod Dispatch
pub mod Ephemeral
pub mod Keeps
pub mod Dispatched
pub mod Apply
pub mod Sequence
pub mod Batch
pub mod FullSync
pub mod CatchUp
