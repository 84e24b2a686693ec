-- ===== src/Client/Stores.antt =====
-- pkg/store: the data access of the client, as functions over its tables.
pub mod SyncStates
pub mod Recorded
pub mod Conversations
pub mod Messages
