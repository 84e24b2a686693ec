-- ===== src/Server/Stores.antt =====
-- internal/store: the data access of the server, as functions over its tables.
pub mod UserUpdates
pub mod Messages
pub mod SendMessage
pub mod Cursors
pub mod Transactions
pub mod Fanout
pub mod RemoteCallings
