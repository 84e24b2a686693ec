-- ===== src/Tests.antt =====
-- Concrete inputs: an engine over lists, and the theorems at inputs that meet their hypotheses.
mod Engine
mod Sorting
mod Client
mod CatchUp
mod Tally
mod Cache
mod Send
mod Mark
mod Retries
mod Calls
mod Resume
mod Functions
mod Connections
mod Deletion
mod Slots
