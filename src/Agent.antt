-- ===== src/Agent.antt =====
-- internal/agent: what the agents' executions share.
pub mod Semaphore
