-- ===== src/Lifecycle.antt =====
-- Counters and phases that threads share: sessions, handlers, fallback queries, connections.
pub mod Threads
pub mod Sessions
pub mod Handlers
pub mod Combo
pub mod Budget
pub mod Pool
