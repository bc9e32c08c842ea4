-- ===== src/Kv/Tests.antt =====
-- The theorems at concrete inputs.
pub mod Tables
pub mod Drive
pub mod Fixtures
mod Servers
mod Stores
mod Sets
mod Logs
mod Masters
mod Queues
