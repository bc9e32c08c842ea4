-- ===== src/Kv.antt =====
-- The key-value store (group1/kvstore): its servers, caches, disk store and log.
pub mod Text
pub mod Codes
pub mod Memory
pub mod CacheSet
pub mod Cache
pub mod Disk
pub mod Store
pub mod Log
pub mod Server
pub mod Master
pub mod WorkQueue
mod Tests
